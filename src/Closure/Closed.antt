-- ===== src/Closure/Closed.antt =====
-- What closeAccount of src/users/account-closure.service.ts leaves behind.
use nexa_fx_js.Base.{
  ℕ, ◌≡◌, refl, ap, subst, holds_of_find, inl, inr, Bool, true, false, not, ◌&&◌, ◌||◌, none, some,
  List, [], ◌∷◌, ◌==◌, find, any, update_where, All, arith, Bool-cases, is_some,
}
use nexa_fx_js.Base.Int.{ℤ, pos, negsuc}
use nexa_fx_js.Base.Action.{
  ok, passed_throw_if, passed_or_throw, unauthorized, unprocessable, two_factor_wrong,
  password_wrong, confirmation_required, invalid_access_token, account_not_found, balance_not_zero,
}
use nexa_fx_js.Wallets.{Wallet, Wallets, is_zero, get_balances_for_account}
use nexa_fx_js.Tokens.{Tokens, RefreshToken, revoke_user_tokens}
use nexa_fx_js.Closure.TwoFactor.{is_two_factor_code_valid}
use nexa_fx_js.Closure.{
  UserAccount, State, Crypto, Request, AccountClosureResult, is_blank, account_of,
  find_active_account_by_id, save_account, has_funds, close, confirm, close_row, check_and_close,
  close_account,
}

-- A wallet of the account holds nothing.
abbrev pub IsEmptyOf : ℕ → Wallet → Type 0
IsEmptyOf account w = (w.account_id ≡ account) → w.balance ≡ pos 0

-- A refresh token of the account is revoked.
abbrev pub IsRevokedOf : ℕ → RefreshToken → Type 0
IsRevokedOf account t = (t.user_id ≡ account) → is_some t.revoked_at ≡ true

-- The account cannot be used any more, and nothing of it is left to use.
pub record IsClosed (account : ℕ) (s : State) : Type 0 where
  pub inactive : find_active_account_by_id account s ≡ none
  pub empty : All (IsEmptyOf account) s.wallets
  pub revoked : All (IsRevokedOf account) s.tokens

or_false : (a b : Bool) → (a || b) ≡ false → (a ≡ false) × (b ≡ false)
or_false a b h = ground arith

zero_balance : (z : ℤ) → not (is_zero z) ≡ false → z ≡ pos 0
zero_balance (pos n) h = ap pos (ground arith)
zero_balance (negsuc n) h = cc

no_funds :
    (account : ℕ) (ws : Wallets)
    → any (λ (w : Wallet). not (is_zero w.balance)) (get_balances_for_account account ws) ≡ false
    → All (IsEmptyOf account) ws
no_funds account [] h = tt
no_funds account (w ∷ ws) h = elim (Bool-cases (w.account_id == account)) [
  | inl own ↦
      let k = or_false (not (is_zero w.balance)) _ (rw (own) at h) in
      (λ _. zero_balance w.balance k.0, no_funds account ws k.1)
  | inr other ↦ (λ e. ground arith, no_funds account ws (rw (other) at h))
]

revoked : (now user : ℕ) (ts : Tokens) → All (IsRevokedOf user) (revoke_user_tokens now user ts)
unfolding revoke_user_tokens
revoked now user [] = tt
revoked now user (t ∷ ts) = elim (Bool-cases (t.user_id == user)) [
  | inl own ↦ rw (own) (λ _. refl, revoked now user ts)
  | inr other ↦ rw (other) (λ e. ground arith, revoked now user ts)
]

no_active :
    (a : UserAccount) (rows : List UserAccount)
    → a.is_active ≡ false
    → find
        (λ (r : UserAccount). (r.id == a.id) && r.is_active)
        (update_where (λ (r : UserAccount). r.id == a.id) (λ _. a) rows)
      ≡ none
no_active a [] h = refl
no_active a (r ∷ rs) h = elim (Bool-cases (r.id == a.id)) [
  | inl hit ↦ rw (hit, h) (ground (arith, no_active a rs h))
  | inr miss ↦ rw (miss, miss) (no_active a rs h)
]

inactive_after :
    (a : UserAccount) (s : State)
    → a.is_active ≡ false
    → find_active_account_by_id a.id (save_account a s) ≡ none
unfolding find_active_account_by_id save_account
inactive_after a s h = no_active a s.accounts h

confirm-IsClosed :
    (mail_up : Bool) (now : ℕ) (a : UserAccount) (s : State)
    → a.is_active ≡ false
    → IsClosed a.id s
    → IsClosed a.id (confirm mail_up now a s)
unfolding confirm save_account
confirm-IsClosed false now a s h closed = closed
confirm-IsClosed true now a s h closed = record {
  inactive = inactive_after (record a { final_email_sent_at = some now }) s h;
  empty = closed.empty;
  revoked = closed.revoked;
}

close_row-IsClosed :
    (crypto : Crypto) (mail_up : Bool) (now : ℕ) (a : UserAccount) (s : State)
    → has_funds a.id s ≡ false
    → IsClosed a.id (close_row crypto mail_up now a s).1
unfolding close_row has_funds save_account find_active_account_by_id
close_row-IsClosed crypto mail_up now a s h =
    let closed = close now (crypto.add_retention now) a in
    confirm-IsClosed mail_up now closed _ refl (record {
      inactive = no_active closed s.accounts refl;
      empty = no_funds a.id s.wallets h;
      revoked = revoked now a.id s.tokens;
    })

-- The request proves who it is from: its password and its code are those of the account.
pub record IsFrom (crypto : Crypto) (now : ℕ) (request : Request) (a : UserAccount) : Type 0 where
  pub active : a.is_active ≡ true
  pub password : crypto.hash_password request.current_password a.password_salt ≡ a.password_hash
  pub code :
      is_two_factor_code_valid crypto.hmac now a.two_factor_secret request.two_factor_code ≡ true

module _ (crypto : Crypto) (mail_up : Bool) (now : ℕ) (request : Request) (s t : State)
    (result : AccountClosureResult) where
  check_and_close-IsClosed :
      (a : UserAccount)
      → check_and_close crypto mail_up now request a s ≡ (ok result, t)
      → IsFrom crypto now request a × IsClosed a.id t
  unfolding check_and_close
  check_and_close-IsClosed a h =
      let (live, h₁) = passed_throw_if (not a.is_active) (unauthorized account_not_found) _ h in
      let (same, h₂) =
        passed_throw_if
          (not (crypto.hash_password request.current_password a.password_salt == a.password_hash))
          (unauthorized password_wrong) _ h₁ in
      let (code, h₃) =
        passed_throw_if
          (not
            (is_two_factor_code_valid crypto.hmac now a.two_factor_secret request.two_factor_code))
          (unauthorized two_factor_wrong) _ h₂ in
      let (zero, h₄) = passed_throw_if (has_funds a.id s) (unprocessable balance_not_zero) _ h₃ in
      (
        record { active = ground arith; password = ground arith; code = ground arith },
        subst (λ x. IsClosed a.id x.1) h₄ (close_row-IsClosed crypto mail_up now a s zero),
      )

  -- When `closeAccount` succeeds, the access token names an active account of the table whose
  -- password and code the request has; the account is then no longer found as active, all its
  -- wallets are at zero, and all its refresh tokens are revoked, whether or not the mail was sent.
  pub close_account-IsClosed :
      close_account crypto mail_up now request s ≡ (ok result, t)
      → (a : UserAccount) × (crypto.verify request.access_token ≡ some a.id)
        × (account_of a.id s ≡ some a)
        × IsFrom crypto now request a
        × IsClosed a.id t
  unfolding close_account
  close_account-IsClosed h =
      let (_, h₁) =
        passed_throw_if (is_blank request.current_password || is_blank request.two_factor_code)
          (unauthorized confirmation_required) _ h in
      let (sub, known, h₂) =
        passed_or_throw (crypto.verify request.access_token) (unauthorized invalid_access_token) _
          h₁ in
      let (a, found, h₃) =
        passed_or_throw (account_of sub s) (unauthorized account_not_found) _ h₂ in
      let same = holds_of_find (λ (r : UserAccount). r.id == sub) s.accounts a found in
      let e : sub ≡ a.id = ground arith in
      let (from, closed) = check_and_close-IsClosed a h₃ in
      (a, rw (← e) known, rw (← e) found, from, closed)
