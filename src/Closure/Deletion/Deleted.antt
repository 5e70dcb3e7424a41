-- ===== src/Closure/Deletion/Deleted.antt =====
-- What is left of a user after src/users/services/account-deletion.service.ts.
use nexa_fx_js.Base.{
  ℕ, ◌≡◌, ◌≢◌, ◌⊎◌, refl, Bool, true, false, ◌&&◌, ◌||◌, not, Option, none, some, List, [], ◌∷◌,
  ◌==◌, length, find, any, filter, find-update, holds_of_find, is_some, map, arith, Bool-cases, inl,
  inr, codes,
}
use nexa_fx_js.Base.Action.{ok}
use nexa_fx_js.Closure.{UserAccount}
use nexa_fx_js.Referral.{Referral}
use nexa_fx_js.Tokens.{RefreshToken, Tokens, revoke_user_tokens}
use nexa_fx_js.Closure.Deletion.{AuditRow, State, is_user, anonymise, deleted_row, delete_account}

abbrev pub is_live_of : ℕ → RefreshToken → Bool
is_live_of user t = (t.user_id == user) && not (is_some t.revoked_at)

abbrev pub mentions : ℕ → Referral → Bool
mentions user r = (r.referred_id == user) || (r.referrer_id == user)

-- What no deletion changes of an audit row.
pub record SameEvent (e f : AuditRow) : Type 0 where
  pub id : f.id ≡ e.id
  pub action : f.action ≡ e.action
  pub entity_type : f.entity_type ≡ e.entity_type
  pub entity_id : f.entity_id ≡ e.entity_id
  pub before : f.before ≡ e.before
  pub after : f.after ≡ e.after
  pub ip_address : f.ip_address ≡ e.ip_address
  pub user_agent : f.user_agent ≡ e.user_agent
  pub created_at : f.created_at ≡ e.created_at

-- A row of the user has lost its user and has the reason of the deletion; any other is as it was.
abbrev pub Detached : ℕ → AuditRow → AuditRow → Type 0
Detached user e f =
    ((e.user_id ≡ some user)
      × (f.user_id ≡ none)
      × (f.reason ≡ some (codes "account-deleted"))
      × SameEvent e f)
    ⊎ ((e.user_id ≢ some user) × (f ≡ e))

-- Two logs, row by row.
abbrev pub AllDetached : ℕ → List AuditRow → List AuditRow → Type 0
AllDetached user [] [] = Unit
AllDetached user (e ∷ es) (f ∷ fs) = Detached user e f × AllDetached user es fs
AllDetached user _ _ = ⊥

pub record IsDeleted (now user : ℕ) (account : UserAccount) (s t : State) : Type 0 where
  pub account_row : find (λ a. a.id == user) t.accounts ≡ some (deleted_row now account)
  pub no_live_token : any (is_live_of user) t.tokens ≡ false
  pub tokens_kept : length t.tokens ≡ length s.tokens
  pub no_referral : any (mentions user) t.referrals ≡ false
  pub audit_detached : AllDetached user s.audit t.audit
  pub no_alert : any (λ u. u == user) t.rate_alerts ≡ false

module _ (now user : ℕ) where
  tokens_dead : (ts : Tokens) → any (is_live_of user) (revoke_user_tokens now user ts) ≡ false
  unfolding revoke_user_tokens
  tokens_dead [] = refl
  tokens_dead (t ∷ ts) = ground (arith, tokens_dead ts)

  length-revoke : (ts : Tokens) → length (revoke_user_tokens now user ts) ≡ length ts
  unfolding revoke_user_tokens
  length-revoke [] = refl
  length-revoke (t ∷ ts) = omega (arith, length-revoke ts)

  unmentioned :
      (rs : List Referral)
      → any
          (mentions user)
          (filter (λ r. not (r.referrer_id == user)) (filter (λ r. not (r.referred_id == user)) rs))
        ≡ false
  unmentioned [] = refl
  unmentioned (r ∷ rs) = ground (arith, unmentioned rs)

  user_of : (o : Option ℕ) → is_user user o ≡ true → o ≡ some user
  user_of none h = cc
  user_of (some id) h = ground arith

  not_user_of : (o : Option ℕ) → is_user user o ≡ false → o ≢ some user
  not_user_of none h e = cc
  not_user_of (some id) h e = ground arith

  anonymise-Detached : (e : AuditRow) → Detached user e (anonymise user e)
  anonymise-Detached e = elim (Bool-cases (is_user user e.user_id)) [
    | inl own ↦ rw (own) (
        inl (
          user_of e.user_id own,
          refl,
          refl,
          record {
            id = refl;
            action = refl;
            entity_type = refl;
            entity_id = refl;
            before = refl;
            after = refl;
            ip_address = refl;
            user_agent = refl;
            created_at = refl;
          },
        ))
    | inr other ↦ rw (other) (inr (not_user_of e.user_id other, refl))
  ]

  all_detached : (es : List AuditRow) → AllDetached user es (map (anonymise user) es)
  all_detached [] = tt
  all_detached (e ∷ es) = (anonymise-Detached e, all_detached es)

  unalerted : (us : List ℕ) → any (λ u. u == user) (filter (λ u. not (u == user)) us) ≡ false
  unalerted [] = refl
  unalerted (u ∷ us) = ground (arith, unalerted us)

  -- For an account that is there the deletion succeeds. The row is found as deleted and inactive, no
  -- refresh token of the user is live and none is lost, no referral and no rate alert mentions the user.
  -- An audit row of the user's has lost its user id and has the reason 'account-deleted', but keeps its
  -- entity and what it recorded before and after, which may name the user; the others are as they were.
  pub delete_account-IsDeleted :
      (account : UserAccount) (s : State)
      → find (λ a. a.id == user) s.accounts ≡ some account
      → (t : State) × (delete_account now user s ≡ (ok (record { deleted_at = now }), t))
        × IsDeleted now user account s t
  unfolding delete_account
  delete_account-IsDeleted account s found = (
    _,
    rw (found) refl,
    record {
      account_row =
          find-update (λ a. a.id == user) (λ a. a.id == account.id) account
            (deleted_row now account) s.accounts found (ground arith)
            (holds_of_find (λ a. a.id == user) s.accounts account found);
      no_live_token = tokens_dead s.tokens;
      tokens_kept = length-revoke s.tokens;
      no_referral = unmentioned s.referrals;
      audit_detached = all_detached s.audit;
      no_alert = unalerted s.rate_alerts;
    },
  )
