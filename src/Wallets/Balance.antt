-- ===== src/Wallets/Balance.antt =====
-- What `adjust_balance` reads and writes: one wallet, by a rounded sum, or nothing.
use nexa_fx_js.Base.{
  ℕ, ◌≡◌, refl, some, true, inl, inr, [], ◌∷◌, arith, Bool-cases, Text, same_text_refl,
  eq_of_same_text, if◌then◌else◌,
}
use nexa_fx_js.Base.Int.{ℤ, pos, ◌+ℤ◌, ltb_ℤ}
use nexa_fx_js.Base.Action.{ok, err, bad_request, insufficient_balance}
use nexa_fx_js.Wallets.{
  Wallet, Wallets, is_of, find_wallet, save_wallet, read_wallet, to_fixed_2, write_balance,
}

-- The stored balance; no row stands for 0.
abbrev pub balance_at : ℕ → Text → Wallets → ℤ
balance_at account currency ws = (read_wallet account currency ws).balance

is_of_congr :
    (a : ℕ) (c : Text) (w v : Wallet)
    → is_of w.account_id w.currency v ≡ true
    → is_of a c v ≡ is_of a c w
unfolding is_of
is_of_congr a c w v h = ground (arith, eq_of_same_text v.currency w.currency)

pub is_of_refl : (w : Wallet) → is_of w.account_id w.currency w ≡ true
unfolding is_of
is_of_refl w = ground (arith, same_text_refl w.currency)

pub is_of_self :
    (a : ℕ) (c : Text) (w : Wallet) → w.account_id ≡ a → w.currency ≡ c → is_of a c w ≡ true
unfolding is_of
is_of_self a c w p q = ground (arith, same_text_refl c)

pub is_of_key :
    (a : ℕ) (c : Text) (w : Wallet) → is_of a c w ≡ true → (w.account_id ≡ a) × (w.currency ≡ c)
unfolding is_of
is_of_key a c w h = ground (arith, eq_of_same_text w.currency c)

pub is_of_same :
    (a : ℕ) (c : Text) (w v : Wallet)
    → is_of a c w ≡ true
    → is_of a c v ≡ true
    → is_of w.account_id w.currency v ≡ true
is_of_same a c w v h k = let (account, currency) = is_of_key a c w h in rw (account, currency) k

-- `save_wallet` with its test of the key left as a call.
pub save_wallet_cons :
    (w v : Wallet) (vs : Wallets)
    → save_wallet w (v ∷ vs)
      ≡ (if is_of w.account_id w.currency v then w ∷ vs else v ∷ save_wallet w vs)
unfolding save_wallet
save_wallet_cons w v vs = refl

pub find-save_wallet :
    (a : ℕ) (c : Text) (w : Wallet) (ws : Wallets)
    → find_wallet a c (save_wallet w ws) ≡ (if is_of a c w then some w else find_wallet a c ws)
find-save_wallet a c w [] = unfold save_wallet in ground arith
find-save_wallet a c w (v ∷ ws) = ground (
  arith,
  save_wallet_cons w v ws,
  is_of_congr a c w v,
  is_of_same a c w v,
  find-save_wallet a c w ws,
)

pub read-save_wallet :
    (a : ℕ) (c : Text) (w : Wallet) (ws : Wallets)
    → read_wallet a c (save_wallet w ws) ≡ (if is_of a c w then w else read_wallet a c ws)
read-save_wallet a c w ws =
    rw find-save_wallet
      (elim (Bool-cases (is_of a c w)) [ inl same ↦ rw same | inr other ↦ rw other ])

pub read_wallet_key :
    (a : ℕ) (c : Text) (ws : Wallets)
    → ((read_wallet a c ws).account_id ≡ a) × ((read_wallet a c ws).currency ≡ c)
read_wallet_key a c [] = (refl, refl)
read_wallet_key a c (v ∷ ws) = ground (arith, is_of_key a c v, read_wallet_key a c ws)

-- The steps of `adjust_balance` on a supported currency.
abbrev pub new_balance : ℕ → Text → ℤ → Wallets → ℤ
new_balance account currency delta ws = to_fixed_2 (balance_at account currency ws +ℤ delta)

pub write_balance_lem :
    (account : ℕ) (currency : Text) (delta : ℤ) (ws : Wallets)
    → write_balance account currency delta ws ≡ (
        if ltb_ℤ (new_balance account currency delta ws) (pos 0)
        then (err (bad_request insufficient_balance), ws)
        else (
          ok (record (read_wallet account currency ws) {
            balance = new_balance account currency delta ws;
          }),
          save_wallet
              (record (read_wallet account currency ws) {
                balance = new_balance account currency delta ws;
              })
              ws,
        ))
unfolding write_balance
write_balance_lem account currency delta ws = ground arith
