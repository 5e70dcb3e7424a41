-- ===== src/Wallets/Invariant.antt =====
-- The invariant of the wallet table, and what a call of `adjustBalance` does to it.
use nexa_fx_js.Base.{
  ℕ, ◌≡◌, refl, sym, ap, ◌∙◌, none, true, false, inl, inr, [], ◌∷◌, arith, Bool-cases, Text,
}
use nexa_fx_js.Base.Int.{ℤ, pos, ◌+ℤ◌, ◌≤ℤ◌, ◌<ℤ◌, ltb_ℤ}
use nexa_fx_js.Base.Action.{Result, ok, err, bad_request, insufficient_balance}
use nexa_fx_js.Currencies.{validate_currency}
use nexa_fx_js.Wallets.{
  Wallet, Wallets, is_of, find_wallet, save_wallet, read_wallet, write_balance,
}
use nexa_fx_js.Wallets.Money.{IsCents, to_fixed_2-IsCents}
use nexa_fx_js.Wallets.Total.{total, total-save_same, total-save_other}
use nexa_fx_js.Wallets.Balance.{
  balance_at, new_balance, is_of_refl, is_of_self, is_of_key, is_of_same, find-save_wallet,
  read-save_wallet, save_wallet_cons, read_wallet_key, write_balance_lem,
}

-- No wallet is overdrawn, all hold whole cents, and the currency is a validated code.
pub record IsSound (w : Wallet) : Type 0 where
  pub covered : pos 0 ≤ℤ w.balance
  pub whole : IsCents w.balance
  pub supported : validate_currency w.currency ≡ ok w.currency

-- The unique index: no two rows have the same account and currency.
abbrev pub IsValid : Wallets → Type 0
IsValid [] = Unit
IsValid (w ∷ ws) = IsSound w × (find_wallet w.account_id w.currency ws ≡ none) × IsValid ws

save_head-IsValid :
    (w v : Wallet) (ws : Wallets)
    → is_of w.account_id w.currency v ≡ true
    → find_wallet v.account_id v.currency ws ≡ none
    → find_wallet w.account_id w.currency ws ≡ none
save_head-IsValid w v ws h e =
    let (account, currency) = is_of_key w.account_id w.currency v h in rw (← account, ← currency) e

save_tail-IsValid :
    (w v : Wallet) (ws : Wallets)
    → is_of w.account_id w.currency v ≡ false
    → find_wallet v.account_id v.currency ws ≡ none
    → find_wallet v.account_id v.currency (save_wallet w ws) ≡ none
save_tail-IsValid w v ws h e = ground (
  arith,
  find-save_wallet v.account_id v.currency w ws,
  is_of_same v.account_id v.currency w v,
  is_of_refl v,
)

pub save_wallet-IsValid :
    (w : Wallet) (ws : Wallets) → IsSound w → IsValid ws → IsValid (save_wallet w ws)
save_wallet-IsValid w [] s h = unfold save_wallet in (s, refl, tt)
save_wallet-IsValid w (v ∷ ws) s (sv, new, h) =
    elim (Bool-cases (is_of w.account_id w.currency v)) [
      | inl same ↦ rw (save_wallet_cons w v ws, same) (s, save_head-IsValid w v ws same new, h)
      | inr other ↦
          rw (save_wallet_cons w v ws, other)
            (sv, save_tail-IsValid w v ws other new, save_wallet-IsValid w ws s h)
    ]

pub read_wallet-IsSound :
    (a : ℕ) (c : Text) (ws : Wallets)
    → validate_currency c ≡ ok c
    → IsValid ws
    → IsSound (read_wallet a c ws)
read_wallet-IsSound a c [] e h = record {
  covered = omega arith;
  whole = omega arith;
  supported = e;
}
read_wallet-IsSound a c (v ∷ ws) e (sv, new, h) = elim (Bool-cases (is_of a c v)) [
  | inl same ↦ rw same sv
  | inr other ↦ rw other (read_wallet-IsSound a c ws e h)
]

-- What a call of `adjustBalance` has done to the table, by how it ended.
pub record IsAdjusted (account : ℕ) (currency : Text) (delta : ℤ) (ws ws' : Wallets) : Type 0 where
  pub moved : balance_at account currency ws' ≡ new_balance account currency delta ws
  pub covered : pos 0 ≤ℤ balance_at account currency ws'
  pub others :
      (a : ℕ) (c : Text)
      → ¬ ((a ≡ account) × (c ≡ currency))
      → read_wallet a c ws' ≡ read_wallet a c ws
  pub sum :
      total currency ws' +ℤ balance_at account currency ws
      ≡ total currency ws +ℤ balance_at account currency ws'
  pub other_sums : (c : Text) → ¬ (currency ≡ c) → total c ws' ≡ total c ws

abbrev pub Outcome : ℕ → Text → ℤ → Wallets → Result Wallet × Wallets → Type 0
Outcome account currency delta ws (ok w, ws') =
    IsAdjusted account currency delta ws ws' × IsValid ws' × (w ≡ read_wallet account currency ws')
Outcome account currency delta ws (err e, ws') =
    (e ≡ bad_request insufficient_balance)
    × (new_balance account currency delta ws <ℤ pos 0)
    × (ws' ≡ ws)

module _ (account : ℕ) (currency : Text) (w : Wallet) (ws : Wallets) where
  read-save_same :
      w.account_id ≡ account
      → w.currency ≡ currency
      → read_wallet account currency (save_wallet w ws) ≡ w
  read-save_same p q =
      rw (read-save_wallet account currency w ws, is_of_self account currency w p q)

  total-save_at :
      w.account_id ≡ account
      → w.currency ≡ currency
      → total currency (save_wallet w ws) +ℤ balance_at account currency ws
        ≡ total currency ws +ℤ w.balance
  total-save_at p q =
      let key = read_wallet_key w.account_id w.currency ws in
      let h = total-save_same w ws key.1 in simp (p, q) at h

  total-save_elsewhere :
      w.currency ≡ currency
      → (c : Text) → ¬ (currency ≡ c)
      → total c (save_wallet w ws) ≡ total c ws
  total-save_elsewhere q c differ =
      total-save_other w ws c (read_wallet_key w.account_id w.currency ws).1
        (λ e. differ (sym q ∙ e))

  read-save_other :
      w.account_id ≡ account
      → w.currency ≡ currency
      → (a : ℕ) (c : Text) → ¬ ((a ≡ account) × (c ≡ currency))
      → read_wallet a c (save_wallet w ws) ≡ read_wallet a c ws
  read-save_other p q a c differ = rw read-save_wallet (elim (Bool-cases (is_of a c w)) [
    | inl same ↦ let (r, s) = is_of_key a c w same in absurd (differ (sym r ∙ p, sym s ∙ q))
    | inr other ↦ rw other
  ])

-- The wallet that `write_balance` saves.
abbrev written : ℕ → Text → ℤ → Wallets → Wallet
written account currency delta ws = record (read_wallet account currency ws) {
  balance = new_balance account currency delta ws;
}

module _ (account : ℕ) (currency : Text) (delta : ℤ) (ws : Wallets)
    (supported : validate_currency currency ≡ ok currency) (valid : IsValid ws) where
  written-IsSound :
      ltb_ℤ (new_balance account currency delta ws) (pos 0) ≡ false
      → IsSound (written account currency delta ws)
  written-IsSound h = record {
    covered = ground arith;
    whole = to_fixed_2-IsCents _;
    supported = rw ((read_wallet_key account currency ws).1) supported;
  }

  pub write_balance-Outcome :
      Outcome account currency delta ws (write_balance account currency delta ws)
  write_balance-Outcome =
      rw (write_balance_lem account currency delta ws)
        (elim (Bool-cases (ltb_ℤ (new_balance account currency delta ws) (pos 0))) [
          | inl low ↦ rw low (refl, ground arith, refl)
          | inr fine ↦
              let (p, q) = read_wallet_key account currency ws in
              let w = written account currency delta ws in
              let read = read-save_same account currency w ws p q in
              let moved = ap (λ (v : Wallet). v.balance) read in
              rw fine (
                record {
                  moved = moved;
                  covered = rw (moved, balance_at) (ground arith);
                  others = read-save_other account currency w ws p q;
                  sum = rw (moved, balance_at) (total-save_at account currency w ws p q);
                  other_sums = total-save_elsewhere account currency w ws q;
                },
                save_wallet-IsValid w ws (written-IsSound fine) valid,
                sym read,
              )
        ])
