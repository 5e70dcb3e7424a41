-- ===== src/Wallets/Move.antt =====
-- A debit followed by a credit of the same amount, as a transfer does them.
use nexa_fx_js.Base.{ℕ, ◌≡◌, refl, sym, ap, ◌∙◌, ◌≢◌, inl, inr, arith, Text, same_text-cases}
use nexa_fx_js.Base.Int.{
  ℤ, pos, neg, ◌+ℤ◌, ◌-ℤ◌, ◌≤ℤ◌, ◌<ℤ◌, +ℤ_neg, +ℤ_neg_nonneg, +ℤ_nonneg, transfer_cancels,
}
use nexa_fx_js.Base.Action.{Result, ok, err, bad_request, insufficient_balance}
use nexa_fx_js.Currencies.{validate_currency}
use nexa_fx_js.Currencies.Normal.{validate_currency_stable}
use nexa_fx_js.Wallets.{Wallet, Wallets, read_wallet, adjust_balance}
use nexa_fx_js.Wallets.Money.{IsCents, to_fixed_2_exact, IsCents-+ℤ}
use nexa_fx_js.Wallets.Balance.{balance_at, new_balance}
use nexa_fx_js.Wallets.Total.{total}
use nexa_fx_js.Wallets.Invariant.{IsValid, IsAdjusted, Outcome, read_wallet-IsSound}
use nexa_fx_js.Wallets.Adjust.{adjust_balance-Outcome}

covered-Outcome :
    (account : ℕ) (c : Text) (delta : ℤ) (ws : Wallets) (r : Result Wallet × Wallets)
    → Outcome account c delta ws r
    → pos 0 ≤ℤ new_balance account c delta ws
    → (w : Wallet) × (ws' : Wallets) × (r ≡ (ok w, ws'))
      × IsAdjusted account c delta ws ws'
      × IsValid ws'
covered-Outcome account c delta ws (ok w, ws') (a, v, _) h = (w, ws', refl, a, v)
covered-Outcome account c delta ws (err e, ws') (_, low, _) h = absurd (omega arith)

-- A change that leaves the rounded balance at 0 or more goes through.
pub adjust_balance_covered :
    (account : ℕ) (currency c : Text) (delta : ℤ) (ws : Wallets)
    → validate_currency currency ≡ ok c
    → IsValid ws
    → pos 0 ≤ℤ new_balance account c delta ws
    → (w : Wallet) × (ws' : Wallets) × (adjust_balance account currency delta ws ≡ (ok w, ws'))
      × IsAdjusted account c delta ws ws'
      × IsValid ws'
adjust_balance_covered account currency c delta ws e valid h =
    covered-Outcome account c delta ws _
      (adjust_balance-Outcome account currency c delta ws e valid) h

short-Outcome :
    (account : ℕ) (c : Text) (delta : ℤ) (ws : Wallets) (r : Result Wallet × Wallets)
    → Outcome account c delta ws r
    → new_balance account c delta ws <ℤ pos 0
    → r ≡ (err (bad_request insufficient_balance), ws)
short-Outcome account c delta ws (ok w, ws') (a, v, _) h =
    absurd (let above = rw a.moved at a.covered in omega (arith, above))
short-Outcome account c delta ws (err e, ws') (p, low, q) h = rw (p, q) refl

-- A change that would leave the rounded balance below 0 is refused.
pub adjust_balance_short :
    (account : ℕ) (currency c : Text) (delta : ℤ) (ws : Wallets)
    → validate_currency currency ≡ ok c
    → IsValid ws
    → new_balance account c delta ws <ℤ pos 0
    → adjust_balance account currency delta ws ≡ (err (bad_request insufficient_balance), ws)
adjust_balance_short account currency c delta ws e valid h =
    short-Outcome account c delta ws _ (adjust_balance-Outcome account currency c delta ws e valid)
      h

-- On whole cents nothing is rounded.
pub new_balance_exact :
    (account : ℕ) (c : Text) (delta : ℤ) (ws : Wallets)
    → validate_currency c ≡ ok c
    → IsValid ws
    → IsCents delta
    → new_balance account c delta ws ≡ balance_at account c ws +ℤ delta
new_balance_exact account c delta ws e valid h =
    to_fixed_2_exact _ (IsCents-+ℤ _ delta (read_wallet-IsSound account c ws e valid).whole h)

pub IsCents-neg : (z : ℤ) → IsCents z → IsCents (neg z)
IsCents-neg z h = ground arith

-- What a debit of `from` and a credit of `to` have done together.
pub record IsMoved (from to : ℕ) (c : Text) (z : ℤ) (ws ws' : Wallets) : Type 0 where
  pub debited : balance_at from c ws' ≡ balance_at from c ws -ℤ z
  pub credited : balance_at to c ws' ≡ balance_at to c ws +ℤ z
  pub others :
      (a : ℕ) (d : Text)
      → ¬ ((a ≡ from) × (d ≡ c))
      → ¬ ((a ≡ to) × (d ≡ c))
      → read_wallet a d ws' ≡ read_wallet a d ws
  pub totals : (d : Text) → total d ws' ≡ total d ws
  pub valid : IsValid ws'

module _ (from to : ℕ) (c : Text) (z : ℤ) (ws ws₁ ws₂ : Wallets) (differ : from ≢ to)
    (debit : IsAdjusted from c (neg z) ws ws₁) (credit : IsAdjusted to c z ws₁ ws₂)
    (exact₁ : new_balance from c (neg z) ws ≡ balance_at from c ws +ℤ neg z)
    (exact₂ : new_balance to c z ws₁ ≡ balance_at to c ws₁ +ℤ z) where
  from-kept : balance_at from c ws₂ ≡ balance_at from c ws₁
  from-kept = ap (λ (w : Wallet). w.balance) (credit.others from c (λ h. differ h.0))

  to-kept : balance_at to c ws₁ ≡ balance_at to c ws
  to-kept = ap (λ (w : Wallet). w.balance) (debit.others to c (λ h. differ (sym h.0)))

  move-debited : balance_at from c ws₂ ≡ balance_at from c ws -ℤ z
  move-debited = from-kept ∙ debit.moved ∙ exact₁ ∙ +ℤ_neg (balance_at from c ws) z

  move-credited : balance_at to c ws₂ ≡ balance_at to c ws +ℤ z
  move-credited = credit.moved ∙ exact₂ ∙ ap (λ b. b +ℤ z) to-kept

  move-total : total c ws₂ ≡ total c ws
  move-total =
      transfer_cancels (total c ws₂) (total c ws₁) (total c ws) (balance_at from c ws)
        (balance_at to c ws₁) z
        (debit.sum ∙ ap (λ b. total c ws +ℤ b) (sym from-kept ∙ move-debited))
        (credit.sum ∙ ap (λ b. total c ws₁ +ℤ b) (credit.moved ∙ exact₂))

  total-moved : (d : Text) → total d ws₂ ≡ total d ws
  total-moved d = elim (same_text-cases c d) [
    | inl same ↦ rw (← same) move-total
    | inr other ↦ credit.other_sums d other ∙ debit.other_sums d other
  ]

  IsMoved-of_adjusted : IsValid ws₂ → IsMoved from to c z ws ws₂
  IsMoved-of_adjusted valid = record {
    debited = move-debited;
    credited = move-credited;
    others = λ a d p q. credit.others a d q ∙ debit.others a d p;
    totals = total-moved;
    valid = valid;
  }

-- Moving a covered, whole number of cents between two accounts: both calls go through, the balances
-- move by exactly the amount, no other wallet and no currency's total changes, and the table stays
-- valid.
pub debit-credit-IsMoved :
    (from to : ℕ) (currency c : Text) (z : ℤ) (ws : Wallets)
    → validate_currency currency ≡ ok c
    → IsValid ws
    → IsCents z
    → from ≢ to
    → pos 0 <ℤ z
    → z ≤ℤ balance_at from c ws
    → (w : Wallet) × (ws₁ : Wallets) × (v : Wallet) × (ws₂ : Wallets) × (adjust_balance from
          currency
          (neg z)
          ws
        ≡ (ok w, ws₁))
      × (adjust_balance to currency z ws₁ ≡ (ok v, ws₂))
      × IsMoved from to c z ws ws₂
debit-credit-IsMoved from to currency c z ws e valid whole differ positive covered =
    let stable = validate_currency_stable currency c e in
    let exact₁ = new_balance_exact from c (neg z) ws stable valid (IsCents-neg z whole) in
    let (w, ws₁, debited, debit, valid₁) =
      adjust_balance_covered from currency c (neg z) ws e valid
        (rw exact₁ (+ℤ_neg_nonneg _ z covered)) in
    let exact₂ = new_balance_exact to c z ws₁ stable valid₁ whole in
    let sound = read_wallet-IsSound to c ws₁ stable valid₁ in
    let (v, ws₂, credited, credit, valid₂) =
      adjust_balance_covered to currency c z ws₁ e valid₁
        (rw exact₂ (+ℤ_nonneg _ z sound.covered (omega arith))) in
    (
      w,
      ws₁,
      v,
      ws₂,
      debited,
      credited,
      IsMoved-of_adjusted from to c z ws ws₁ ws₂ differ debit credit exact₁ exact₂ valid₂,
    )
