-- ===== src/Wallets/MoveBack.antt =====
-- A credit followed by a debit of the same amount, as a reversal does them.
use nexa_fx_js.Base.{ℕ, ◌≡◌, sym, ap, ◌∙◌, ◌≢◌, inl, inr, arith, Text, same_text-cases}
use nexa_fx_js.Base.Int.{
  ℤ, pos, neg, ◌+ℤ◌, ◌-ℤ◌, ◌≤ℤ◌, ◌<ℤ◌, +ℤ_neg, +ℤ_neg_nonneg, +ℤ_nonneg, transfer_cancels_back,
}
use nexa_fx_js.Base.Action.{ok}
use nexa_fx_js.Currencies.{validate_currency}
use nexa_fx_js.Currencies.Normal.{validate_currency_stable}
use nexa_fx_js.Wallets.{Wallet, Wallets, adjust_balance}
use nexa_fx_js.Wallets.Money.{IsCents}
use nexa_fx_js.Wallets.Balance.{balance_at, new_balance}
use nexa_fx_js.Wallets.Total.{total}
use nexa_fx_js.Wallets.Invariant.{IsValid, IsAdjusted, read_wallet-IsSound}
use nexa_fx_js.Wallets.Move.{IsMoved, IsCents-neg, adjust_balance_covered, new_balance_exact}

module _ (from to : ℕ) (c : Text) (z : ℤ) (ws ws₁ ws₂ : Wallets) (differ : from ≢ to)
    (credit : IsAdjusted to c z ws ws₁) (debit : IsAdjusted from c (neg z) ws₁ ws₂)
    (exact₁ : new_balance to c z ws ≡ balance_at to c ws +ℤ z)
    (exact₂ : new_balance from c (neg z) ws₁ ≡ balance_at from c ws₁ +ℤ neg z) where
  from-kept : balance_at from c ws₁ ≡ balance_at from c ws
  from-kept = ap (λ (w : Wallet). w.balance) (credit.others from c (λ h. differ h.0))

  to-kept : balance_at to c ws₂ ≡ balance_at to c ws₁
  to-kept = ap (λ (w : Wallet). w.balance) (debit.others to c (λ h. differ (sym h.0)))

  taken : balance_at from c ws₂ ≡ balance_at from c ws₁ -ℤ z
  taken = debit.moved ∙ exact₂ ∙ +ℤ_neg (balance_at from c ws₁) z

  given : balance_at to c ws₁ ≡ balance_at to c ws +ℤ z
  given = credit.moved ∙ exact₁

  total-kept : (d : Text) → total d ws₂ ≡ total d ws
  total-kept d = elim (same_text-cases c d) [
    | inl same ↦ rw (← same) (
        transfer_cancels_back (total c ws₂) (total c ws₁) (total c ws) (balance_at from c ws₁)
          (balance_at to c ws) z (credit.sum ∙ ap (λ b. total c ws +ℤ b) given)
          (debit.sum ∙ ap (λ b. total c ws₁ +ℤ b) taken))
    | inr other ↦ debit.other_sums d other ∙ credit.other_sums d other
  ]

  IsMoved-of_credited : IsValid ws₂ → IsMoved from to c z ws ws₂
  IsMoved-of_credited valid = record {
    debited = taken ∙ ap (λ b. b -ℤ z) from-kept;
    credited = to-kept ∙ given;
    others = λ a d p q. debit.others a d p ∙ credit.others a d q;
    totals = total-kept;
    valid = valid;
  }

-- The same move with the credit first.
pub credit-debit-IsMoved :
    (from to : ℕ) (currency c : Text) (z : ℤ) (ws : Wallets)
    → validate_currency currency ≡ ok c
    → IsValid ws
    → IsCents z
    → from ≢ to
    → pos 0 <ℤ z
    → z ≤ℤ balance_at from c ws
    → (w : Wallet) × (ws₁ : Wallets) × (v : Wallet) × (ws₂ : Wallets) × (adjust_balance to currency
          z ws
        ≡ (ok w, ws₁))
      × (adjust_balance from currency (neg z) ws₁ ≡ (ok v, ws₂))
      × IsMoved from to c z ws ws₂
credit-debit-IsMoved from to currency c z ws e valid whole differ positive covered =
    let stable = validate_currency_stable currency c e in
    let sound = read_wallet-IsSound to c ws stable valid in
    let exact₁ = new_balance_exact to c z ws stable valid whole in
    let (w, ws₁, credited, credit, valid₁) =
      adjust_balance_covered to currency c z ws e valid
        (rw exact₁ (+ℤ_nonneg _ z sound.covered (omega arith))) in
    let exact₂ = new_balance_exact from c (neg z) ws₁ stable valid₁ (IsCents-neg z whole) in
    let same : balance_at from c ws₁ ≡ balance_at from c ws =
      ap (λ (u : Wallet). u.balance) (credit.others from c (λ h. differ h.0)) in
    let (v, ws₂, debited, debit, valid₂) =
      adjust_balance_covered from currency c (neg z) ws₁ e valid₁
        (rw (exact₂, same) (+ℤ_neg_nonneg _ z covered)) in
    (
      w,
      ws₁,
      v,
      ws₂,
      credited,
      debited,
      IsMoved-of_credited from to c z ws ws₁ ws₂ differ credit debit exact₁ exact₂ valid₂,
    )
