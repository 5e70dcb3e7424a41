-- ===== src/Wallets/Refund.antt =====
-- Debiting an amount and crediting it back: what is left of the rounding.
use nexa_fx_js.Base.{ℕ, ◌+◌, ◌%◌, ◌≡◌, ap, ◌∙◌, arith, Text, if◌then◌else◌, ◌==◌}
use nexa_fx_js.Base.Int.{ℤ, pos, negsuc, neg, pos_part, neg_part, ◌+ℤ◌, ◌≤ℤ◌, +ℤ_neg_nonneg}
use nexa_fx_js.Base.Action.{ok}
use nexa_fx_js.Currencies.{validate_currency}
use nexa_fx_js.Currencies.Normal.{validate_currency_stable}
use nexa_fx_js.Wallets.{Wallet, Wallets, adjust_balance, read_wallet, to_fixed_2}
use nexa_fx_js.Wallets.Money.{IsCents}
use nexa_fx_js.Wallets.Balance.{balance_at, new_balance}
use nexa_fx_js.Wallets.Invariant.{IsValid, read_wallet-IsSound}
use nexa_fx_js.Wallets.Move.{adjust_balance_covered}

-- A balance after a debit of `t` was taken back: a cent more where `t` ends in half a cent.
abbrev pub refunded : ℤ → ℤ → ℤ
refunded b t = if (pos_part t + neg_part t) % 1_000_000 == 500_000 then b +ℤ pos 1_000_000 else b

pub to_fixed_2_nonneg : (z : ℤ) → pos 0 ≤ℤ z → pos 0 ≤ℤ to_fixed_2 z
unfolding to_fixed_2
to_fixed_2_nonneg (pos n) h = omega arith
to_fixed_2_nonneg (negsuc n) h = absurd (omega arith)

pub round_trip :
    (b t : ℤ)
    → IsCents b
    → pos 0 ≤ℤ b
    → t ≤ℤ b
    → to_fixed_2 (to_fixed_2 (b +ℤ neg t) +ℤ t) ≡ refunded b t
unfolding to_fixed_2 ◌+ℤ◌
round_trip (negsuc m) t h p le = absurd (omega arith)
round_trip (pos m) (pos n) h p le = ground arith
round_trip (pos m) (negsuc n) h p le = ground arith

pub refunded_nonneg : (b t : ℤ) → pos 0 ≤ℤ b → pos 0 ≤ℤ refunded b t
unfolding ◌+ℤ◌
refunded_nonneg (pos m) t h = ground arith
refunded_nonneg (negsuc m) t h = absurd (omega arith)

-- A covered debit and the credit that takes it back: both go through, no other wallet changes, and
-- the balance is what it was, or a cent more where the amount ends in half a cent.
pub debit-refund :
    (account : ℕ) (currency c : Text) (t : ℤ) (ws : Wallets)
    → validate_currency currency ≡ ok c
    → IsValid ws
    → t ≤ℤ balance_at account c ws
    → (w : Wallet) × (ws₁ : Wallets) × (v : Wallet) × (ws₂ : Wallets) × (adjust_balance account
          currency
          (neg t)
          ws
        ≡ (ok w, ws₁))
      × (adjust_balance account currency t ws₁ ≡ (ok v, ws₂))
      × (balance_at account c ws₂ ≡ refunded (balance_at account c ws) t)
      × ((a : ℕ) (d : Text)
          → ¬ ((a ≡ account) × (d ≡ c))
          → read_wallet a d ws₂ ≡ read_wallet a d ws)
      × IsValid ws₂
debit-refund account currency c t ws e valid covered =
    let stable = validate_currency_stable currency c e in
    let sound = read_wallet-IsSound account c ws stable valid in
    let trip = round_trip (balance_at account c ws) t sound.whole sound.covered covered in
    let (w, ws₁, debited, debit, valid₁) =
      adjust_balance_covered account currency c (neg t) ws e valid
        (to_fixed_2_nonneg _ (+ℤ_neg_nonneg _ t covered)) in
    let after : new_balance account c t ws₁ ≡ refunded (balance_at account c ws) t =
      ap (λ b. to_fixed_2 (b +ℤ t)) debit.moved ∙ trip in
    let (v, ws₂, credited, credit, valid₂) =
      adjust_balance_covered account currency c t ws₁ e valid₁
        (rw after (refunded_nonneg _ t sound.covered)) in
    (
      w,
      ws₁,
      v,
      ws₂,
      debited,
      credited,
      credit.moved ∙ after,
      (λ a d differ. credit.others a d differ ∙ debit.others a d differ),
      valid₂,
    )
