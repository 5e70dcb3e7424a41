-- ===== src/Wallets/Drift.antt =====
-- A debit and a credit by `adjustBalance` of an amount that ends in half a cent.
use nexa_fx_js.Base.{ℕ, ◌+◌, ◌-◌, ◌%◌, ◌≡◌, ap, ◌∙◌, arith, Text}
use nexa_fx_js.Base.Int.{
  ℤ, pos, negsuc, neg, ◌+ℤ◌, ◌-ℤ◌, ◌≤ℤ◌, int_laws, sum_parts, +ℤ_neg, +ℤ_neg_nonneg, +ℤ_nonneg,
}
use nexa_fx_js.Base.Action.{ok}
use nexa_fx_js.Currencies.{validate_currency}
use nexa_fx_js.Currencies.Normal.{validate_currency_stable}
use nexa_fx_js.Wallets.{Wallet, Wallets, adjust_balance, to_fixed_2}
use nexa_fx_js.Wallets.Money.{IsCents}
use nexa_fx_js.Wallets.Balance.{balance_at}
use nexa_fx_js.Wallets.Total.{total}
use nexa_fx_js.Wallets.Invariant.{IsValid, read_wallet-IsSound}
use nexa_fx_js.Wallets.Move.{adjust_balance_covered}

debit_rounds :
    (b : ℤ) (n : ℕ)
    → IsCents b
    → n % 1_000_000 ≡ 500_000
    → pos n ≤ℤ b
    → to_fixed_2 (b +ℤ neg (pos n)) ≡ b +ℤ neg (pos (n - 500_000))
unfolding to_fixed_2 ◌+ℤ◌
debit_rounds (pos m) n h k le = ground arith
debit_rounds (negsuc m) n h k le = absurd (omega arith)

credit_rounds :
    (b : ℤ) (n : ℕ)
    → IsCents b
    → n % 1_000_000 ≡ 500_000
    → pos 0 ≤ℤ b
    → to_fixed_2 (b +ℤ pos n) ≡ b +ℤ pos (n + 500_000)
unfolding to_fixed_2 ◌+ℤ◌
credit_rounds (pos m) n h k le = ground arith
credit_rounds (negsuc m) n h k le = absurd (omega arith)

shifted :
    (t₂ t₁ t₀ b d x y : ℤ)
    → t₁ +ℤ b ≡ t₀ +ℤ (b +ℤ neg x)
    → t₂ +ℤ d ≡ t₁ +ℤ (d +ℤ y)
    → t₂ ≡ t₀ +ℤ (y -ℤ x)
shifted t₂ t₁ t₀ b d x y p q =
    omega (int_laws, sum_parts t₁ b t₀ (b -ℤ x) (rw +ℤ_neg at p), sum_parts t₂ d t₁ (d +ℤ y) q)

cent_more :
    (n : ℕ) → n % 1_000_000 ≡ 500_000 → pos (n + 500_000) -ℤ pos (n - 500_000) ≡ pos 1_000_000
unfolding ◌-ℤ◌
cent_more n h = ground arith

-- Moving a covered amount that is an odd number of half cents: both calls go through, and the total
-- of the currency grows by one cent.
pub half_cent_minted :
    (from to : ℕ) (currency c : Text) (n : ℕ) (ws : Wallets)
    → validate_currency currency ≡ ok c
    → IsValid ws
    → n % 1_000_000 ≡ 500_000
    → pos n ≤ℤ balance_at from c ws
    → (w : Wallet) × (ws₁ : Wallets) × (v : Wallet) × (ws₂ : Wallets) × (adjust_balance from
          currency
          (neg (pos n))
          ws
        ≡ (ok w, ws₁))
      × (adjust_balance to currency (pos n) ws₁ ≡ (ok v, ws₂))
      × (total c ws₂ ≡ total c ws +ℤ pos 1_000_000)
half_cent_minted from to currency c n ws e valid half covered =
    let stable = validate_currency_stable currency c e in
    let payer = read_wallet-IsSound from c ws stable valid in
    let down = debit_rounds _ n payer.whole half covered in
    let (w, ws₁, debited, debit, valid₁) =
      adjust_balance_covered from currency c (neg (pos n)) ws e valid
        (rw down (+ℤ_neg_nonneg _ (pos (n - 500_000)) (omega arith))) in
    let payee = read_wallet-IsSound to c ws₁ stable valid₁ in
    let up = credit_rounds _ n payee.whole half payee.covered in
    let (v, ws₂, credited, credit, valid₂) =
      adjust_balance_covered to currency c (pos n) ws₁ e valid₁
        (rw up (+ℤ_nonneg _ (pos (n + 500_000)) payee.covered (omega arith))) in
    (
      w,
      ws₁,
      v,
      ws₂,
      debited,
      credited,
      shifted (total c ws₂) (total c ws₁) (total c ws) (balance_at from c ws) (balance_at to c ws₁)
            (pos (n - 500_000)) (pos (n + 500_000))
            (debit.sum ∙ ap (λ b. total c ws +ℤ b) (debit.moved ∙ down))
            (credit.sum ∙ ap (λ b. total c ws₁ +ℤ b) (credit.moved ∙ up))
          ∙ ap (λ d. total c ws +ℤ d) (cent_more n half),
    )
