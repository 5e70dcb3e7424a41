-- ===== src/Examples/Balances.antt =====
-- Fees, limits and balances at concrete amounts.
use nexa_fx_js.Base.{codes, ℕ, ◌≡◌, refl, Text, arith, ◌≤◌}
use nexa_fx_js.Base.Int.{ℤ, pos, negsuc, neg, ◌+ℤ◌, ◌≤ℤ◌}
use nexa_fx_js.Base.Action.{Result, ok}
use nexa_fx_js.Currencies.{
  validate_currency, to_upper, normalize_currency_code, is_supported_currency,
}
use nexa_fx_js.Fees.{calculate_fee}
use nexa_fx_js.Limits.{to_usd, check}
use nexa_fx_js.Limits.Bounds.{CheckOutcome, IsWithin, check-CheckOutcome}
use nexa_fx_js.Wallets.{Wallet, Wallets, adjust_balance, is_of}
use nexa_fx_js.Wallets.Balance.{balance_at}
use nexa_fx_js.Wallets.Total.{total}
use nexa_fx_js.Wallets.Invariant.{Outcome}
use nexa_fx_js.Wallets.Adjust.{adjust_balance-Outcome}
use nexa_fx_js.Wallets.Drift.{half_cent_minted}
use nexa_fx_js.Examples.{
  usd, usd_supported, two_wallets, two_wallets-IsValid, limit_config, no_limits_used,
}

-- The fee of 100 dollars is 10 cents.
fee_example : calculate_fee (pos 10_000_000_000) ≡ pos 10_000_000
unfolding calculate_fee
fee_example = refl

abbrev convert : ℤ → Text → Result ℤ
convert amount currency = ok amount

priced : to_usd convert (pos 1_000_000_000) usd ≡ ok (pos 1_000_000_000)
unfolding to_upper
priced = refl

check-CheckOutcome_example :
    CheckOutcome limit_config 150 5 1
      (pos 1_000_000_000)
      no_limits_used
      (check limit_config convert 150 5 1 (pos 1_000_000_000) usd no_limits_used)
check-CheckOutcome_example =
    check-CheckOutcome limit_config convert 150 5 1 (pos 1_000_000_000) usd no_limits_used priced

unused-IsWithin : IsWithin limit_config no_limits_used
unused-IsWithin = record { days = λ u k. omega arith; months = λ u k. omega arith }

adjust_balance-Outcome_example :
    Outcome 1 usd
      (negsuc 999_999_999)
      two_wallets
      (adjust_balance 1 usd (negsuc 999_999_999) two_wallets)
adjust_balance-Outcome_example =
    adjust_balance-Outcome 1 usd usd (negsuc 999_999_999) two_wallets usd_supported
      two_wallets-IsValid

alice_covers : (n : ℕ) → n ≤ 10_000_000_000 → pos n ≤ℤ balance_at 1 usd two_wallets
unfolding is_of
alice_covers n h = omega arith

half_cent_minted_example :
    (w : Wallet) × (ws₁ : Wallets) × (v : Wallet) × (ws₂ : Wallets) × (adjust_balance 1 usd
        (neg (pos 1_500_000))
        two_wallets
      ≡ (ok w, ws₁))
    × (adjust_balance 2 usd (pos 1_500_000) ws₁ ≡ (ok v, ws₂))
    × (total usd ws₂ ≡ total usd two_wallets +ℤ pos 1_000_000)
half_cent_minted_example =
    half_cent_minted 1 2 usd usd 1_500_000 two_wallets usd_supported two_wallets-IsValid refl
      (alice_covers 1_500_000 (omega arith))

lower_supported : validate_currency (codes " usd") ≡ ok usd
unfolding validate_currency is_supported_currency normalize_currency_code
lower_supported = refl
