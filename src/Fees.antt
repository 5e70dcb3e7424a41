-- ===== src/Fees.antt =====
-- src/fees/fees.service.ts: the flat fee of 0.1%, and the preview.
-- `toFixed(8)` of a product is the nearest unit of 10^-8, half a unit away from zero; the product of
-- doubles is taken to be exact.
pub mod Bounds
use nexa_fx_js.Base.{ℕ, suc, ◌+◌, ◌*◌, ◌/◌, Bool, true, false, Option, none, some}
use nexa_fx_js.Base.Int.{ℤ, pos, negsuc, neg, ◌-ℤ◌}

-- `Number((amount * k / 1000).toFixed(8))`
unfoldable pub per_mille : ℕ → ℤ → ℤ
per_mille k (pos n) = pos ((n * k + 500) / 1000)
per_mille k (negsuc n) = neg (pos ((suc n * k + 500) / 1000))

unfoldable pub calculate_fee : ℤ → ℤ
unfolding per_mille
calculate_fee amount = per_mille 1 amount

-- `transactionType === 'withdrawal'`
pub data FeeKind : Type 0 where
  withdrawal other_kind : FeeKind

pub record FeePreview : Type 0 where
  pub fee_amount : ℤ
  pub net_amount : ℤ
  -- `feeRate`, in thousandths
  pub rate : ℕ

abbrev fee_rate : FeeKind → ℕ
fee_rate withdrawal = 5
fee_rate other_kind = 1

unfoldable pub preview_fee : FeeKind → ℤ → FeePreview
unfolding per_mille
preview_fee kind amount =
    let fee = per_mille (fee_rate kind) amount in
    record { fee_amount = fee; net_amount = amount -ℤ fee; rate = fee_rate kind }
