-- ===== src/FeeEngine/Rounding.antt =====
-- The fees of src/modules/fee and src/fee-tiers in whole units.
use nexa_fx_js.Base.{ℕ, ◌+◌, ◌*◌, ◌≤◌, ◌<◌, arith}
use nexa_fx_js.FeeEngine.{round_fee}

-- A rounded fee is off by half a unit at most, and never by that much downwards.
pub round_fee_bounds :
    (parts : ℕ)
    → (2 * parts < 2000000 * round_fee parts + 1000000)
      × (2000000 * round_fee parts ≤ 2 * parts + 1000000)
round_fee_bounds parts = (omega arith, omega arith)
