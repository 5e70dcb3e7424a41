-- ===== src/Fees/Bounds.antt =====
-- The fee of src/fees/fees.service.ts as a share of the amount, and its preview.
use nexa_fx_js.Base.{ℕ, ◌+◌, ◌*◌, ◌≤◌, ◌≡◌, arith}
use nexa_fx_js.Base.Int.{ℤ, pos, ◌+ℤ◌, ◌≤ℤ◌, int_laws, pos_part}
use nexa_fx_js.Fees.{calculate_fee, preview_fee, FeeKind, withdrawal, other_kind}

-- For an amount that is not negative, the fee is not negative, at most the amount, and within half
-- a unit of a thousandth of it.
pub calculate_fee_bounds :
    (n : ℕ)
    → (pos 0 ≤ℤ calculate_fee (pos n))
      × (calculate_fee (pos n) ≤ℤ pos n)
      × (1000 * pos_part (calculate_fee (pos n)) ≤ n + 500)
      × (n ≤ 1000 * pos_part (calculate_fee (pos n)) + 500)
unfolding calculate_fee
calculate_fee_bounds n = (omega arith, omega arith, omega arith, omega arith)

-- A larger amount never pays a smaller fee, whatever the kind.
pub preview_fee_mono :
    (k : FeeKind) (m n : ℕ)
    → m ≤ n
    → (preview_fee k (pos m)).fee_amount ≤ℤ (preview_fee k (pos n)).fee_amount
unfolding preview_fee
preview_fee_mono withdrawal m n h = omega arith
preview_fee_mono other_kind m n h = omega arith

-- In a preview the fee and the net amount add up to the amount.
pub preview_fee_adds_up :
    (k : FeeKind) (amount : ℤ)
    → (preview_fee k amount).fee_amount +ℤ (preview_fee k amount).net_amount ≡ amount
unfolding preview_fee
preview_fee_adds_up k amount = omega int_laws
