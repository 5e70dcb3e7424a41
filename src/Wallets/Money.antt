-- ===== src/Wallets/Money.antt =====
-- Rounding to cents, the `toFixed(2)` of wallets.service.ts.
use nexa_fx_js.Base.{ℕ, ◌%◌, ◌≡◌, arith}
use nexa_fx_js.Base.Int.{ℤ, pos, negsuc, pos_part, neg_part, ◌+ℤ◌, ◌≤ℤ◌}
use nexa_fx_js.Wallets.{to_fixed_2}

abbrev pub cent : ℕ
cent = 1_000_000

-- A whole number of cents.
pub record IsCents (z : ℤ) : Type 0 where
  pub credit : pos_part z % 1_000_000 ≡ 0
  pub debit : neg_part z % 1_000_000 ≡ 0

pub to_fixed_2-IsCents : (z : ℤ) → IsCents (to_fixed_2 z)
unfolding to_fixed_2
to_fixed_2-IsCents (pos n) = ground arith
to_fixed_2-IsCents (negsuc n) = ground arith

pub to_fixed_2_near :
    (z : ℤ) → (to_fixed_2 z ≤ℤ z +ℤ pos 500_000) × (z ≤ℤ to_fixed_2 z +ℤ pos 500_000)
unfolding to_fixed_2 ◌+ℤ◌
to_fixed_2_near (pos n) = ground arith
to_fixed_2_near (negsuc n) = ground arith

pub to_fixed_2_exact : (z : ℤ) → IsCents z → to_fixed_2 z ≡ z
unfolding to_fixed_2
to_fixed_2_exact (pos n) h = ground arith
to_fixed_2_exact (negsuc n) h = ground arith

pub IsCents-+ℤ : (a b : ℤ) → IsCents a → IsCents b → IsCents (a +ℤ b)
unfolding ◌+ℤ◌
IsCents-+ℤ a b h k = ground arith
