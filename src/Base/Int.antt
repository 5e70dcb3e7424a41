-- ===== src/Base/Int.antt =====
-- Signed integers over the native numbers, under the library's names.
use nexa_fx_js.Base.Tests.{ltb, leb, if◌then◌else◌}
use Prim.Native.Nat.{ℕ, suc, ◌+◌, ◌-◌, ◌≤◌, ◌<◌}
use mathlib.Core.Path.{◌≡◌, sym, ap, ◌∙◌}
use mathlib.Core.Bool.{Bool}
use native.Mathlib.Omega.{arith}

-- `negsuc n` is -(n + 1).
pub data ℤ : Type 0 where
  pos : ℕ → ℤ
  negsuc : ℕ → ℤ

abbrev pub pos_part : ℤ → ℕ
pos_part (pos n) = n
pos_part (negsuc n) = 0

abbrev pub neg_part : ℤ → ℕ
neg_part (pos n) = 0
neg_part (negsuc n) = suc n

abbrev pub sub_ℕ : ℕ → ℕ → ℤ
sub_ℕ a b = if leb b a then pos (a - b) else negsuc (b - a - 1)

infixl 65 ◌+ℤ◌ ◌-ℤ◌
infix 50 ◌≤ℤ◌ ◌<ℤ◌
unfoldable pub ◌+ℤ◌ : ℤ → ℤ → ℤ
a +ℤ b = sub_ℕ (pos_part a + pos_part b) (neg_part a + neg_part b)

unfoldable pub ◌-ℤ◌ : ℤ → ℤ → ℤ
a -ℤ b = sub_ℕ (pos_part a + neg_part b) (neg_part a + pos_part b)

abbrev pub neg : ℤ → ℤ
neg a = sub_ℕ (neg_part a) (pos_part a)

abbrev pub ◌≤ℤ◌ : ℤ → ℤ → Type 0
a ≤ℤ b = pos_part a + neg_part b ≤ pos_part b + neg_part a

abbrev pub ◌<ℤ◌ : ℤ → ℤ → Type 0
a <ℤ b = pos_part a + neg_part b < pos_part b + neg_part a

abbrev pub ltb_ℤ : ℤ → ℤ → Bool
ltb_ℤ a b = ltb (pos_part a + neg_part b) (pos_part b + neg_part a)

abbrev pub leb_ℤ : ℤ → ℤ → Bool
leb_ℤ a b = leb (pos_part a + neg_part b) (pos_part b + neg_part a)

-- One lemma for each operation lets `omega` work with the operations shut.
pub +ℤ_parts :
    (a b : ℤ)
    → pos_part (a +ℤ b) + neg_part a + neg_part b ≡ neg_part (a +ℤ b) + pos_part a + pos_part b
unfolding ◌+ℤ◌
+ℤ_parts a b = ground arith

pub -ℤ_parts :
    (a b : ℤ)
    → pos_part (a -ℤ b) + neg_part a + pos_part b ≡ neg_part (a -ℤ b) + pos_part a + neg_part b
unfolding ◌-ℤ◌
-ℤ_parts a b = ground arith

pub eq_of_parts : (a b : ℤ) → pos_part a + neg_part b ≡ pos_part b + neg_part a → a ≡ b
eq_of_parts a b h = ground arith

pub ruleset int_laws = (arith, +ℤ_parts, -ℤ_parts, eq_of_parts)

pub +ℤ_assoc : (a b c : ℤ) → a +ℤ b +ℤ c ≡ a +ℤ (b +ℤ c)
+ℤ_assoc a b c = omega int_laws

pub +ℤ_shift : (v a b c d : ℤ) → a +ℤ b ≡ c +ℤ d → v +ℤ a +ℤ b ≡ v +ℤ c +ℤ d
+ℤ_shift v a b c d h = +ℤ_assoc v a b ∙ ap (λ z. v +ℤ z) h ∙ sym (+ℤ_assoc v c d)

-- Both parts of an equation between sums, for `omega`.
pub sum_parts :
    (a b c d : ℤ)
    → a +ℤ b ≡ c +ℤ d
    → pos_part a + pos_part b + neg_part c + neg_part d
      ≡ pos_part c + pos_part d + neg_part a + neg_part b
unfolding ◌+ℤ◌
sum_parts a b c d h = ground arith

pub +ℤ_neg : (a z : ℤ) → a +ℤ neg z ≡ a -ℤ z
unfolding ◌+ℤ◌ ◌-ℤ◌
+ℤ_neg a z = ground arith

-- A debit and a credit of the same amount cancel in a sum.
pub transfer_cancels :
    (t₂ t₁ t₀ b d z : ℤ) → t₁ +ℤ b ≡ t₀ +ℤ (b -ℤ z) → t₂ +ℤ d ≡ t₁ +ℤ (d +ℤ z) → t₂ ≡ t₀
transfer_cancels t₂ t₁ t₀ b d z p q =
    omega (int_laws, sum_parts t₁ b t₀ (b -ℤ z) p, sum_parts t₂ d t₁ (d +ℤ z) q)

pub +ℤ_neg_nonneg : (b z : ℤ) → z ≤ℤ b → pos 0 ≤ℤ b +ℤ neg z
unfolding ◌+ℤ◌
+ℤ_neg_nonneg b z h = ground arith

pub +ℤ_neg_low : (b z : ℤ) → b <ℤ z → b +ℤ neg z <ℤ pos 0
unfolding ◌+ℤ◌
+ℤ_neg_low b z h = ground arith

-- The same with the credit first.
pub transfer_cancels_back :
    (t₂ t₁ t₀ b d z : ℤ) → t₁ +ℤ d ≡ t₀ +ℤ (d +ℤ z) → t₂ +ℤ b ≡ t₁ +ℤ (b -ℤ z) → t₂ ≡ t₀
transfer_cancels_back t₂ t₁ t₀ b d z p q =
    omega (int_laws, sum_parts t₁ d t₀ (d +ℤ z) p, sum_parts t₂ b t₁ (b -ℤ z) q)

pub +ℤ_nonneg : (a b : ℤ) → pos 0 ≤ℤ a → pos 0 ≤ℤ b → pos 0 ≤ℤ a +ℤ b
+ℤ_nonneg a b h k = omega int_laws
