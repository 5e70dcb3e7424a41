-- ===== src/Webhooks/Address/Ranges.antt =====
-- The addresses that src/webhooks/webhooks.service.ts takes for private, by their octets.
use nexa_fx_js.Base.{
  ℕ, ◌+◌, ◌-◌, ◌*◌, ◌≤◌, ◌<◌, ◌≡◌, ◌↔◌, ◌⊎◌, List, ap, ◌∙◌, inl, inr, Bool-cases, true, [], ◌∷◌,
  ltb, arith,
}
use nexa_fx_js.Base.Int.{pos, negsuc, ◌+ℤ◌}
use nexa_fx_js.Webhooks.Address.{to_uint_32, shift_left_8, octets_to_int, in_private_range}

small_shift : (n : ℕ) → n < 8388608 → shift_left_8 (pos n) ≡ pos (n * 256)
unfolding shift_left_8
small_shift n h = ground arith

large_shift :
    (n : ℕ) → 8388608 ≤ n → n < 16777216 → shift_left_8 (pos n) ≡ negsuc (4294967295 - n * 256)
unfolding shift_left_8
large_shift n h k = ground arith

pub pos_+ℤ : (m n : ℕ) → pos m +ℤ pos n ≡ pos (m + n)
unfolding ◌+ℤ◌
pos_+ℤ m n = ground arith

pub negsuc_+ℤ : (m d : ℕ) → d ≤ m → negsuc m +ℤ pos d ≡ negsuc (m - d)
unfolding ◌+ℤ◌
negsuc_+ℤ m d h = ground arith

pub uint_pos : (n : ℕ) → n < 4294967296 → to_uint_32 (pos n) ≡ n
unfolding to_uint_32
uint_pos n h = omega arith

pub uint_negsuc : (n : ℕ) → n < 4294967296 → to_uint_32 (negsuc n) ≡ 4294967295 - n
unfolding to_uint_32
uint_negsuc n h = omega arith

-- The last shift may give a negative number, which `>>> 0` takes back.
last_octet :
    (n d : ℕ) → n < 16777216 → d < 256 → to_uint_32 (shift_left_8 (pos n) +ℤ pos d) ≡ n * 256 + d
last_octet n d h k = elim (Bool-cases (ltb n 8388608)) [
  | inl small ↦
      let e : n < 8388608 = ground arith in
      rw (small_shift n e, pos_+ℤ (n * 256) d) (uint_pos (n * 256 + d) (omega arith))
  | inr large ↦
      let e : 8388608 ≤ n = ground arith in
      let m = 4294967295 - n * 256 in
      let low : d ≤ m = omega arith in
      let out : 4294967295 - (m - d) ≡ n * 256 + d = omega arith in
      rw (large_shift n e h, negsuc_+ℤ m d low) (uint_negsuc (m - d) (omega arith) ∙ out)
]

next_octet : (n d : ℕ) → n < 8388608 → shift_left_8 (pos n) +ℤ pos d ≡ pos (n * 256 + d)
next_octet n d h = rw (small_shift n h) (pos_+ℤ (n * 256) d)

zero_octet : (d : ℕ) → shift_left_8 (pos 0) +ℤ pos d ≡ pos d
unfolding shift_left_8
zero_octet d = pos_+ℤ 0 d ∙ ap pos (omega arith)

-- The number of an address is its octets in base 256, though the signed shift passes through
-- negative numbers.
octets_to_int_lem :
    (a b c d : ℕ)
    → a < 256
    → b < 256
    → c < 256
    → d < 256
    → octets_to_int (a ∷ b ∷ c ∷ d ∷ []) ≡ a * 16777216 + b * 65536 + c * 256 + d
unfolding octets_to_int
octets_to_int_lem a b c d ha hb hc hd =
    let out : ((a * 256 + b) * 256 + c) * 256 + d ≡ a * 16777216 + b * 65536 + c * 256 + d =
      omega arith in
    rw (zero_octet a, next_octet a b (omega arith), next_octet (a * 256 + b) c (omega arith))
      (last_octet ((a * 256 + b) * 256 + c) d (omega arith) hd ∙ out)

-- The private addresses, by their first two octets.
abbrev pub IsPrivate : ℕ → ℕ → Type 0
IsPrivate a b =
    (a ≡ 10)
    ⊎ (a ≡ 127)
    ⊎ ((a ≡ 172) × (16 ≤ b) × (b ≤ 31))
    ⊎ ((a ≡ 192) × (b ≡ 168))
    ⊎ ((a ≡ 169) × (b ≡ 254))
    ⊎ ((a ≡ 100) × (64 ≤ b) × (b ≤ 127))

-- Four octets in a private range.
abbrev pub IsPrivateQuad : List ℕ → Type 0
IsPrivateQuad (a ∷ b ∷ c ∷ d ∷ []) = (a < 256) × (b < 256) × (c < 256) × (d < 256) × IsPrivate a b
IsPrivateQuad _ = ⊥

ranges_iff :
    (a b c d : ℕ)
    → a < 256
    → b < 256
    → c < 256
    → d < 256
    → (in_private_range (a * 16777216 + b * 65536 + c * 256 + d) ≡ true) ↔ IsPrivate a b
unfolding in_private_range octets_to_int to_uint_32 shift_left_8 ◌+ℤ◌
ranges_iff a b c d ha hb hc hd = (λ h. ground arith, λ h. ground arith)

-- Four octets make a private address exactly when they are in 10.0.0.0/8, 127.0.0.0/8,
-- 172.16.0.0/12, 192.168.0.0/16, 169.254.0.0/16 or 100.64.0.0/10, although the shifts of the code
-- give negative numbers from 128.0.0.0 on.
pub in_private_range_iff :
    (a b c d : ℕ)
    → a < 256
    → b < 256
    → c < 256
    → d < 256
    → (in_private_range (octets_to_int (a ∷ b ∷ c ∷ d ∷ [])) ≡ true) ↔ IsPrivate a b
in_private_range_iff a b c d ha hb hc hd =
    rw (octets_to_int_lem a b c d ha hb hc hd) (ranges_iff a b c d ha hb hc hd)

pub in_range_of_IsPrivateQuad :
    (os : List ℕ) → IsPrivateQuad os → in_private_range (octets_to_int os) ≡ true
in_range_of_IsPrivateQuad (a ∷ b ∷ c ∷ d ∷ []) (ha, hb, hc, hd, h) =
    (in_private_range_iff a b c d ha hb hc hd).1 h
in_range_of_IsPrivateQuad [] h = absurd h
in_range_of_IsPrivateQuad (a ∷ []) h = absurd h
in_range_of_IsPrivateQuad (a ∷ b ∷ []) h = absurd h
in_range_of_IsPrivateQuad (a ∷ b ∷ c ∷ []) h = absurd h
in_range_of_IsPrivateQuad (a ∷ b ∷ c ∷ d ∷ e ∷ os) h = absurd h
