-- ===== src/Allowlist/Octets.antt =====
-- The number that src/common/guards/ip-allowlist.guard.ts makes of four octets.
use nexa_fx_js.Base.{
  ℕ, ◌+◌, ◌-◌, ◌*◌, ◌%◌, ◌≤◌, ◌<◌, ◌≡◌, refl, ◌∙◌, inl, inr, Bool-cases, true, false, ltb, arith,
}
use nexa_fx_js.Base.Int.{pos, negsuc}
use nexa_fx_js.Webhooks.Address.{to_int_32}
use nexa_fx_js.Webhooks.Address.Ranges.{pos_+ℤ, negsuc_+ℤ, uint_pos, uint_negsuc}
use nexa_fx_js.Allowlist.{shift_left, combine}

shift_small : (n p : ℕ) → n * p < 2147483648 → to_int_32 (n * p % 4294967296) ≡ pos (n * p)
shift_small n p h =
    let m : n * p % 4294967296 ≡ n * p = omega arith in
    let small : ltb (n * p) 2147483648 ≡ true = ground arith in rw (m, small) refl

first_large : (a : ℕ) → 128 ≤ a → a < 256 → shift_left a 24 ≡ negsuc (4294967295 - a * 16777216)
first_large a h k =
    let m : a * 16777216 % 4294967296 ≡ a * 16777216 = omega arith in
    let large : ltb (a * 16777216) 2147483648 ≡ false = ground arith in rw (m, large) refl

-- An octet before the last shift is small enough; the first may go through a negative number, which
-- `>>> 0` takes back.
pub combine_lem :
    (a b c d : ℕ)
    → a < 256
    → b < 256
    → c < 256
    → d < 256
    → combine a b c d ≡ a * 16777216 + b * 65536 + c * 256 + d
combine_lem a b c d ha hb hc hd =
    let sb : shift_left b 16 ≡ pos (b * 65536) = shift_small b 65536 (omega arith) in
    let sc : shift_left c 8 ≡ pos (c * 256) = shift_small c 256 (omega arith) in
    elim (Bool-cases (ltb a 128)) [
      | inl small ↦
          let e : a < 128 = ground arith in
          let sa : shift_left a 24 ≡ pos (a * 16777216) = shift_small a 16777216 (omega arith) in
          rw (sa, sb, sc, pos_+ℤ, pos_+ℤ, pos_+ℤ)
            (uint_pos (a * 16777216 + b * 65536 + c * 256 + d) (omega arith))
      | inr large ↦
          let e : 128 ≤ a = ground arith in
          let m = 4294967295 - a * 16777216 in
          let l1 : b * 65536 ≤ m = omega arith in
          let l2 : c * 256 ≤ m - b * 65536 = omega arith in
          let l3 : d ≤ m - b * 65536 - c * 256 = omega arith in
          rw
            (
              first_large a e ha,
              sb,
              sc,
              negsuc_+ℤ m (b * 65536) l1,
              negsuc_+ℤ (m - b * 65536) (c * 256) l2,
              negsuc_+ℤ (m - b * 65536 - c * 256) d l3,
            )
            (uint_negsuc (m - b * 65536 - c * 256 - d) (omega arith) ∙ omega arith)
    ]
