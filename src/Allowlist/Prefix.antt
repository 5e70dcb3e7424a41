-- ===== src/Allowlist/Prefix.antt =====
-- The mask of src/common/guards/ip-allowlist.guard.ts against the leading bits of an address.
use nexa_fx_js.Base.{
  ℕ, zero, suc, ◌+◌, ◌-◌, ◌*◌, ◌/◌, ◌%◌, ◌≤◌, ◌<◌, ◌≡◌, ◌↔◌, refl, sym, ap, ◌∙◌, true, false,
  Option, some, List, [], ◌∷◌, ◌==◌, ==_iff, ltb, Text, arith, subst,
}
use nexa_fx_js.Base.Int.{ℤ, pos, negsuc}
use nexa_fx_js.Webhooks.Address.{to_uint_32, to_int_32}
use nexa_fx_js.Allowlist.{
  pow_2, shift_left, combine, bits_and, mask_of, byte_of, combine_bytes, four_parts, split_at,
  normalize_ip, ipv4_to_number, same_network, cidr_contains_ip,
}

-- A number without its last `j` bits.
abbrev pub without_last : ℕ → ℕ → ℕ
without_last zero n = n
without_last (suc j) n = without_last j (n / 2)

pow_2_pos : (k : ℕ) → 1 ≤ pow_2 k
pow_2_pos zero = omega arith
pow_2_pos (suc k) = omega (arith, pow_2_pos k)

-- `j + d`, by its first argument.
abbrev plus : ℕ → ℕ → ℕ
plus zero d = d
plus (suc j) d = suc (plus j d)

plus_lem : (j d : ℕ) → plus j d ≡ j + d
plus_lem zero d = omega arith
plus_lem (suc j) d = omega (arith, plus_lem j d)

pow_2_mono : (j d : ℕ) → pow_2 j ≤ pow_2 (plus j d)
pow_2_mono zero d = pow_2_pos d
pow_2_mono (suc j) d = omega (arith, pow_2_mono j d)

-- All bits set: the number itself.
bits_and_ones : (k n : ℕ) → n < pow_2 k → bits_and k n (pow_2 k - 1) ≡ n
unfolding bits_and
bits_and_ones zero n h = omega arith
bits_and_ones (suc k) n h =
    let one = pow_2_pos k in
    let odd : (pow_2 (suc k) - 1) % 2 ≡ 1 = omega arith in
    let half : (pow_2 (suc k) - 1) / 2 ≡ pow_2 k - 1 = omega arith in
    rw (odd, half, bits_and_ones k (n / 2) (omega arith)) (omega arith)

-- The last `j` of the bits clear: the number without them.
bits_and_mask :
    (j d n : ℕ)
    → n < pow_2 (plus j d)
    → bits_and (plus j d) n (pow_2 (plus j d) - pow_2 j) ≡ pow_2 j * without_last j n
unfolding bits_and
bits_and_mask zero d n h = bits_and_ones d n h ∙ omega arith
bits_and_mask (suc j) d n h =
    let small = pow_2_mono j d in
    let even : (pow_2 (plus (suc j) d) - pow_2 (suc j)) % 2 ≡ 0 = omega arith in
    let half : (pow_2 (plus (suc j) d) - pow_2 (suc j)) / 2 ≡ pow_2 (plus j d) - pow_2 j =
      omega arith in
    rw (even, half, bits_and_mask j d (n / 2) (omega arith)) (omega arith)

without_last_zero : (j n : ℕ) → n < pow_2 j → without_last j n ≡ 0
without_last_zero zero n h = omega arith
without_last_zero (suc j) n h = without_last_zero j (n / 2) (omega arith)

-- The signed shift of all bits, taken back to a natural number.
shifted_ones :
    (p : ℕ)
    → 1 ≤ p
    → p ≤ 2147483648
    → to_uint_32 (to_int_32 (4294967295 * p % 4294967296)) ≡ 4294967296 - p
unfolding to_uint_32
shifted_ones p h k =
    let value : 4294967295 * p % 4294967296 ≡ 4294967296 - p = omega arith in
    rw (value) (ground arith)

mask_lem : (j d : ℕ) → plus j d ≡ 32 → mask_of d ≡ pow_2 32 - pow_2 j
mask_lem j zero h =
    let all : j ≡ 32 = omega (arith, plus_lem j 0) in
    subst (λ x. 0 ≡ pow_2 32 - pow_2 x) (sym all) refl
mask_lem j (suc d) h =
    let shift : 32 - suc d ≡ j = omega (arith, plus_lem j (suc d)) in
    let most : plus j d ≡ 31 = omega (arith, plus_lem j (suc d), plus_lem j d) in
    let low : pow_2 j ≤ pow_2 31 = subst (λ x. pow_2 j ≤ pow_2 x) most (pow_2_mono j d) in
    let shown : to_uint_32 (to_int_32 (4294967295 * pow_2 j % 4294967296)) ≡ 4294967296 - pow_2 j =
      shifted_ones (pow_2 j) (pow_2_pos j) low in
    let some_bits : (suc d == 0) ≡ false = ground arith in
    rw (some_bits) (ap (λ x. to_uint_32 (shift_left 4294967295 x)) shift ∙ shown)

cancel : (j x y : ℕ) → pow_2 j * x ≡ pow_2 j * y → x ≡ y
cancel zero x y h = omega arith
cancel (suc j) x y h = cancel j x y (omega arith)

masked :
    (j d n : ℕ)
    → plus j d ≡ 32
    → n < 4294967296
    → bits_and 32 n (mask_of d) ≡ pow_2 j * without_last j n
masked j d n h low = rw (mask_lem j d h) (
    subst (λ w. bits_and w n (pow_2 w - pow_2 j) ≡ pow_2 j * without_last j n) h
      (bits_and_mask j d n (subst (λ w. n < pow_2 w) (sym h) low)))

same_network_iff :
    (network ip length : ℕ)
    → network < 4294967296
    → ip < 4294967296
    → length ≤ 32
    → (same_network (some network) (some ip) (some length) ≡ true)
      ↔ (without_last (32 - length) network ≡ without_last (32 - length) ip)
unfolding same_network
same_network_iff network ip length low low' h =
    let j = 32 - length in
    let whole : plus j length ≡ 32 = omega (arith, plus_lem j length) in
    let fits : ltb 32 length ≡ false = ground arith in
    rw (fits, masked j length network whole low, masked j length ip whole low')
      ((λ e. cancel j _ _ ((==_iff _ _).0 e)), (λ e. (==_iff _ _).1 (ap (λ x. pow_2 j * x) e)))

uint_below : (z : ℤ) → to_uint_32 z < 4294967296
unfolding to_uint_32
uint_below (pos n) = omega arith
uint_below (negsuc n) = omega arith

module _ (number : Text → Option ℕ) where
  bytes_below :
      (a b c d : Option ℕ) (n : ℕ) → combine_bytes number a b c d ≡ some n → n < 4294967296
  bytes_below (some a) (some b) (some c) (some d) n e =
      let same : combine a b c d ≡ n = ground arith in
      subst (λ x. x < 4294967296) same (uint_below _)
  bytes_below _ _ _ _ n e = cc

  parts_below : (p : Text × List Text) (n : ℕ) → four_parts number p ≡ some n → n < 4294967296
  parts_below (a, b ∷ c ∷ d ∷ []) n e =
      bytes_below (byte_of number a) (byte_of number b) (byte_of number c) (byte_of number d) n e
  parts_below _ n e = cc

  number_below : (address : Text) (n : ℕ) → ipv4_to_number number address ≡ some n → n < 4294967296
  unfolding ipv4_to_number
  number_below address n e = parts_below (split_at b'.' address) n e

  -- An entry `network/length` of the allow list, with a length up to 32, lets an IPv4 address through
  -- exactly when the two addresses agree once their last `32 - length` bits are taken off.
  pub cidr_contains_ip_iff :
      (ip cidr network : Text) (c : ℕ) (cs : Text) (rest : List Text) (i n length : ℕ)
      → split_at b'/' cidr ≡ (network, (c ∷ cs) ∷ rest)
      → ipv4_to_number number (normalize_ip (some network)) ≡ some n
      → ipv4_to_number number (normalize_ip (some ip)) ≡ some i
      → number (c ∷ cs) ≡ some length
      → length ≤ 32
      → (cidr_contains_ip number ip cidr ≡ true)
        ↔ (without_last (32 - length) n ≡ without_last (32 - length) i)
  unfolding cidr_contains_ip
  cidr_contains_ip_iff ip cidr network c cs rest i n length parts net own len fits =
      rw (parts, net, own, len)
        (same_network_iff n i length (number_below (normalize_ip (some network)) n net)
          (number_below (normalize_ip (some ip)) i own) fits)
