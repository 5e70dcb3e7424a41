-- ===== src/Webhooks/Address.antt =====
-- `ip2int` and `isPrivateIp` of src/webhooks/webhooks.service.ts. The bit operators of JavaScript work
-- on 32 bits: `<<` gives a signed number, `>>> 0` the unsigned one.
pub mod Ranges
use nexa_fx_js.Base.{
  ℕ, suc, ◌+◌, ◌-◌, ◌*◌, ◌%◌, Bool, true, false, not, ◌&&◌, ◌||◌, List, [], ◌∷◌, ◌==◌, leb, ltb,
  if◌then◌else◌, any, Text, codes,
}
use nexa_fx_js.Base.Int.{ℤ, pos, negsuc, ◌+ℤ◌}

abbrev pub two_32 : ℕ
two_32 = 4294967296

unfoldable pub to_uint_32 : ℤ → ℕ
to_uint_32 (pos n) = n % two_32
to_uint_32 (negsuc n) = two_32 - 1 - n % two_32

abbrev pub to_int_32 : ℕ → ℤ
to_int_32 n = if ltb n 2147483648 then pos n else negsuc (two_32 - 1 - n)

-- `acc << 8`
unfoldable pub shift_left_8 : ℤ → ℤ
unfolding to_uint_32
shift_left_8 acc = to_int_32 (to_uint_32 acc * 256 % two_32)

abbrev pub fold_octets : ℤ → List ℕ → ℤ
fold_octets acc [] = acc
fold_octets acc (octet ∷ octets) = fold_octets (shift_left_8 acc +ℤ pos octet) octets

-- On the numbers of the octets.
unfoldable pub octets_to_int : List ℕ → ℕ
octets_to_int octets = to_uint_32 (fold_octets (pos 0) octets)

-- `parseInt(octet, 10)` of a text that starts with a digit: the digits up to the first other
-- character.
abbrev pub is_digit : ℕ → Bool
is_digit c = leb b'0' c && leb c b'9'

abbrev pub parse_digits : ℕ → Text → ℕ
parse_digits acc [] = acc
parse_digits acc (c ∷ cs) =
    let rest = parse_digits (acc * 10 + (c - b'0')) cs in if is_digit c then rest else acc

-- `ip.split('.')`, with each part read as a number.
abbrev pub split_octets : Text → Text → List ℕ
split_octets part [] = parse_digits 0 part ∷ []
split_octets part (c ∷ cs) =
    let next = split_octets [] cs in
    let more = split_octets (snoc part c) cs in
    if c == b'.' then parse_digits 0 part ∷ next else more
  where
    snoc : Text → ℕ → Text
    snoc [] x = x ∷ []
    snoc (y ∷ ys) x = y ∷ snoc ys x

unfoldable pub ip_to_int : Text → ℕ
ip_to_int ip = octets_to_int (split_octets [] ip)

pub record Range : Type 0 where
  pub start : ℕ
  pub last : ℕ

abbrev range_of : List ℕ → List ℕ → Range
range_of first last = record { start = octets_to_int first; last = octets_to_int last }

abbrev octets : ℕ → ℕ → ℕ → ℕ → List ℕ
octets a b c d = a ∷ b ∷ c ∷ d ∷ []

abbrev pub private_cidr_ranges : List Range
private_cidr_ranges =
    range_of (octets 10 0 0 0) (octets 10 255 255 255)
    ∷ range_of (octets 172 16 0 0) (octets 172 31 255 255)
    ∷ range_of (octets 192 168 0 0) (octets 192 168 255 255)
    ∷ range_of (octets 127 0 0 0) (octets 127 255 255 255)
    ∷ range_of (octets 169 254 0 0) (octets 169 254 255 255)
    ∷ range_of (octets 100 64 0 0) (octets 100 127 255 255)
    ∷ []

unfoldable pub in_private_range : ℕ → Bool
in_private_range n = any (λ (r : Range). leb r.start n && leb n r.last) private_cidr_ranges

-- `net.isIPv4` is a parameter.
unfoldable pub is_private_ip : (is_ipv4 : Text → Bool) → Text → Bool
is_private_ip is_ipv4 ip = if is_ipv4 ip then in_private_range (ip_to_int ip) else true
