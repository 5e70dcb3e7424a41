-- ===== src/Allowlist.antt =====
-- src/common/guards/ip-allowlist.guard.ts. What JavaScript's `Number` reads in a text, where that is an
-- integer from 0 up, is a parameter. `&` gives 32 bits as a signed number; two such numbers are equal
-- where their bits are, which `bits_and` gives as a natural number.
pub mod Octets
pub mod Prefix
use nexa_fx_js.Base.{
  ℕ, zero, suc, ◌+◌, ◌-◌, ◌*◌, ◌/◌, ◌%◌, Bool, true, false, ◌||◌, not, Option, none, some, List, [],
  ◌∷◌, ◌==◌, leb, ltb, if◌then◌else◌, any, filter, map, or_else, Text, same_text, codes,
}
use nexa_fx_js.Base.Int.{ℤ, pos, ◌+ℤ◌}
use nexa_fx_js.Base.Action.{Result, ok, err, forbidden, ip_not_allowed}
use nexa_fx_js.Currencies.{trim}
use nexa_fx_js.Webhooks.Address.{two_32, to_uint_32, to_int_32}

-- The rest of a text after a prefix that it starts with.
abbrev pub after_prefix : Text → Text → Option Text
after_prefix [] s = some s
after_prefix (p ∷ ps) [] = none
after_prefix (p ∷ ps) (c ∷ cs) = if p == c then after_prefix ps cs else none

unfoldable pub normalize_ip : Option Text → Text
normalize_ip none = []
normalize_ip (some address) = or_else (after_prefix (codes "::ffff:") address) address

-- `split`: the part up to the first separator, and the parts after it.
abbrev pub split_at : ℕ → Text → Text × List Text
split_at sep [] = ([], [])
split_at sep (c ∷ cs) =
    let (part, parts) = split_at sep cs in
    if c == sep then ([], part ∷ parts) else (c ∷ part, parts)

abbrev pub pow_2 : ℕ → ℕ
pow_2 zero = 1
pow_2 (suc k) = 2 * pow_2 k

-- `n << k`
abbrev pub shift_left : ℕ → ℕ → ℤ
shift_left n k = to_int_32 (n * pow_2 k % two_32)

abbrev pub combine : (a b c d : ℕ) → ℕ
combine a b c d = to_uint_32 (shift_left a 24 +ℤ shift_left b 16 +ℤ shift_left c 8 +ℤ pos d)

-- The first `k` bits that two numbers have in common.
unfoldable pub bits_and : ℕ → ℕ → ℕ → ℕ
bits_and zero a b = 0
bits_and (suc k) a b = (a % 2) * (b % 2) + 2 * bits_and k (a / 2) (b / 2)

abbrev pub mask_of : ℕ → ℕ
mask_of length = if length == 0 then 0 else to_uint_32 (shift_left 4294967295 (32 - length))

-- The comparison of the two numbers under the mask.
unfoldable pub same_network : Option ℕ → Option ℕ → Option ℕ → Bool
same_network (some network) (some ip) (some length) =
    if ltb 32 length
    then false
    else (bits_and 32 network (mask_of length) == bits_and 32 ip (mask_of length))
same_network _ _ _ = false

module _ (number : Text → Option ℕ) where
  abbrev pub byte_of : Text → Option ℕ
  byte_of part = elim (number part) [ none ↦ none | some n ↦ if leb n 255 then some n else none ]

  abbrev pub combine_bytes : Option ℕ → Option ℕ → Option ℕ → Option ℕ → Option ℕ
  combine_bytes (some a) (some b) (some c) (some d) = some (combine a b c d)
  combine_bytes _ _ _ _ = none

  abbrev pub four_parts : Text × List Text → Option ℕ
  four_parts (a, b ∷ c ∷ d ∷ []) = combine_bytes (byte_of a) (byte_of b) (byte_of c) (byte_of d)
  four_parts _ = none

  unfoldable pub ipv4_to_number : Text → Option ℕ
  ipv4_to_number address = four_parts (split_at b'.' address)

  -- The parts of a `cidr` around its slash.
  abbrev pub parts_contain : Text → Text × List Text → Bool
  parts_contain ip (network, []) = same_text (normalize_ip (some ip)) (normalize_ip (some network))
  parts_contain ip (network, [] ∷ rest) =
      same_text (normalize_ip (some ip)) (normalize_ip (some network))
  parts_contain ip (network, (c ∷ cs) ∷ rest) =
      same_network (ipv4_to_number (normalize_ip (some network)))
        (ipv4_to_number (normalize_ip (some ip))) (number (c ∷ cs))

  unfoldable pub cidr_contains_ip : Text → Text → Bool
  cidr_contains_ip ip cidr = parts_contain ip (split_at b'/' cidr)

  abbrev pub is_empty : Text → Bool
  is_empty [] = true
  is_empty (c ∷ cs) = false

  abbrev pub allowed_ips : Option (List Text) → List Text
  allowed_ips none = []
  allowed_ips (some ips) = filter (λ ip. not (is_empty ip)) (map trim ips)

  abbrev pub check_ip : List Text → Text → Result Bool
  check_ip [] ip = ok true
  check_ip (allowed ∷ more) ip =
      if is_empty ip || not (any (λ a. cidr_contains_ip ip a) (allowed ∷ more))
      then err (forbidden ip_not_allowed)
      else ok true

  unfoldable pub can_activate : Option (List Text) → Option Text → Result Bool
  can_activate setting address = check_ip (allowed_ips setting) (normalize_ip address)
