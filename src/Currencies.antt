-- ===== src/Currencies.antt =====
-- src/currencies/supported-currencies.ts, and `validateCurrencyActive` of currencies.service.ts.
-- `trim` and `toUpperCase` are JavaScript's on the code points that can lead to a supported code:
-- besides a-z only U+017F and U+0131 have an upper case that is an ASCII letter.
pub mod Normal
use nexa_fx_js.Base.{
  ℕ, ◌-◌, Bool, true, false, ◌&&◌, ◌||◌, List, [], ◌∷◌, map, leb, ◌==◌, if◌then◌else◌, any, Text,
  codes, same_text,
}
use nexa_fx_js.Base.Action.{Result, ok, err, bad_request, unsupported_currency}

-- The white space that `String.prototype.trim` removes.
unfoldable pub is_space : ℕ → Bool
is_space c =
    (leb 9 c && leb c 13)
    || c == 32
    || c == 0xa0
    || c == 0x1680
    || (leb 0x2000 c && leb c 0x200a)
    || c == 0x2028
    || c == 0x2029
    || c == 0x202f
    || c == 0x205f
    || c == 0x3000
    || c == 0xfeff

unfoldable pub to_upper : ℕ → ℕ
to_upper c =
    if leb b'a' c && leb c b'z'
    then c - 32
    else if c == 0x17f
    then b'S'
    else if c == 0x131
    then b'I'
    else c

unfoldable pub trim_start : Text → Text
unfolding is_space
trim_start [] = []
trim_start (c ∷ s) = if is_space c then trim_start s else c ∷ s

abbrev pub is_empty : Text → Bool
is_empty [] = true
is_empty (c ∷ s) = false

unfoldable pub trim_end : Text → Text
unfolding is_space
trim_end [] = []
trim_end (c ∷ s) = let rest = trim_end s in if is_space c && is_empty rest then [] else c ∷ rest

unfoldable pub trim : Text → Text
unfolding trim_start trim_end
trim s = trim_end (trim_start s)

abbrev pub supported_currency_codes : List Text
supported_currency_codes = codes "USD" ∷ codes "EUR" ∷ codes "GBP" ∷ codes "NGN" ∷ []

unfoldable pub normalize_currency_code : Text → Text
unfolding to_upper trim
normalize_currency_code currency = map to_upper (trim currency)

unfoldable pub is_supported_currency : Text → Bool
unfolding normalize_currency_code
is_supported_currency currency =
    any (same_text (normalize_currency_code currency)) supported_currency_codes

-- `validateCurrency` of the wallets service, which `validateCurrencyActive` follows up to the
-- result.
unfoldable pub validate_currency : Text → Result Text
validate_currency currency =
    let normalized_currency = normalize_currency_code currency in
    if is_supported_currency normalized_currency
    then ok normalized_currency
    else err (bad_request unsupported_currency)
