-- ===== src/Closure/TwoFactor.antt =====
-- The one-time code of src/users/account-closure.service.ts: `isTwoFactorCodeValid` and
-- `generateTwoFactorCode`. The HMAC-SHA-1 of node's crypto, which gives 20 bytes, is a parameter of a
-- secret and a window. Times are in milliseconds, later than the first half minute of 1970.
pub mod Window
use nexa_fx_js.Base.{
  ℕ, zero, suc, ◌+◌, ◌-◌, ◌*◌, ◌/◌, ◌%◌, Bool, true, false, ◌&&◌, ◌||◌, List, [], ◌∷◌, ◌++◌, ◌==◌,
  leb, ltb, if◌then◌else◌, any, length, Text, same_text,
}
use nexa_fx_js.Currencies.{trim}

abbrev pub is_digit : ℕ → Bool
is_digit c = leb b'0' c && leb c b'9'

abbrev pub all_digits : Text → Bool
all_digits [] = true
all_digits (c ∷ cs) = is_digit c && all_digits cs

-- `/^\d{6}$/`
unfoldable pub is_six_digits : Text → Bool
is_six_digits code = (length code == 6) && all_digits code

-- `toString()`, with as many steps as there may be digits.
abbrev pub decimal : (fuel : ℕ) → ℕ → Text
decimal zero n = []
decimal (suc fuel) n =
    let high = decimal fuel (n / 10) in
    if ltb n 10 then (b'0' + n) ∷ [] else high ++ (b'0' + n % 10) ∷ []

abbrev pub zeros : ℕ → Text
zeros zero = []
zeros (suc n) = b'0' ∷ zeros n

abbrev pub pad_start : ℕ → Text → Text
pad_start width text = zeros (width - length text) ++ text

abbrev pub byte_at : ℕ → List ℕ → ℕ
byte_at i [] = 0
byte_at zero (b ∷ bs) = b
byte_at (suc i) (b ∷ bs) = byte_at i bs

-- `readUInt32BE`
abbrev pub read_uint_32 : List ℕ → ℕ → ℕ
read_uint_32 bytes offset =
    byte_at offset bytes * 16777216
    + byte_at (offset + 1) bytes * 65536
    + byte_at (offset + 2) bytes * 256
    + byte_at (offset + 3) bytes

abbrev pub offset_of : List ℕ → ℕ
offset_of hmac = byte_at (length hmac - 1) hmac % 16

-- The code is below 10^6, so six steps give all its digits.
unfoldable pub truncate_code : List ℕ → Text
truncate_code hmac =
    pad_start 6 (decimal 6 (read_uint_32 hmac (offset_of hmac) % 2147483648 % 1_000_000))

unfoldable pub generate_two_factor_code : (hmac : ℕ → ℕ → List ℕ) → (secret window : ℕ) → Text
generate_two_factor_code hmac secret window = truncate_code (hmac secret window)

abbrev pub window_of : ℕ → ℕ
window_of now = now / 30_000

unfoldable pub is_two_factor_code_valid : (hmac : ℕ → ℕ → List ℕ) → (now secret : ℕ) → Text → Bool
is_two_factor_code_valid hmac now secret code =
    is_six_digits (trim code)
    && any (λ window. same_text (generate_two_factor_code hmac secret window) (trim code))
        ((window_of now - 1) ∷ window_of now ∷ (window_of now + 1) ∷ [])
