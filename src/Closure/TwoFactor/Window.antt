-- ===== src/Closure/TwoFactor/Window.antt =====
-- Which codes src/users/account-closure.service.ts accepts.
use nexa_fx_js.Base.{
  ◌*◌, ◌<◌, ℕ, zero, suc, ◌+◌, ◌-◌, ◌/◌, ◌%◌, ◌≤◌, ◌≡◌, refl, ap, ◌⊎◌, inl, inr, true, false, List,
  [], ◌∷◌, ◌++◌, any, length, length-append, Text, same_text, same_text_refl, arith,
}
use nexa_fx_js.Currencies.{is_space, trim_start, trim_end, trim}
use nexa_fx_js.Closure.TwoFactor.{
  is_digit, all_digits, is_six_digits, decimal, zeros, pad_start, offset_of, read_uint_32,
  truncate_code, generate_two_factor_code, is_two_factor_code_valid,
}

all_digits-append :
    (s t : Text) → all_digits s ≡ true → all_digits t ≡ true → all_digits (s ++ t) ≡ true
all_digits-append [] t h k = k
all_digits-append (c ∷ cs) t h k = ground (arith, all_digits-append cs t)

all_digits-decimal : (fuel n : ℕ) → all_digits (decimal fuel n) ≡ true
all_digits-decimal zero n = refl
all_digits-decimal (suc fuel) n =
    let rest =
      all_digits-append (decimal fuel (n / 10)) ((b'0' + n % 10) ∷ [])
        (all_digits-decimal fuel (n / 10)) (ground arith) in
    ground arith

all_digits-zeros : (n : ℕ) → all_digits (zeros n) ≡ true
all_digits-zeros zero = refl
all_digits-zeros (suc n) = all_digits-zeros n

length-zeros : (n : ℕ) → length (zeros n) ≡ n
length-zeros zero = refl
length-zeros (suc n) = ap suc (length-zeros n)

length-decimal : (fuel n : ℕ) → length (decimal fuel n) ≤ fuel
length-decimal zero n = omega arith
length-decimal (suc fuel) n =
    let rest = length-decimal fuel (n / 10) in
    let sum = length-append (decimal fuel (n / 10)) ((b'0' + n % 10) ∷ []) in ground arith

-- The number that digits stand for.
abbrev value : ℕ → Text → ℕ
value acc [] = acc
value acc (c ∷ cs) = value (acc * 10 + (c - b'0')) cs

abbrev pow_10 : ℕ → ℕ
pow_10 zero = 1
pow_10 (suc n) = 10 * pow_10 n

value-append : (acc c : ℕ) (s : Text) → value acc (s ++ c ∷ []) ≡ value acc s * 10 + (c - b'0')
value-append acc c [] = refl
value-append acc c (x ∷ xs) = value-append (acc * 10 + (x - b'0')) c xs

-- As many steps as a number has digits write it in full.
decimal_enough : (fuel n : ℕ) → n < pow_10 fuel → value 0 (decimal fuel n) ≡ n
decimal_enough zero n h = omega arith
decimal_enough (suc fuel) n h =
    let rest = decimal_enough fuel (n / 10) (omega arith) in
    let last = value-append 0 (b'0' + n % 10) (decimal fuel (n / 10)) in ground arith

padded-is_six_digits :
    (text : Text)
    → length text ≤ 6
    → all_digits text ≡ true
    → is_six_digits (pad_start 6 text) ≡ true
unfolding is_six_digits
padded-is_six_digits text low digits =
    let sum = length-append (zeros (6 - length text)) text in
    let front = length-zeros (6 - length text) in
    let all =
      all_digits-append (zeros (6 - length text)) text (all_digits-zeros (6 - length text))
        digits in
    ground arith

-- Every generated code has the form that the check asks for.
truncate_code-is_six_digits : (hmac : List ℕ) → is_six_digits (truncate_code hmac) ≡ true
unfolding truncate_code
truncate_code-is_six_digits hmac =
    let n = read_uint_32 hmac (offset_of hmac) % 2147483648 % 1_000_000 in
    padded-is_six_digits (decimal 6 n) (length-decimal 6 n) (all_digits-decimal 6 n)

digit_no_space : (c : ℕ) → is_digit c ≡ true → is_space c ≡ false
unfolding is_space
digit_no_space c h = ground arith

trim_start_digits : (s : Text) → all_digits s ≡ true → trim_start s ≡ s
unfolding trim_start
trim_start_digits [] h = refl
trim_start_digits (c ∷ cs) h = let k = digit_no_space c (ground arith) in rw (k) refl

trim_end_digits : (s : Text) → all_digits s ≡ true → trim_end s ≡ s
unfolding trim_end
trim_end_digits [] h = refl
trim_end_digits (c ∷ cs) h =
    let k = digit_no_space c (ground arith) in
    rw (k) (ap (λ t. c ∷ t) (trim_end_digits cs (ground arith)))

trim_digits : (s : Text) → all_digits s ≡ true → trim s ≡ s
unfolding trim
trim_digits s h = rw (trim_start_digits s h) (trim_end_digits s h)

all_digits-of_six : (s : Text) → is_six_digits s ≡ true → all_digits s ≡ true
unfolding is_six_digits
all_digits-of_six s h = ground arith

code-is_six_digits :
    (hmac : ℕ → ℕ → List ℕ) (secret window : ℕ)
    → is_six_digits (generate_two_factor_code hmac secret window) ≡ true
unfolding generate_two_factor_code
code-is_six_digits hmac secret window = truncate_code-is_six_digits (hmac secret window)

window_near :
    (made now : ℕ)
    → 30_000 ≤ now
    → made ≤ now + 30_000
    → now ≤ made + 30_000
    → (made / 30_000 ≡ now / 30_000 - 1)
      ⊎ (made / 30_000 ≡ now / 30_000)
      ⊎ (made / 30_000 ≡ now / 30_000 + 1)
window_near made now late ahead behind = ground arith

-- A code that was generated at `made` with the account's secret is accepted up to one window of half
-- a minute away: at every time `now` with at most 30 seconds between the two, and whatever digits the
-- HMAC gives, leading zeros included.
pub generated_code_accepted :
    (hmac : ℕ → ℕ → List ℕ) (secret made now : ℕ)
    → 30_000 ≤ now
    → made ≤ now + 30_000
    → now ≤ made + 30_000
    → is_two_factor_code_valid hmac now secret
        (generate_two_factor_code hmac secret (made / 30_000))
      ≡ true
unfolding is_two_factor_code_valid
generated_code_accepted hmac secret made now late ahead behind =
    let six = code-is_six_digits hmac secret (made / 30_000) in
    rw
      (
        trim_digits (generate_two_factor_code hmac secret (made / 30_000))
            (all_digits-of_six _ six),
        six,
      )
      (near (window_near made now late ahead behind))
  where
    code : ℕ → Text
    code window = generate_two_factor_code hmac secret window

    near :
        (made / 30_000 ≡ now / 30_000 - 1)
          ⊎ (made / 30_000 ≡ now / 30_000)
          ⊎ (made / 30_000 ≡ now / 30_000 + 1)
        → any
            (λ window. same_text (code window) (code (made / 30_000)))
            ((now / 30_000 - 1) ∷ now / 30_000 ∷ (now / 30_000 + 1) ∷ [])
          ≡ true
    near (inl e) = let k = same_text_refl (code (now / 30_000 - 1)) in rw (e) (ground arith)
    near (inr (inl e)) = let k = same_text_refl (code (now / 30_000)) in rw (e) (ground arith)
    near (inr (inr e)) = let k = same_text_refl (code (now / 30_000 + 1)) in rw (e) (ground arith)
