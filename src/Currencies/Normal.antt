-- ===== src/Currencies/Normal.antt =====
-- Normalising and validating currency codes of src/currencies/supported-currencies.ts.
use nexa_fx_js.Base.{
  ℕ, true, ◌≡◌, refl, inl, inr, [], ◌∷◌, map, arith, Bool-cases, Text, any, same_text,
  eq_of_same_text, ◌⊎◌, codes,
}
use nexa_fx_js.Base.Action.{ok}
use nexa_fx_js.Currencies.{
  is_space, to_upper, trim_start, trim_end, trim, is_empty, normalize_currency_code,
  is_supported_currency, validate_currency, supported_currency_codes,
}

is_space-to_upper : (c : ℕ) → is_space (to_upper c) ≡ is_space c
unfolding is_space to_upper
is_space-to_upper c = ground arith

to_upper_idempotent : (c : ℕ) → to_upper (to_upper c) ≡ to_upper c
unfolding to_upper
to_upper_idempotent c = ground arith

map-to_upper_idempotent : (s : Text) → map to_upper (map to_upper s) ≡ map to_upper s
map-to_upper_idempotent [] = refl
map-to_upper_idempotent (c ∷ s) = cc (to_upper_idempotent c, map-to_upper_idempotent s)

trim_start-map : (s : Text) → trim_start (map to_upper s) ≡ map to_upper (trim_start s)
unfolding trim_start
trim_start-map [] = refl
trim_start-map (c ∷ s) = ground (arith, is_space-to_upper c, trim_start-map s)

is_empty-map : (s : Text) → is_empty (map to_upper s) ≡ is_empty s
is_empty-map [] = refl
is_empty-map (c ∷ s) = refl

trim_end-map : (s : Text) → trim_end (map to_upper s) ≡ map to_upper (trim_end s)
unfolding trim_end
trim_end-map [] = refl
trim_end-map (c ∷ s) =
    ground (arith, is_space-to_upper c, trim_end-map s, is_empty-map (trim_end s))

trim_start-trim_end : (s : Text) → trim_start (trim_end s) ≡ trim_end (trim_start s)
unfolding trim_start trim_end
trim_start-trim_end [] = refl
trim_start-trim_end (c ∷ s) = ground (arith, trim_start-trim_end s)

trim_start_idempotent : (s : Text) → trim_start (trim_start s) ≡ trim_start s
unfolding trim_start
trim_start_idempotent [] = refl
trim_start_idempotent (c ∷ s) = ground (arith, trim_start_idempotent s)

trim_end_idempotent : (s : Text) → trim_end (trim_end s) ≡ trim_end s
unfolding trim_end
trim_end_idempotent [] = refl
trim_end_idempotent (c ∷ s) = ground (arith, trim_end_idempotent s)

trim_idempotent : (s : Text) → trim (trim s) ≡ trim s
unfolding trim
trim_idempotent s = simp (trim_start-trim_end, trim_start_idempotent, trim_end_idempotent)

trim-map : (s : Text) → trim (map to_upper s) ≡ map to_upper (trim s)
unfolding trim
trim-map s = simp (trim_start-map, trim_end-map)

-- A normalised code is its own normal form, so every lookup by it finds the same wallet.
pub normalize_idempotent :
    (s : Text) → normalize_currency_code (normalize_currency_code s) ≡ normalize_currency_code s
unfolding normalize_currency_code
normalize_idempotent s = simp (trim-map, trim_idempotent, map-to_upper_idempotent)

-- Surrounding white space and the letters' case do not change the code.
pub normalize-trim-map :
    (s : Text)
    → (normalize_currency_code (trim s) ≡ normalize_currency_code s)
      × (normalize_currency_code (map to_upper s) ≡ normalize_currency_code s)
unfolding normalize_currency_code
normalize-trim-map s = (simp trim_idempotent, simp (trim-map, map-to_upper_idempotent))

supported_cases :
    (s : Text)
    → any (same_text s) supported_currency_codes ≡ true
    → (s ≡ codes "USD") ⊎ (s ≡ codes "EUR") ⊎ (s ≡ codes "GBP") ⊎ (s ≡ codes "NGN")
supported_cases s h = ground (
  arith,
  eq_of_same_text s (codes "USD"),
  eq_of_same_text s (codes "EUR"),
  eq_of_same_text s (codes "GBP"),
  eq_of_same_text s (codes "NGN"),
)

abbrev pub IsSupported : Text → Type 0
IsSupported c = (c ≡ codes "USD") ⊎ (c ≡ codes "EUR") ⊎ (c ≡ codes "GBP") ⊎ (c ≡ codes "NGN")

IsSupported-normalize :
    (s : Text)
    → is_supported_currency (normalize_currency_code s) ≡ true
    → IsSupported (normalize_currency_code s)
unfolding is_supported_currency
IsSupported-normalize s h =
    supported_cases (normalize_currency_code s) (rw normalize_idempotent at h)

-- A code that passes validation is the normal form of what was given, is unchanged by another
-- normalisation, and is one of the four supported codes.
pub validate_currency_sound :
    (s c : Text)
    → validate_currency s ≡ ok c
    → (c ≡ normalize_currency_code s) × (normalize_currency_code c ≡ c) × IsSupported c
unfolding validate_currency
validate_currency_sound s c h =
    elim (Bool-cases (is_supported_currency (normalize_currency_code s))) [
      | inl good ↦
          let same : normalize_currency_code s ≡ c = ground arith in
          rw (← same) (refl, normalize_idempotent s, IsSupported-normalize s good)
      | inr bad ↦ ground arith
    ]

-- Validation is stable: validating a validated code gives it back.
pub validate_currency_stable :
    (s c : Text) → validate_currency s ≡ ok c → validate_currency c ≡ ok c
unfolding validate_currency
validate_currency_stable s c h =
    elim (Bool-cases (is_supported_currency (normalize_currency_code s))) [
      | inl good ↦
          let same : normalize_currency_code s ≡ c = ground arith in
          rw (← same) (rw (normalize_idempotent s, good))
      | inr bad ↦ ground arith
    ]
