-- ===== src/Kyc/Bulk/Once.antt =====
-- The ids of a bulk review of src/kyc/kyc-bulk-review.service.ts, each once.
use nexa_fx_js.Base.{
  ℕ, ◌≡◌, refl, ◌∙◌, Bool, false, not, List, [], ◌∷◌, ◌==◌, filter, any, arith, Bool-cases, inl,
  inr,
}
use nexa_fx_js.Kyc.Bulk.{unique}

abbrev pub has : ℕ → List ℕ → Bool
has id ids = any (λ x. x == id) ids

-- No id twice.
abbrev pub Once : List ℕ → Type 0
Once [] = Unit
Once (id ∷ ids) = (has id ids ≡ false) × Once ids

has-filter :
    (p : ℕ → Bool) (id : ℕ) (ids : List ℕ) → has id ids ≡ false → has id (filter p ids) ≡ false
has-filter p id [] h = refl
has-filter p id (x ∷ xs) h = ground (arith, has-filter p id xs)

has_dropped : (id : ℕ) (ids : List ℕ) → has id (filter (λ x. not (x == id)) ids) ≡ false
has_dropped id [] = refl
has_dropped id (x ∷ xs) = ground (arith, has_dropped id xs)

Once-filter : (p : ℕ → Bool) (ids : List ℕ) → Once ids → Once (filter p ids)
Once-filter p [] v = tt
Once-filter p (x ∷ xs) (h, v) = elim (Bool-cases (p x)) [
  | inl stays ↦ rw (stays) (has-filter p x xs h, Once-filter p xs v)
  | inr goes ↦ rw (goes) (Once-filter p xs v)
]

pub Once-unique : (ids : List ℕ) → Once (unique ids)
unfolding unique
Once-unique [] = tt
Once-unique (id ∷ ids) =
    (has_dropped id (unique ids), Once-filter (λ x. not (x == id)) (unique ids) (Once-unique ids))

has_kept :
    (id other : ℕ) (ids : List ℕ)
    → ¬ (other ≡ id)
    → has other (filter (λ x. not (x == id)) ids) ≡ has other ids
has_kept id other [] ne = refl
has_kept id other (x ∷ xs) ne = ground (arith, has_kept id other xs ne)

pub has-unique : (id : ℕ) (ids : List ℕ) → has id (unique ids) ≡ has id ids
unfolding unique
has-unique id [] = refl
has-unique id (x ∷ xs) = elim (Bool-cases (x == id)) [
  | inl hit ↦ rw (hit) refl
  | inr miss ↦ rw (miss) (has_kept x id (unique xs) (ground arith) ∙ has-unique id xs)
]
