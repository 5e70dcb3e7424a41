-- ===== src/Base/Rows.antt =====
-- The rows of a table with a primary key.
use nexa_fx_js.Base.Tests.{◌==◌, Bool-cases, if◌then◌else◌}
use nexa_fx_js.Base.Lists.{find, any, filter, update_where}
use Prim.Native.Nat.{ℕ}
use mathlib.Core.Path.{◌≡◌, refl, sym, ap, subst}
use mathlib.Core.Logic.{inl, inr}
use mathlib.Core.Bool.{Bool, true, false}
use mathlib.Core.Option.{some}
use mathlib.Core.List.{List, [], ◌∷◌, ◌++◌}
use native.Mathlib.Omega.{arith}

module _ {A : Type 0} (key : A → ℕ) where
  abbrev pub has_key : ℕ → List A → Bool
  has_key id xs = any (λ x. key x == id) xs

  abbrev pub Distinct : List A → Type 0
  Distinct [] = Unit
  Distinct (x ∷ xs) = (has_key (key x) xs ≡ false) × Distinct xs

  module _ (p : A → Bool) where
    pub has_key-filter :
        (id : ℕ) (xs : List A) → has_key id xs ≡ false → has_key id (filter p xs) ≡ false
    has_key-filter id [] h = refl
    has_key-filter id (x ∷ xs) h = ground (arith, has_key-filter id xs)

    pub Distinct-filter : (xs : List A) → Distinct xs → Distinct (filter p xs)
    Distinct-filter [] v = tt
    Distinct-filter (x ∷ xs) (h, v) = elim (Bool-cases (p x)) [
      | inl stays ↦ rw (stays) (has_key-filter (key x) xs h, Distinct-filter xs v)
      | inr goes ↦ rw (goes) (Distinct-filter xs v)
    ]

    pub has_key-update :
        (f : A → A) (keeps : (x : A) → key (f x) ≡ key x) (id : ℕ) (xs : List A)
        → has_key id (update_where p f xs) ≡ has_key id xs
    has_key-update f keeps id [] = refl
    has_key-update f keeps id (x ∷ xs) =
        let same = keeps x in
        elim (Bool-cases (p x)) [
          | inl hit ↦ rw (hit, same, has_key-update f keeps id xs) refl
          | inr miss ↦ rw (miss, has_key-update f keeps id xs) refl
        ]

    pub Distinct-update :
        (f : A → A) (keeps : (x : A) → key (f x) ≡ key x) (xs : List A)
        → Distinct xs
        → Distinct (update_where p f xs)
    Distinct-update f keeps [] v = tt
    Distinct-update f keeps (x ∷ xs) (h, v) =
        let same = keeps x in
        elim (Bool-cases (p x)) [
          | inl hit ↦
              rw (hit, same, has_key-update f keeps (key x) xs) (h, Distinct-update f keeps xs v)
          | inr miss ↦
              rw (miss, has_key-update f keeps (key x) xs) (h, Distinct-update f keeps xs v)
        ]

    -- A row that a search finds where a key is missing has another key.
    pub absent_of_find :
        (id : ℕ) (row : A) (xs : List A)
        → find p xs ≡ some row
        → has_key id xs ≡ false
        → ¬ (key row ≡ id)
    absent_of_find id row [] h k = cc
    absent_of_find id row (x ∷ xs) h k = ground (arith, absent_of_find id row xs)

  pub has_key-append :
      (id : ℕ) (xs : List A) (x : A)
      → has_key id xs ≡ false
      → ¬ (key x ≡ id)
      → has_key id (xs ++ x ∷ []) ≡ false
  has_key-append id [] x h k = ground arith
  has_key-append id (y ∷ ys) x h k = ground (arith, has_key-append id ys x)

  pub Distinct-append :
      (xs : List A) (x : A) → Distinct xs → has_key (key x) xs ≡ false → Distinct (xs ++ x ∷ [])
  Distinct-append [] x v h = (refl, tt)
  Distinct-append (y ∷ ys) x (k, v) h =
      let fresh : has_key (key x) ys ≡ false = ground arith in
      (has_key-append (key y) ys x k (ground arith), Distinct-append ys x v fresh)

  -- No row of that key: nothing is changed.
  pub update_absent :
      (id : ℕ) (f : A → A) (xs : List A)
      → has_key id xs ≡ false
      → update_where (λ x. key x == id) f xs ≡ xs
  update_absent id f [] h = refl
  update_absent id f (x ∷ xs) h = ground (arith, update_absent id f xs)

  -- The first row that fits is changed.
  abbrev pub change_found : (A → Bool) → (A → A) → List A → List A
  change_found p f [] = []
  change_found p f (x ∷ xs) = if p x then f x ∷ xs else x ∷ change_found p f xs

  -- Where the keys are distinct, a row that was found and is saved by its key is the only change.
  pub update_found :
      (p : A → Bool) (f : A → A) (row : A) (xs : List A)
      → Distinct xs
      → find p xs ≡ some row
      → update_where (λ x. key x == key row) f xs ≡ change_found p f xs
  update_found p f row [] v h = cc
  update_found p f row (x ∷ xs) (new, v) h = elim (Bool-cases (p x)) [
    | inl hit ↦
        let e : some x ≡ some row = rw (hit) at h in
        let same : x ≡ row = ground arith in
        let here : (key x == key row) ≡ true =
          let k : key x ≡ key row = ap key same in ground arith in
        let gone : has_key (key row) xs ≡ false =
          subst (λ r. has_key (key r) xs ≡ false) same new in
        rw (hit, here, update_absent (key row) f xs gone) refl
    | inr miss ↦
        let h' = rw (miss) at h in
        let other = absent_of_find p (key x) row xs h' new in
        let there : (key x == key row) ≡ false = ground arith in
        rw (miss, there, update_found p f row xs v h') refl
  ]

  pub change_found_const :
      (p : A → Bool) (g : A → A) (row : A) (xs : List A)
      → find p xs ≡ some row
      → change_found p (λ _. g row) xs ≡ change_found p g xs
  change_found_const p g row [] h = refl
  change_found_const p g row (x ∷ xs) h = elim (Bool-cases (p x)) [
    | inl hit ↦
        let e : some x ≡ some row = rw (hit) at h in
        let same : x ≡ row = ground arith in rw (hit) (ap (λ r. g r ∷ xs) (sym same))
    | inr miss ↦ rw (miss) (ap (λ ys. x ∷ ys) (change_found_const p g row xs (rw (miss) at h)))
  ]

  module _ (p : A → Bool) (g : A → A) (keeps : (x : A) → key (g x) ≡ key x) where
    has_key-change_found : (id : ℕ) (xs : List A) → has_key id (change_found p g xs) ≡ has_key id xs
    has_key-change_found id [] = refl
    has_key-change_found id (x ∷ xs) =
        let same = keeps x in
        elim (Bool-cases (p x)) [
          | inl hit ↦ rw (hit, same) refl
          | inr miss ↦ rw (miss, has_key-change_found id xs) refl
        ]

    pub Distinct-change_found : (xs : List A) → Distinct xs → Distinct (change_found p g xs)
    Distinct-change_found [] v = tt
    Distinct-change_found (x ∷ xs) (h, v) =
        let same = keeps x in
        elim (Bool-cases (p x)) [
          | inl hit ↦ rw (hit, same) (h, v)
          | inr miss ↦ rw (miss, has_key-change_found (key x) xs) (h, Distinct-change_found xs v)
        ]
