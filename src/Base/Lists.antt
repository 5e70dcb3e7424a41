-- ===== src/Base/Lists.antt =====
-- Lists measured by native numbers, Boolean searches, and texts.
use Prim.Native.Char.{code}
use Prim.Native.String.{String}
use Prim.Native.Nat.{ℕ, suc, ◌+◌, ◌≤◌}
use mathlib.Core.Path.{◌≡◌, refl, subst}
use mathlib.Core.Bool.{Bool, true, false, ◌&&◌, ◌||◌}
use mathlib.Core.Option.{Option, none, some}
use mathlib.Core.List.{List, [], ◌∷◌, ◌++◌}
use native.Mathlib.Omega.{arith}
use mathlib.Core.Logic.{◌⊎◌, inl, inr}
use nexa_fx_js.Base.Tests.{if◌then◌else◌, ◌==◌, Bool-cases}

module _ {ℓ} {A : Type ℓ} where
  abbrev pub length : List A → ℕ
  length [] = 0
  length (x ∷ xs) = suc (length xs)

  pub length-append : (xs ys : List A) → length (xs ++ ys) ≡ length xs + length ys
  length-append [] ys = omega arith
  length-append (x ∷ xs) ys = omega (arith, length-append xs ys)

  -- `Array.prototype.find`, and TypeORM's `findOne` over the rows of a table.
  abbrev pub find : (A → Bool) → List A → Option A
  find p [] = none
  find p (x ∷ xs) = if p x then some x else find p xs

  -- `Array.prototype.some`
  abbrev pub any : (A → Bool) → List A → Bool
  any p [] = false
  any p (x ∷ xs) = p x || any p xs

  -- `Array.prototype.filter`
  abbrev pub filter : (A → Bool) → List A → List A
  filter p [] = []
  filter p (x ∷ xs) = if p x then x ∷ filter p xs else filter p xs

  -- The rows that fit are changed: `update(where, …)`, and a `save` of a row by its key.
  abbrev pub update_where : (A → Bool) → (A → A) → List A → List A
  update_where p f [] = []
  update_where p f (x ∷ xs) = (if p x then f x else x) ∷ update_where p f xs

  -- A row that was found, once it has been saved, is what is found again.
  pub find-update_where :
      (p q : A → Bool) (x y : A) (xs more : List A)
      → find p xs ≡ some x
      → q x ≡ true
      → p y ≡ true
      → find p (update_where q (λ _. y) xs ++ more) ≡ some y
  find-update_where p q x y [] more h k l = ground arith
  find-update_where p q x y (z ∷ zs) more h k l = ground (arith, find-update_where p q x y zs more)

  pub find-update :
      (p q : A → Bool) (x y : A) (xs : List A)
      → find p xs ≡ some x
      → q x ≡ true
      → p y ≡ true
      → find p (update_where q (λ _. y) xs) ≡ some y
  find-update p q x y [] h k l = ground arith
  find-update p q x y (z ∷ zs) h k l = ground (arith, find-update p q x y zs)

  pub holds_of_find : (p : A → Bool) (xs : List A) (x : A) → find p xs ≡ some x → p x ≡ true
  holds_of_find p [] x h = cc
  holds_of_find p (y ∷ ys) x h = ground (arith, holds_of_find p ys x)

  pub find-append :
      (p : A → Bool) (xs : List A) (x : A)
      → find p xs ≡ none
      → p x ≡ true
      → find p (xs ++ x ∷ []) ≡ some x
  find-append p [] x h k = ground arith
  find-append p (y ∷ ys) x h k = ground (arith, find-append p ys x)

  pub length-filter-le : (p : A → Bool) (xs : List A) → length (filter p xs) ≤ length xs
  length-filter-le p [] = omega arith
  length-filter-le p (x ∷ xs) = ground (arith, length-filter-le p xs)

-- Rows with a key, of which those of one key are changed.
module _ {A : Type 0} (key : A → ℕ) (f : A → A) (keeps : (r : A) → key (f r) ≡ key r) where
  pub find_key-update_other :
      (id other : ℕ) (xs : List A)
      → ¬ (id ≡ other)
      → find (λ r. key r == id) (update_where (λ r. key r == other) f xs)
        ≡ find (λ r. key r == id) xs
  find_key-update_other id other [] ne = refl
  find_key-update_other id other (x ∷ xs) ne =
      let same = keeps x in
      let rest = find_key-update_other id other xs ne in
      elim (Bool-cases (key x == other)) [
        | inl hit ↦
            let miss : (key x == id) ≡ false = ground arith in
            let miss' : (key (f x) == id) ≡ false = ground arith in rw (hit, miss, miss') rest
        | inr skip ↦
            rw (skip) elim (Bool-cases (key x == id)) [
              | inl hit ↦ rw (hit) refl
              | inr miss ↦ rw (miss) rest
            ]
      ]

  pub find_key-update_same :
      (id : ℕ) (xs : List A)
      → find (λ r. key r == id) (update_where (λ r. key r == id) f xs)
        ≡ elim (find (λ r. key r == id) xs) [ none ↦ none | some r ↦ some (f r) ]
  find_key-update_same id [] = refl
  find_key-update_same id (x ∷ xs) =
      let same = keeps x in
      elim (Bool-cases (key x == id)) [
        | inl hit ↦ let hit' : (key (f x) == id) ≡ true = ground arith in rw (hit, hit') refl
        | inr miss ↦ rw (miss, miss) (find_key-update_same id xs)
      ]

module _ {ℓ κ} {A : Type ℓ} (P : A → Type κ) where
  abbrev pub All : List A → Type κ
  All [] = Unit
  All (x ∷ xs) = P x × All xs

-- A text by its code points, for code that walks its characters.
abbrev pub Text : Type 0
Text = List ℕ

abbrev pub codes : String → Text
codes String.[] = []
codes (String.◌∷◌ c s) = code c ∷ codes s

-- `===` on texts.
abbrev pub same_text : Text → Text → Bool
same_text [] [] = true
same_text (a ∷ s) (b ∷ t) = (a == b) && same_text s t
same_text _ _ = false

pub same_text_refl : (s : Text) → same_text s s ≡ true
same_text_refl [] = refl
same_text_refl (a ∷ s) = ground (arith, same_text_refl s)

pub eq_of_same_text : (s t : Text) → same_text s t ≡ true → s ≡ t
eq_of_same_text [] [] h = refl
eq_of_same_text (a ∷ s) (b ∷ t) h = ground (arith, eq_of_same_text s t)
eq_of_same_text _ _ h = cc

pub same_text-cases : (s t : Text) → (s ≡ t) ⊎ ¬ (s ≡ t)
same_text-cases s t = elim (Bool-cases (same_text s t)) [
  | inl same ↦ inl (eq_of_same_text s t same)
  | inr other ↦
      inr (λ e. let h : same_text s s ≡ false = rw (← e) at other in cc (same_text_refl s, h))
]

pub all_find :
    {A : Type 0} (P : A → Type 0) (p : A → Bool) (xs : List A) (x : A)
    → All P xs
    → find p xs ≡ some x
    → P x
all_find P p [] x h k = cc
all_find P p (y ∷ ys) x (h, hs) k = elim (Bool-cases (p y)) [
  | inl hit ↦
      let e : some y ≡ some x = rw (hit) at k in let same : y ≡ x = ground arith in subst P same h
  | inr miss ↦ all_find P p ys x hs (rw (miss) at k)
]

pub all_append :
    {A : Type 0} (P : A → Type 0) (xs : List A) (x : A) → All P xs → P x → All P (xs ++ x ∷ [])
all_append P [] x h k = (k, tt)
all_append P (y ∷ ys) x (h, hs) k = (h, all_append P ys x hs k)
