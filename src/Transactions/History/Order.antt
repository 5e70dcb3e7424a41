-- ===== src/Transactions/History/Order.antt =====
-- The order of the rows that src/transactions/transactions.service.ts lists, the latest first.
use nexa_fx_js.Base.{
  ◌<◌, ◌≡◌, ◌≢◌, ◌↔◌, ◌⊎◌, sym, subst, inl, inr, Bool, true, false, List, [], ◌∷◌, leb, filter, All,
  arith, Bool-cases,
}
use nexa_fx_js.Transactions.Data.{Transaction}
use nexa_fx_js.Transactions.History.{Columns, Filters, fits, insert_latest, latest_first, matching}
use nexa_fx_js.Transactions.History.Wanted.{IsWanted, fits_iff}

-- The transaction is one of the list.
abbrev pub In : Transaction → List Transaction → Type 0
In tx [] = ⊥
In tx (x ∷ xs) = (tx ≡ x) ⊎ In tx xs

module _ (cols : Columns) where
  -- No two rows were made at the same moment.
  abbrev pub AreApart : List Transaction → Type 0
  AreApart [] = Unit
  AreApart (x ∷ xs) = All (λ y. cols.created_at x ≢ cols.created_at y) xs × AreApart xs

  -- Every row is later than all that follow.
  abbrev pub IsDescending : List Transaction → Type 0
  IsDescending [] = Unit
  IsDescending (x ∷ xs) = All (λ y. cols.created_at y < cols.created_at x) xs × IsDescending xs

  all_insert :
      (P : Transaction → Type 0) (tx : Transaction) (xs : List Transaction)
      → P tx
      → All P xs
      → All P (insert_latest cols tx xs)
  all_insert P tx [] h k = (h, tt)
  all_insert P tx (x ∷ xs) h (k, ks) =
      elim (Bool-cases (leb (cols.created_at x) (cols.created_at tx))) [
        | inl first ↦ rw (first) (h, (k, ks))
        | inr later ↦ rw (later) (k, all_insert P tx xs h ks)
      ]

  all_latest :
      (P : Transaction → Type 0) (xs : List Transaction) → All P xs → All P (latest_first cols xs)
  all_latest P [] k = tt
  all_latest P (x ∷ xs) (h, k) = all_insert P x (latest_first cols xs) h (all_latest P xs k)

  all_filter :
      (P : Transaction → Type 0) (p : Transaction → Bool) (xs : List Transaction)
      → All P xs
      → All P (filter p xs)
  all_filter P p [] k = tt
  all_filter P p (x ∷ xs) (h, k) = elim (Bool-cases (p x)) [
    | inl stays ↦ rw (stays) (h, all_filter P p xs k)
    | inr goes ↦ rw (goes) (all_filter P p xs k)
  ]

  AreApart-filter :
      (p : Transaction → Bool) (xs : List Transaction) → AreApart xs → AreApart (filter p xs)
  AreApart-filter p [] v = tt
  AreApart-filter p (x ∷ xs) (apart, v) = elim (Bool-cases (p x)) [
    | inl stays ↦
        rw (stays) (
          all_filter (λ y. cols.created_at x ≢ cols.created_at y) p xs apart,
          AreApart-filter p xs v,
        )
    | inr goes ↦ rw (goes) (AreApart-filter p xs v)
  ]

  earlier_than :
      (tx x : Transaction) (xs : List Transaction)
      → cols.created_at x < cols.created_at tx
      → All (λ y. cols.created_at y < cols.created_at x) xs
      → All (λ y. cols.created_at y < cols.created_at tx) xs
  earlier_than tx x [] h v = tt
  earlier_than tx x (y ∷ ys) h (k, v) = (omega arith, earlier_than tx x ys h v)

  IsDescending-insert :
      (tx : Transaction) (xs : List Transaction)
      → All (λ y. cols.created_at tx ≢ cols.created_at y) xs
      → IsDescending xs
      → IsDescending (insert_latest cols tx xs)
  IsDescending-insert tx [] apart v = (tt, tt)
  IsDescending-insert tx (x ∷ xs) (differ, apart) (low, v) =
      elim (Bool-cases (leb (cols.created_at x) (cols.created_at tx))) [
        | inl first ↦
            let less : cols.created_at x < cols.created_at tx =
              let le = first in strictly tx x le differ in
            rw (first) ((less, earlier_than tx x xs less low), (low, v))
        | inr later ↦
            let less : cols.created_at tx < cols.created_at x = ground arith in
            rw (later) (
              all_insert (λ y. cols.created_at y < cols.created_at x) tx xs less low,
              IsDescending-insert tx xs apart v,
            )
      ]
    where
      strictly :
          (a b : Transaction)
          → leb (cols.created_at b) (cols.created_at a) ≡ true
          → cols.created_at a ≢ cols.created_at b
          → cols.created_at b < cols.created_at a
      strictly a b h d = grind arith

  IsDescending-latest : (xs : List Transaction) → AreApart xs → IsDescending (latest_first cols xs)
  IsDescending-latest [] v = tt
  IsDescending-latest (x ∷ xs) (apart, v) =
      IsDescending-insert x (latest_first cols xs)
        (all_latest (λ y. cols.created_at x ≢ cols.created_at y) xs apart)
        (IsDescending-latest xs v)

  In-insert :
      (t tx : Transaction) (xs : List Transaction)
      → In t (insert_latest cols tx xs) ↔ In t (tx ∷ xs)
  In-insert t tx [] = (λ m. m, λ m. m)
  In-insert t tx (x ∷ xs) = elim (Bool-cases (leb (cols.created_at x) (cols.created_at tx))) [
    | inl first ↦ rw (first) (λ m. m, λ m. m)
    | inr later ↦
        let rest = In-insert t tx xs in
        rw (later) (
          (λ m. elim m [
            | inl e ↦ inr (inl e)
            | inr k ↦ elim (rest.0 k) [ inl e ↦ inl e | inr n ↦ inr (inr n) ]
          ]),
          (λ m. elim m [
            | inl e ↦ inr (rest.1 (inl e))
            | inr k ↦ elim k [ inl e ↦ inl e | inr n ↦ inr (rest.1 (inr n)) ]
          ]),
        )
  ]

  In-latest : (t : Transaction) (xs : List Transaction) → In t (latest_first cols xs) ↔ In t xs
  In-latest t [] = (λ m. m, λ m. m)
  In-latest t (x ∷ xs) =
      let placed = In-insert t x (latest_first cols xs) in
      let rest = In-latest t xs in
      (
        (λ m. elim (placed.0 m) [ inl e ↦ inl e | inr k ↦ inr (rest.0 k) ]),
        (λ m. placed.1 (elim m [ inl e ↦ inl e | inr k ↦ inr (rest.1 k) ])),
      )

  In-filter :
      (p : Transaction → Bool) (t : Transaction) (xs : List Transaction)
      → In t (filter p xs) ↔ (In t xs × (p t ≡ true))
  In-filter p t [] = (λ m. absurd m, λ (m, _). m)
  In-filter p t (x ∷ xs) =
      let rest = In-filter p t xs in
      elim (Bool-cases (p x)) [
        | inl stays ↦ rw (stays) (
          (λ m. elim m [
            | inl e ↦ (inl e, subst (λ y. p y ≡ true) (sym e) stays)
            | inr k ↦ let (n, h) = rest.0 k in (inr n, h)
          ]),
          (λ (m, h). elim m [ inl e ↦ inl e | inr n ↦ inr (rest.1 (n, h)) ]),
        )
        | inr goes ↦ rw (goes) (
          (λ m. let (n, h) = rest.0 m in (inr n, h)),
          (λ (m, h). elim m [
            | inl e ↦
                let no : p t ≡ false = subst (λ y. p y ≡ false) (sym e) goes in absurd (cc (no, h))
            | inr n ↦ rest.1 (n, h)
          ]),
        )
      ]

  module _ (f : Filters) where
    -- The list of a query holds the rows that are wanted, and no others.
    pub In-matching :
        (t : Transaction) (xs : List Transaction)
        → In t (matching cols f xs) ↔ (In t xs × IsWanted cols f t)
    In-matching t xs =
        let placed = In-latest t (filter (fits cols f) xs) in
        let kept = In-filter (fits cols f) t xs in
        let described = fits_iff cols f t in
        (
          (λ m. let (n, h) = kept.0 (placed.0 m) in (n, described.0 h)),
          (λ (n, w). placed.1 (kept.1 (n, described.1 w))),
        )

    pub IsDescending-matching :
        (xs : List Transaction) → AreApart xs → IsDescending (matching cols f xs)
    IsDescending-matching xs v =
        IsDescending-latest (filter (fits cols f) xs) (AreApart-filter (fits cols f) xs v)
