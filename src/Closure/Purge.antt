-- ===== src/Closure/Purge.antt =====
-- What src/users/account-closure.purge.job.ts does to the table.
use nexa_fx_js.Base.{
  ℕ, ◌≡◌, ◌≢◌, refl, ap, ◌∙◌, inl, inr, Bool, true, false, List, [], ◌∷◌, ◌==◌, map, if◌then◌else◌,
  filter, update_where, All, arith, Bool-cases,
}
use nexa_fx_js.Closure.{
  UserAccount, State, Noise, save_account, is_purge_due, purge_row, purge_all,
  purge_expired_personal_data,
}

-- No two accounts have the same id.
abbrev pub IsDistinct : List UserAccount → Type 0
IsDistinct [] = Unit
IsDistinct (a ∷ rest) = All (λ (r : UserAccount). r.id ≢ a.id) rest × IsDistinct rest

-- The job, said of one account.
abbrev pub purged : Noise → ℕ → UserAccount → UserAccount
purged noise now a = if is_purge_due now a then purge_row noise now a else a

all_filter :
    {A : Type 0} (P : A → Type 0) (p : A → Bool) (xs : List A) → All P xs → All P (filter p xs)
all_filter P p [] h = tt
all_filter P p (x ∷ xs) (h, hs) = elim (Bool-cases (p x)) [
  | inl kept ↦ rw (kept) (h, all_filter P p xs hs)
  | inr left ↦ rw (left) (all_filter P p xs hs)
]

update_none :
    (a y : UserAccount) (rows : List UserAccount)
    → All (λ (r : UserAccount). r.id ≢ a.id) rows
    → update_where (λ (r : UserAccount). r.id == a.id) (λ _. y) rows ≡ rows
update_none a y [] h = refl
update_none a y (r ∷ rs) (ne, h) =
    let miss : (r.id == a.id) ≡ false = ground arith in
    rw (miss) (ap (λ l. r ∷ l) (update_none a y rs h))

update_first :
    (a y : UserAccount) (rows : List UserAccount)
    → All (λ (r : UserAccount). r.id ≢ a.id) rows
    → update_where (λ (r : UserAccount). r.id == a.id) (λ _. y) (a ∷ rows) ≡ y ∷ rows
update_first a y rows h =
    let hit : (a.id == a.id) ≡ true = ground arith in
    simp (hit) (ap (λ l. y ∷ l) (update_none a y rows h))

module _ (noise : Noise) (now : ℕ) (s : State) where
  abbrev rows_of : List UserAccount → List UserAccount → List UserAccount
  rows_of due rows = (purge_all noise now due (record s { accounts = rows })).accounts

  -- A row that the loop does not write stays in front.
  purge_all_other :
      (due : List UserAccount) (r : UserAccount) (rows : List UserAccount)
      → All (λ (d : UserAccount). d.id ≢ r.id) due
      → rows_of due (r ∷ rows) ≡ r ∷ rows_of due rows
  unfolding purge_all save_account
  purge_all_other [] r rows h = refl
  purge_all_other (d ∷ ds) r rows (ne, h) =
      let miss : (r.id == d.id) ≡ false = ground arith in
      rw (rows_of, miss)
        (purge_all_other ds r
          (update_where (λ (x : UserAccount). x.id == d.id) (λ _. purge_row noise now d) rows) h)

  purge_all-map :
      (rows : List UserAccount)
      → IsDistinct rows
      → rows_of (filter (is_purge_due now) rows) rows ≡ map (purged noise now) rows
  unfolding purge_all save_account
  purge_all-map [] h = refl
  purge_all-map (a ∷ rest) (apart, h) = elim (Bool-cases (is_purge_due now a)) [
    | inl due ↦ rw (due) (
        ap (rows_of (filter (is_purge_due now) rest))
          (update_first a (purge_row noise now a) rest apart)
        ∙ purge_all_other (filter (is_purge_due now) rest) (purge_row noise now a) rest
            (all_filter _ (is_purge_due now) rest apart)
        ∙ ap (λ l. purge_row noise now a ∷ l) (purge_all-map rest h))
    | inr later ↦ rw (later) (
        purge_all_other (filter (is_purge_due now) rest) a rest
          (all_filter _ (is_purge_due now) rest apart)
        ∙ ap (λ l. a ∷ l) (purge_all-map rest h))
  ]

  -- The job is a map over the table, if no two accounts share an id: every account whose
  -- date has come, and that was not purged, loses its personal data, and the others stay as they are.
  pub purge_expired-map :
      IsDistinct s.accounts
      → (purge_expired_personal_data noise now s).accounts ≡ map (purged noise now) s.accounts
  unfolding purge_expired_personal_data
  purge_expired-map h = purge_all-map s.accounts h
