-- ===== src/Deactivation/Switch.antt =====
-- The table of src/modules/user-deactivation seen as the set of the deactivated users.
use Prim.Native.String.{String}
use nexa_fx_js.Base.{
  ℕ, ◌≡◌, refl, ap, ◌∙◌, Bool, true, false, ◌&&◌, not, Option, some, [], ◌∷◌, ◌++◌, ◌==◌,
  if◌then◌else◌, update_where, is_some, arith, Bool-cases, Option-cases, inl, inr,
}
use nexa_fx_js.Base.Action.{Result, ok, err}
use nexa_fx_js.Base.Rows.{
  Distinct, Distinct-append, has_key, change_found, update_found, change_found_const,
  Distinct-change_found,
}
use nexa_fx_js.Deactivation.{
  UserDeactivation, Rows, is_active_of, active_row, new_row, deactivate, ended, reactivate,
  is_user_deactivated,
}

-- At most one active row for each user.
abbrev pub Single : Rows → Type 0
Single [] = Unit
Single (r ∷ rs) = (is_some (active_row r.user_id rs) && r.is_active ≡ false) × Single rs

pub record IsSound (rows : Rows) : Type 0 where
  pub distinct : Distinct (λ r. r.id) rows
  pub single : Single rows

off_append :
    (user : ℕ) (rows : Rows) (x : UserDeactivation)
    → is_some (active_row user (rows ++ x ∷ []))
      ≡ (if is_active_of user x then true else is_some (active_row user rows))
off_append user [] x = ground arith
off_append user (r ∷ rs) x = ground (arith, off_append user rs x)

Single-append :
    (rows : Rows) (x : UserDeactivation)
    → Single rows
    → is_some (active_row x.user_id rows) ≡ false
    → Single (rows ++ x ∷ [])
Single-append [] x v h = (refl, tt)
Single-append (r ∷ rs) x (k, v) h =
    (ground (arith, off_append r.user_id rs x), Single-append rs x v (ground arith))

module _ (now admin user : ℕ) where
  abbrev ends : Rows → Rows
  ends rows = change_found (λ r. r.id) (is_active_of user) (ended now admin) rows

  -- No row of another user is touched, and no row becomes active.
  off_other :
      (other : ℕ) (rows : Rows)
      → ¬ (other ≡ user)
      → is_some (active_row other (ends rows)) ≡ is_some (active_row other rows)
  off_other other [] ne = refl
  off_other other (r ∷ rs) ne = ground (arith, off_other other rs ne)

  off_self : (rows : Rows) → Single rows → is_some (active_row user (ends rows)) ≡ false
  off_self [] v = refl
  off_self (r ∷ rs) (k, v) = ground (arith, off_self rs v)

  off_ends :
      (other : ℕ) (rows : Rows)
      → is_some (active_row other rows) ≡ false
      → is_some (active_row other (ends rows)) ≡ false
  off_ends other [] h = refl
  off_ends other (r ∷ rs) h = ground (arith, off_ends other rs)

  Single-ends : (rows : Rows) → Single rows → Single (ends rows)
  Single-ends [] v = tt
  Single-ends (r ∷ rs) (k, v) = elim (Bool-cases (is_active_of user r)) [
    | inl hit ↦ rw (hit) (ground arith, v)
    | inr miss ↦ rw (miss) (ground (arith, off_ends r.user_id rs), Single-ends rs v)
  ]

-- A call that sets whether `user` is deactivated to `on`.
abbrev pub IsSwitched : Bool → ℕ → Rows → Result UserDeactivation × Rows → Type 0
IsSwitched on user rows (ok row, rows') =
    (is_user_deactivated rows user ≡ not on)
    × (is_user_deactivated rows' user ≡ on)
    × ((other : ℕ)
        → ¬ (other ≡ user)
        → is_user_deactivated rows' other ≡ is_user_deactivated rows other)
    × IsSound rows'
IsSwitched on user rows (err e, rows') = (is_user_deactivated rows user ≡ on) × (rows' ≡ rows)

-- A deactivation succeeds exactly for a user who is not deactivated, and then that user is, and no
-- other user's standing changes; otherwise it throws and changes nothing. The id that it draws is no
-- row's.
pub deactivate-IsSwitched :
    (now id user : ℕ) (reason : Option String) (admin : ℕ) (rows : Rows)
    → IsSound rows
    → has_key (λ r. r.id) id rows ≡ false
    → IsSwitched true user rows (deactivate now id user reason admin rows)
unfolding deactivate is_user_deactivated
deactivate-IsSwitched now id user reason admin rows v new =
    let x = new_row now id user reason admin in
    elim (Bool-cases (is_some (active_row user rows))) [
      | inl on ↦ rw (on) (on, refl)
      | inr off ↦ rw (off) (
        off,
        (let self : is_active_of user x ≡ true = ground arith in
            rw (off_append user rows x, self) refl),
        (λ other ne.
            let skip : is_active_of other x ≡ false = ground arith in
            rw (off_append other rows x, skip) refl),
        record {
          distinct = Distinct-append (λ r. r.id) rows x v.distinct new;
          single = Single-append rows x v.single off;
        },
      )
    ]

ends_rows :
    (now admin user : ℕ) (row : UserDeactivation) (rows : Rows)
    → IsSound rows
    → active_row user rows ≡ some row
    → update_where (λ r. r.id == row.id) (λ _. ended now admin row) rows ≡ ends now admin user rows
ends_rows now admin user row rows v found =
    update_found (λ r. r.id) (is_active_of user) (λ _. ended now admin row) row rows v.distinct
      found
    ∙ change_found_const (λ r. r.id) (is_active_of user) (ended now admin) row rows found

ends-IsSound :
    (now admin user : ℕ) (row : UserDeactivation) (rows : Rows)
    → IsSound rows
    → active_row user rows ≡ some row
    → IsSound (ends now admin user rows)
ends-IsSound now admin user row rows v found = record {
  distinct =
      Distinct-change_found (λ r. r.id) (is_active_of user) (ended now admin) (λ r. refl) rows
        v.distinct;
  single = Single-ends now admin user rows v.single;
}

-- A reactivation succeeds exactly for a user who is deactivated, and then that user is not, and no
-- other user's standing changes; otherwise it throws and changes nothing.
pub reactivate-IsSwitched :
    (now user admin : ℕ) (rows : Rows)
    → IsSound rows
    → IsSwitched false user rows (reactivate now user admin rows)
unfolding reactivate is_user_deactivated
reactivate-IsSwitched now user admin rows v = elim (Option-cases (active_row user rows)) [
  | inl missing ↦ rw (missing) (ap is_some missing, refl)
  | inr (row, found) ↦
      rw (found, ends_rows now admin user row rows v found)
        (
          ap is_some found,
          off_self now admin user rows v.single,
          (λ other ne. off_other now admin user other rows ne),
          ends-IsSound now admin user row rows v found,
        )
]
