-- ===== src/Users/Registered.antt =====
-- `register` of src/auth/auth.service.ts and `deleteUser` of src/users/users.service.ts.
use nexa_fx_js.Base.{
  ℕ, ◌≡◌, refl, sym, subst, true, false, ◌&&◌, none, some, List, [], ◌∷◌, ◌++◌, ◌==◌, find, Text,
  same_text, same_text_refl, arith, Bool-cases, inl, inr, holds_of_find, ==_iff,
}
use nexa_fx_js.Base.Action.{ok, err, conflict, email_in_use, error, missing_delete_column}
use nexa_fx_js.Users.{
  User, UserRole, State, TermsAcceptance, RegisterDto, save_row, is_taken, with_email, new_user,
  find_by_email, find_by_id, create, accept, ensure_accepted, issue_token, register, anonymous,
  delete_user,
}

find-save :
    (id : ℕ) (u : User) (us : List User)
    → u.id ≡ id
    → find (λ r. r.id == id) (save_row u us) ≡ some u
find-save id u [] h = ground arith
find-save id u (x ∷ xs) h = ground (arith, find-save id u xs h)

pub not_taken : (u : User) (us : List User) → with_email u.email us ≡ none → is_taken u us ≡ false
not_taken u [] h = refl
not_taken u (x ∷ xs) h = ground (arith, not_taken u xs)

module _ (hash_password : ℕ → ℕ) (version : Text) where
  abbrev pub row_for : ℕ → RegisterDto → User
  row_for id dto = new_user id (record {
    email = dto.email;
    password_hash = hash_password dto.password;
    first_name = dto.first_name;
    last_name = dto.last_name;
    role = none;
  })

  abbrev pub state_for : ℕ → RegisterDto → State → State
  state_for id dto s = record {
    users = save_row (row_for id dto) s.users;
    acceptances = s.acceptances ++ record { user_id = id; version = version } ∷ [];
    registered = s.registered ++ (id, dto.email) ∷ [];
  }

  pub added :
      (id : ℕ) (dto : RegisterDto) (s : State)
      → with_email dto.email s.users ≡ none
      → register hash_password version id dto s
        ≡ (ok (issue_token id dto.email UserRole.user), state_for id dto s)
  unfolding register create find_by_email accept
  added id dto s unused = rw (unused, not_taken (row_for id dto) s.users unused) refl

  pub refused :
      (id : ℕ) (dto : RegisterDto) (s : State) (u : User)
      → with_email dto.email s.users ≡ some u
      → register hash_password version id dto s ≡ (err (conflict email_in_use), s)
  unfolding register create find_by_email
  refused id dto s u used = rw (used) refl

  found_saved :
      (u : User) (email : Text) (us : List User)
      → same_text u.email email ≡ true
      → with_email email us ≡ none
      → with_email email (save_row u us) ≡ some u
  found_saved u email [] h k = ground arith
  found_saved u email (x ∷ xs) h k = ground (arith, found_saved u email xs)

  recorded :
      (id : ℕ) (before : List TermsAcceptance)
      → (a : TermsAcceptance) × (find
            (λ a. (a.user_id == id) && same_text a.version version)
            (before ++ record { user_id = id; version = version } ∷ [])
          ≡ some a)
  recorded id [] =
      let same : (id == id) ≡ true = ground arith in
      rw (same, same_text_refl version) (record { user_id = id; version = version }, refl)
  recorded id (a ∷ more) = elim (Bool-cases ((a.user_id == id) && same_text a.version version)) [
    | inl hit ↦ rw (hit) (a, refl)
    | inr miss ↦ rw (miss) (recorded id more)
  ]

  accepted_after :
      (id : ℕ) (t : State) (before : List TermsAcceptance)
      → t.acceptances ≡ before ++ record { user_id = id; version = version } ∷ []
      → ensure_accepted version id t ≡ (ok tt, t)
  unfolding ensure_accepted
  accepted_after id t before e = let (a, found) = recorded id before in rw (e, found) refl

  -- Where no row has the address, a registration succeeds; then the address leads to the new row,
  -- with the hash of the password and the role of a user, the terms count as accepted, and a second
  -- registration, with another id and other data but the same address, throws and changes nothing.
  pub register_once :
      (id : ℕ) (dto : RegisterDto) (s : State) (other : ℕ) (again : RegisterDto)
      → with_email dto.email s.users ≡ none
      → again.email ≡ dto.email
      → let t = (register hash_password version id dto s).1 in
        ((register hash_password version id dto s).0 ≡ ok (issue_token id dto.email UserRole.user))
        × (with_email dto.email t.users ≡ some (row_for id dto))
        × (ensure_accepted version id t ≡ (ok tt, t))
        × (register hash_password version other again t ≡ (err (conflict email_in_use), t))
  register_once id dto s other again unused same = rw (added id dto s unused) (
    refl,
    found_saved (row_for id dto) dto.email s.users (same_text_refl dto.email) unused,
    accepted_after id (state_for id dto s) s.acceptances refl,
    refused other again (state_for id dto s) (row_for id dto) (
        subst (λ e. with_email e (state_for id dto s).users ≡ some (row_for id dto)) (sym same)
          (found_saved (row_for id dto) dto.email s.users (same_text_refl dto.email) unused)),
  )

-- `deleteUser` never succeeds: for an id that is there and an address that no other row has, the row
-- has lost its address and names, but is there, as active as before and with the password it had.
pub delete_user_throws :
    (address : Text) (id : ℕ) (u : User) (s : State)
    → find (λ r. r.id == id) s.users ≡ some u
    → is_taken (anonymous address u) s.users ≡ false
    → ((delete_user address id s).0 ≡ err (error missing_delete_column))
      × (find (λ r. r.id == id) (delete_user address id s).1.users ≡ some (anonymous address u))
unfolding delete_user find_by_id
delete_user_throws address id u s found free =
    rw (found, free) (refl, find-save id (anonymous address u) s.users same)
  where
    same : u.id ≡ id
    same = (==_iff u.id id).0 (holds_of_find (λ r. r.id == id) s.users u found)
