-- ===== src/Users/Unique/Index.antt =====
-- The unique index on the addresses of src/users/user.entity.ts never has to refuse a row: the checks
-- of users.service.ts come first.
use nexa_fx_js.Base.{
  ℕ, ◌≡◌, refl, sym, subst, ap, ◌∙◌, ◌||◌, Bool, true, false, none, some, List, [], ◌∷◌, ◌==◌, find,
  Text, same_text, same_text_refl, eq_of_same_text, arith, Bool-cases, Option-cases, inl, inr,
}
use nexa_fx_js.Base.Action.{Result, err, error, database_fault}
use nexa_fx_js.Users.{
  User, State, CreateUserDto, RegisterDto, is_taken, create, update, update_password, delete_user,
  register, find_by_email, find_by_id, with_email, new_user, assign, with_password, anonymous,
  change,
}
use nexa_fx_js.Users.Registered.{not_taken, added, refused}
use nexa_fx_js.Users.Unique.{
  has_email, Call, creates, updates, sets_password, deletes, registers, step, run, Unique, IsUnique,
  same_text_sym, step-IsUnique,
}

-- Did the call end in the error of the database, as when the unique index refuses a row?
abbrev is_fault : {A : Type 0} → Result A → Bool
is_fault (err (error database_fault)) = true
is_fault _ = false

unfoldable pub faults : State → Call → Bool
faults s (creates id dto) = is_fault (create id dto s).0
faults s (updates id dto) = is_fault (update id dto s).0
faults s (sets_password now id hash) = is_fault (update_password now id hash s).0
faults s (deletes address id) = is_fault (delete_user address id s).0
faults s (registers hash_password version id dto) =
    is_fault (register hash_password version id dto s).0

unfoldable pub any_faults : State → List Call → Bool
any_faults s [] = false
any_faults s (c ∷ cs) = let rest = any_faults (step s c) cs in faults s c || rest

-- The addresses that deletions draw are those of no row.
abbrev IsDrawn : State → Call → Type 0
IsDrawn s (deletes address id) = with_email address s.users ≡ none
IsDrawn s _ = Unit

abbrev pub AreDrawn : State → List Call → Type 0
AreDrawn s [] = Unit
AreDrawn s (c ∷ cs) = IsDrawn s c × AreDrawn (step s c) cs

-- Of two rows that are apart, one with the address of the other has another id.
not_other :
    (u v : User) (us : List User)
    → has_email u.email us ≡ false
    → same_text v.email u.email ≡ true
    → is_taken v us ≡ false
not_other u v us h e =
    let e' : v.email ≡ u.email = eq_of_same_text v.email u.email e in
    free us (subst (λ t. has_email t us ≡ false) (sym e') h)
  where
    free : (xs : List User) → has_email v.email xs ≡ false → is_taken v xs ≡ false
    free [] k = refl
    free (x ∷ xs) k = ground (arith, free xs)

-- A row of the table with its address is refused by no other row.
own_address :
    (id : ℕ) (u v : User) (us : List User)
    → Unique us
    → find (λ r. r.id == id) us ≡ some u
    → v.id ≡ u.id
    → v.email ≡ u.email
    → is_taken v us ≡ false
own_address id u v [] apart h same e = refl
own_address id u v (x ∷ xs) (new, alone, apart) h same e = elim (Bool-cases (x.id == id)) [
  | inl here ↦
      let found : x ≡ u = let k = rw (here) at h in ground arith in
      let mail : v.email ≡ x.email = e ∙ sym (ap (λ r. r.email) found) in
      let own : (x.id == v.id) ≡ true =
        let k : x.id ≡ v.id = ap (λ (r : User). r.id) found ∙ sym same in ground arith in
      let rest : is_taken v xs ≡ false =
        not_other x v xs alone (rw (mail) (same_text_refl x.email)) in
      rw (own, rest) refl
  | inr there ↦
      let k : find (λ r. r.id == id) xs ≡ some u = rw (there) at h in
      let rest = own_address id u v xs apart k same e in
      let other : same_text x.email v.email ≡ false = rw (e) (not_email x.email xs alone k) in
      rw (other, rest) (ground arith)
]
  where
    not_email :
        (mail : Text) (ys : List User)
        → has_email mail ys ≡ false
        → find (λ r. r.id == id) ys ≡ some u
        → same_text mail u.email ≡ false
    not_email mail [] a b = cc
    not_email mail (y ∷ ys) a b = elim (Bool-cases (y.id == id)) [
      | inl hit ↦
          let at : y ≡ u = let k = rw (hit) at b in ground arith in
          let miss : same_text y.email mail ≡ false = ground arith in
          same_text_sym u.email mail (subst (λ (r : User). same_text r.email mail ≡ false) at miss)
      | inr pass ↦
          let b' : find (λ r. r.id == id) ys ≡ some u = rw (pass) at b in
          not_email mail ys (ground arith) b'
    ]

create_quiet : (id : ℕ) (dto : CreateUserDto) (s : State) → is_fault (create id dto s).0 ≡ false
unfolding create find_by_email
create_quiet id dto s = elim (Option-cases (with_email dto.email s.users)) [
  | inl free ↦ rw (free, not_taken (new_user id dto) s.users free) refl
  | inr (u, used) ↦ rw (used) refl
]

register_quiet :
    (hash_password : ℕ → ℕ) (version : Text) (id : ℕ) (dto : RegisterDto) (s : State)
    → is_fault (register hash_password version id dto s).0 ≡ false
register_quiet hash_password version id dto s = elim (Option-cases (with_email dto.email s.users)) [
  | inl free ↦ rw (added hash_password version id dto s free) refl
  | inr (u, used) ↦ rw (refused hash_password version id dto s u used) refl
]

-- A change that the index lets pass ends without the error of the database.
change_quiet :
    (id : ℕ) (f : User → User) (s : State)
    → ((u : User) → find (λ r. r.id == id) s.users ≡ some u → is_taken (f u) s.users ≡ false)
    → is_fault (change id f s).0 ≡ false
unfolding find_by_id
change_quiet id f s free = elim (Option-cases (find (λ r. r.id == id) s.users)) [
  | inl missing ↦ rw (missing) refl
  | inr (u, found) ↦ rw (found, free u found) refl
]

password_quiet :
    (now id hash : ℕ) (s : State) → IsUnique s → is_fault (update_password now id hash s).0 ≡ false
unfolding update_password find_by_id
password_quiet now id hash s v = elim (Option-cases (find (λ r. r.id == id) s.users)) [
  | inl missing ↦ rw (missing) refl
  | inr (u, found) ↦
      let free = own_address id u (with_password now hash u) s.users v found refl refl in
      rw (found, free) refl
]

delete_quiet :
    (address : Text) (id : ℕ) (s : State)
    → with_email address s.users ≡ none
    → is_fault (delete_user address id s).0 ≡ false
unfolding delete_user find_by_id
delete_quiet address id s d = elim (Option-cases (find (λ r. r.id == id) s.users)) [
  | inl missing ↦ rw (missing) refl
  | inr (u, found) ↦ let free = not_taken (anonymous address u) s.users d in rw (found, free) refl
]

step_quiet : (s : State) (c : Call) → IsUnique s → IsDrawn s c → faults s c ≡ false
unfolding faults update
step_quiet s (creates id dto) v d = create_quiet id dto s
step_quiet s (updates id dto) v d =
    change_quiet id (assign dto) s
      (λ u found. own_address id u (assign dto u) s.users v found refl refl)
step_quiet s (sets_password now id hash) v d = password_quiet now id hash s v
step_quiet s (deletes address id) v d = delete_quiet address id s d
step_quiet s (registers hash_password version id dto) v d =
    register_quiet hash_password version id dto s

-- From a table where no two rows share an id or an e-mail address, whatever users are created,
-- registered, changed and deleted, in any order, with addresses of no row drawn for the deletions:
-- no two rows come to share one, and the calls see to it themselves, for none of them ends in the
-- error with which the database refuses a second row of an address.
pub run-IsUnique :
    (s : State) (cs : List Call)
    → IsUnique s
    → AreDrawn s cs
    → IsUnique (run s cs) × (any_faults s cs ≡ false)
unfolding run any_faults
run-IsUnique s [] v d = (v, refl)
run-IsUnique s (c ∷ cs) v (drawn, more) =
    let (kept, quiet) = run-IsUnique (step s c) cs (step-IsUnique s c v) more in
    (kept, rw (step_quiet s c v drawn, quiet) refl)
