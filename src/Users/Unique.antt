-- ===== src/Users/Unique.antt =====
-- The ids and e-mail addresses of the rows of src/users/user.entity.ts stay apart.
pub mod Index
use nexa_fx_js.Base.{
  ℕ, ◌≡◌, refl, subst, ◌++◌, Bool, false, List, [], ◌∷◌, ◌==◌, any, Text, same_text, arith,
  Bool-cases, inl, inr,
}
use nexa_fx_js.Base.Action.{modify}
use nexa_fx_js.Base.Keeps.{Keeps, keeps_rules}
use nexa_fx_js.Users.{
  User, State, CreateUserDto, UpdateUserDto, RegisterDto, save_row, is_taken, save, create, update,
  update_password, delete_user, register, find_by_email, find_by_id, accept,
}

abbrev pub has_id : ℕ → List User → Bool
has_id id us = any (λ x. x.id == id) us

abbrev pub has_email : Text → List User → Bool
has_email email us = any (λ x. same_text x.email email) us

pub data Call : Type 0 where
  creates : ℕ → CreateUserDto → Call
  updates : ℕ → UpdateUserDto → Call
  sets_password : (now id hash : ℕ) → Call
  deletes : Text → ℕ → Call
  registers : (hash_password : ℕ → ℕ) (version : Text) → ℕ → RegisterDto → Call

unfoldable pub step : State → Call → State
step s (creates id dto) = (create id dto s).1
step s (updates id dto) = (update id dto s).1
step s (sets_password now id hash) = (update_password now id hash s).1
step s (deletes address id) = (delete_user address id s).1
step s (registers hash_password version id dto) = (register hash_password version id dto s).1

unfoldable pub run : State → List Call → State
run s [] = s
run s (c ∷ cs) = run (step s c) cs

-- No two rows have an id or an address in common.
abbrev pub Unique : List User → Type 0
Unique [] = Unit
Unique (u ∷ us) = (has_id u.id us ≡ false) × (has_email u.email us ≡ false) × Unique us

abbrev pub IsUnique : State → Type 0
IsUnique s = Unique s.users

pub same_text_sym : (s t : Text) → same_text s t ≡ false → same_text t s ≡ false
same_text_sym [] [] h = h
same_text_sym [] (b ∷ t) h = refl
same_text_sym (a ∷ s) [] h = refl
same_text_sym (a ∷ s) (b ∷ t) h = ground (arith, same_text_sym s t)

has_id-save :
    (id : ℕ) (u : User) (us : List User)
    → (u.id == id) ≡ false
    → has_id id us ≡ false
    → has_id id (save_row u us) ≡ false
has_id-save id u [] h k = ground arith
has_id-save id u (x ∷ xs) h k = ground (arith, has_id-save id u xs)

has_email-save :
    (email : Text) (u : User) (us : List User)
    → same_text u.email email ≡ false
    → has_email email us ≡ false
    → has_email email (save_row u us) ≡ false
has_email-save email u [] h k = ground arith
has_email-save email u (x ∷ xs) h k = ground (arith, has_email-save email u xs)

-- Where no row has the id, a row with the address is another's.
free_of_others :
    (u : User) (us : List User)
    → has_id u.id us ≡ false
    → is_taken u us ≡ false
    → has_email u.email us ≡ false
free_of_others u [] h k = refl
free_of_others u (x ∷ xs) h k = ground (arith, free_of_others u xs)

save-Unique :
    (u : User) (us : List User) → is_taken u us ≡ false → Unique us → Unique (save_row u us)
save-Unique u [] free v = (refl, refl, tt)
save-Unique u (x ∷ xs) free (new, alone, v) =
    let free' : is_taken u xs ≡ false = ground arith in
    elim (Bool-cases (x.id == u.id)) [
      | inl hit ↦
          let new' : has_id u.id xs ≡ false =
            let e : x.id ≡ u.id = ground arith in subst (λ i. has_id i xs ≡ false) e new in
          rw (hit) (new', free_of_others u xs new' free', v)
      | inr miss ↦
          let other : same_text x.email u.email ≡ false = ground arith in
          let miss' : (u.id == x.id) ≡ false = ground arith in
          rw (miss) (
            has_id-save x.id u xs miss' new,
            has_email-save x.email u xs (same_text_sym x.email u.email other) alone,
            save-Unique u xs free' v,
          )
    ]

Keeps-save : (u : User) → Keeps IsUnique (save u)
Keeps-save u = record {
  at = λ s v. elim (Bool-cases (is_taken u s.users)) [
    | inl taken ↦ rw (taken) v
    | inr free ↦ rw (free) (save-Unique u s.users free v)
  ];
}

Keeps-find_by_id : (id : ℕ) → Keeps IsUnique (find_by_id id)
unfolding find_by_id
Keeps-find_by_id id = search (keeps_rules) depth 8

Keeps-accept : (version : Text) (owner : ℕ) → Keeps IsUnique (accept version owner)
unfolding accept
Keeps-accept version owner = record { at = λ s v. v }

Keeps-register_note :
    (note : ℕ × Text)
    → Keeps IsUnique (modify (λ s. record s { registered = s.registered ++ note ∷ [] }))
Keeps-register_note note = record { at = λ s v. v }

ruleset unique_rules =
    (keeps_rules, Keeps-save, Keeps-find_by_id, Keeps-accept, Keeps-register_note)

Keeps-create : (id : ℕ) (dto : CreateUserDto) → Keeps IsUnique (create id dto)
unfolding create find_by_email
Keeps-create id dto = search (unique_rules) depth 14

Keeps-register :
    (hash_password : ℕ → ℕ) (version : Text) (id : ℕ) (dto : RegisterDto)
    → Keeps IsUnique (register hash_password version id dto)
unfolding register
Keeps-register hash_password version id dto = search (unique_rules, Keeps-create) depth 14

pub step-IsUnique : (s : State) (c : Call) → IsUnique s → IsUnique (step s c)
unfolding step update update_password delete_user
step-IsUnique s (creates id dto) v = (Keeps-create id dto).at s v
step-IsUnique s (updates id dto) v =
    let kept : Keeps IsUnique (update id dto) = search (unique_rules) depth 14 in kept.at s v
step-IsUnique s (sets_password now id hash) v =
    let kept : Keeps IsUnique (update_password now id hash) = search (unique_rules) depth 14 in
    kept.at s v
step-IsUnique s (deletes address id) v =
    let kept : Keeps IsUnique (delete_user address id) = search (unique_rules) depth 14 in
    kept.at s v
step-IsUnique s (registers hash_password version id dto) v =
    (Keeps-register hash_password version id dto).at s v
