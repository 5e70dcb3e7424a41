-- ===== src/ApiKeys/Revoked.antt =====
-- The keys of src/modules/api-keys that are accepted, and those that are not any more.
use nexa_fx_js.Base.{
  ℕ, ◌≡◌, refl, ap, subst, ◌∙◌, false, ◌&&◌, Option, List, [], ◌∷◌, ◌==◌, find, holds_of_find, All,
  all_find, all_append, same_text, arith, Bool-cases, Option-cases, inl, inr,
}
use nexa_fx_js.Base.Action.{ok}
use nexa_fx_js.ApiKeys.{
  ApiKey, Keys, CreateDto, Fresh, save_row, is_expired, new_key, create_api_key, active_key,
  touched, validate_api_key, revoked, revoke_api_key,
}

-- No row of that id is active.
abbrev pub IsDead : ℕ → ApiKey → Type 0
IsDead id k = k.id ≡ id → k.is_active ≡ false

all_saved :
    (id : ℕ) (row : ApiKey) (ks : Keys)
    → IsDead id row
    → All (IsDead id) ks
    → All (IsDead id) (save_row row ks)
all_saved id row [] h v = tt
all_saved id row (k ∷ ks) h (w, v) = elim (Bool-cases (k.id == row.id)) [
  | inl hit ↦ rw (hit) (h, all_saved id row ks h v)
  | inr miss ↦ rw (miss) (w, all_saved id row ks h v)
]

-- Rows of that id, when it is saved as revoked, are not active.
all_revoked :
    (id : ℕ) (row : ApiKey) (ks : Keys)
    → row.id ≡ id
    → row.is_active ≡ false
    → All (IsDead id) (save_row row ks)
all_revoked id row [] e off = tt
all_revoked id row (k ∷ ks) e off = elim (Bool-cases (k.id == row.id)) [
  | inl hit ↦ rw (hit) ((λ same. off), all_revoked id row ks e off)
  | inr miss ↦ rw (miss) ((λ same. absurd (ground arith)), all_revoked id row ks e off)
]

abbrev same_name : ℕ → CreateDto → Keys → Option ApiKey
same_name user dto ks =
    find (λ k. (k.user_id == user) && same_text k.name dto.name && k.is_active) ks

module _ (hash_key : ℕ → ℕ) where
  pub data Call : Type 0 where
    creates : Fresh → ℕ → CreateDto → Call
    validates : (now key : ℕ) → Call
    revokes : (id user : ℕ) → Call

  -- The ids that are drawn are others than `id`.
  abbrev pub IsApart : ℕ → Call → Type 0
  IsApart id (creates fresh user dto) = ¬ (fresh.id ≡ id)
  IsApart id _ = Unit

  unfoldable pub step : Keys → Call → Keys
  step ks (creates fresh user dto) = (create_api_key hash_key fresh user dto ks).1
  step ks (validates now key) = (validate_api_key hash_key now key ks).1
  step ks (revokes id user) = (revoke_api_key id user ks).1

  unfoldable pub run : Keys → List Call → Keys
  run ks [] = ks
  run ks (c ∷ cs) = run (step ks c) cs

  module _ (id : ℕ) where
    create-IsDead :
        (fresh : Fresh) (user : ℕ) (dto : CreateDto) (ks : Keys)
        → ¬ (fresh.id ≡ id)
        → All (IsDead id) ks
        → All (IsDead id) (create_api_key hash_key fresh user dto ks).1
    unfolding create_api_key
    create-IsDead fresh user dto ks other v = elim (Option-cases (same_name user dto ks)) [
      | inr (k, taken) ↦ rw (taken) v
      | inl free ↦ rw (free) (
          all_append (IsDead id) ks (new_key hash_key fresh user dto) v
            (λ same. absurd (other same)))
    ]

    validate-IsDead :
        (now key : ℕ) (ks : Keys)
        → All (IsDead id) ks
        → All (IsDead id) (validate_api_key hash_key now key ks).1
    unfolding validate_api_key
    validate-IsDead now key ks v = elim (Option-cases (active_key hash_key key ks)) [
      | inl missing ↦ rw (missing) v
      | inr (k, found) ↦ rw (found) elim (Bool-cases (is_expired now k)) [
        | inl late ↦ rw (late) v
        | inr good ↦
            let w =
              all_find (IsDead id) (λ r. (r.key_hash == hash_key key) && r.is_active) ks k v
                found in
            rw (good) (all_saved id (touched hash_key now k) ks w v)
      ]
    ]

    revoke-IsDead :
        (other user : ℕ) (ks : Keys)
        → All (IsDead id) ks
        → All (IsDead id) (revoke_api_key other user ks).1
    unfolding revoke_api_key
    revoke-IsDead other user ks v =
        elim (Option-cases (find (λ k. (k.id == other) && (k.user_id == user)) ks)) [
          | inl missing ↦ rw (missing) v
          | inr (k, found) ↦ rw (found) (all_saved id (revoked k) ks (λ same. refl) v)
        ]

    step-IsDead :
        (ks : Keys) (c : Call) → IsApart id c → All (IsDead id) ks → All (IsDead id) (step ks c)
    unfolding step
    step-IsDead ks (creates fresh user dto) other v = create-IsDead fresh user dto ks other v
    step-IsDead ks (validates now key) other v = validate-IsDead now key ks v
    step-IsDead ks (revokes other user) apart v = revoke-IsDead other user ks v

    run-IsDead :
        (ks : Keys) (cs : List Call)
        → All (IsApart id) cs
        → All (IsDead id) ks
        → All (IsDead id) (run ks cs)
    unfolding run
    run-IsDead ks [] a v = v
    run-IsDead ks (c ∷ cs) (other, a) v = run-IsDead (step ks c) cs a (step-IsDead ks c other v)

    validated_alive :
        (ks : Keys) (now key : ℕ) (k : ApiKey) (ks' : Keys)
        → All (IsDead id) ks
        → validate_api_key hash_key now key ks ≡ (ok k, ks')
        → ¬ (k.id ≡ id)
    unfolding validate_api_key
    validated_alive ks now key k ks' v done same =
        elim (Option-cases (active_key hash_key key ks)) [
          | inl missing ↦ let bad = rw (missing) at done in cc bad
          | inr (r, found) ↦
              let done' = rw (found) at done in
              elim (Bool-cases (is_expired now r)) [
                | inl late ↦ let bad = rw (late) at done' in cc bad
                | inr good ↦
                    let kept : (ok (touched hash_key now r), save_row (touched hash_key now r) ks)
                        ≡ (ok k, ks') =
                      rw (good) at done' in
                    let fits =
                      holds_of_find (λ x. (x.key_hash == hash_key key) && x.is_active) ks r found in
                    let dead =
                      all_find (IsDead id) (λ x. (x.key_hash == hash_key key) && x.is_active) ks r v
                        found in
                    let answer : ok (touched hash_key now r) ≡ ok k = ap (λ x. x.0) kept in
                    let row : touched hash_key now r ≡ k = ground arith in
                    let off = dead (ap (λ x. x.id) row ∙ same) in ground arith
              ]
        ]

    revoke_ended :
        (user : ℕ) (ks : Keys) (k : ApiKey) (ks' : Keys)
        → revoke_api_key id user ks ≡ (ok k, ks')
        → All (IsDead id) ks'
    unfolding revoke_api_key
    revoke_ended user ks k ks' done =
        elim (Option-cases (find (λ r. (r.id == id) && (r.user_id == user)) ks)) [
          | inl missing ↦ let bad = rw (missing) at done in cc bad
          | inr (r, found) ↦
              let done' : (ok (revoked r), save_row (revoked r) ks) ≡ (ok k, ks') =
                rw (found) at done in
              let fits = holds_of_find (λ x. (x.id == id) && (x.user_id == user)) ks r found in
              subst (All (IsDead id)) (ap (λ x. x.1) done')
                (all_revoked id (revoked r) ks (ground arith) refl)
        ]

    -- A key, once its owner has revoked it, is not accepted again, at any time and for any header,
    -- whatever keys are created, validated and revoked meanwhile, as long as no other row draws its id.
    pub revoked_for_good :
        (user : ℕ) (ks : Keys) (k : ApiKey) (ks' : Keys) (cs : List Call)
        → revoke_api_key id user ks ≡ (ok k, ks')
        → All (IsApart id) cs
        → (now key : ℕ) (answer : ApiKey) (later : Keys)
        → validate_api_key hash_key now key (run ks' cs) ≡ (ok answer, later)
        → ¬ (answer.id ≡ id)
    revoked_for_good user ks k ks' cs done apart now key answer later good =
        validated_alive (run ks' cs) now key answer later
          (run-IsDead ks' cs apart (revoke_ended user ks k ks' done)) good
