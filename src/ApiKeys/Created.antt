-- ===== src/ApiKeys/Created.antt =====
-- A key of src/modules/api-keys, from its creation to the guard.
use nexa_fx_js.Base.{
  ℕ, ◌≡◌, refl, false, ◌&&◌, none, some, [], ◌∷◌, ◌++◌, ◌==◌, find, find-append, same_text, arith,
  Option-cases, inl, inr, subst, sym, ap,
}
use nexa_fx_js.Base.Action.{ok}
use nexa_fx_js.ApiKeys.{
  ApiKey, Keys, CreateDto, Fresh, is_expired, new_key, create_api_key, active_key, validate_api_key,
  can_activate,
}

opened :
    (hash_key : ℕ → ℕ) (now key : ℕ) (ks : Keys) (k : ApiKey)
    → active_key hash_key key ks ≡ some k
    → is_expired now k ≡ false
    → (can_activate hash_key now (some key) ks).0 ≡ ok k.user_id
unfolding can_activate validate_api_key
opened hash_key now key ks k found good = rw (found, good) refl

-- The key that a creation answers, whose hash no active row has yet, opens the guard for its
-- creator, until it expires.
pub created_key_opens :
    (hash_key : ℕ → ℕ) (fresh : Fresh) (user : ℕ) (dto : CreateDto) (ks : Keys) (row : ApiKey)
    (plain : ℕ) (ks' : Keys) (now : ℕ)
    → active_key hash_key fresh.plain_key ks ≡ none
    → create_api_key hash_key fresh user dto ks ≡ (ok (row, plain), ks')
    → is_expired now row ≡ false
    → (can_activate hash_key now (some plain) ks').0 ≡ ok user
unfolding create_api_key
created_key_opens hash_key fresh user dto ks row plain ks' now unknown done good =
    elim (Option-cases
      (find (λ k. (k.user_id == user) && same_text k.name dto.name && k.is_active) ks)) [
        | inr (k, taken) ↦ let bad = rw (taken) at done in cc bad
        | inl free ↦
            let x = new_key hash_key fresh user dto in
            let done' : (ok (x, fresh.plain_key), ks ++ x ∷ []) ≡ (ok (row, plain), ks') =
              rw (free) at done in
            let answer : ok (x, fresh.plain_key) ≡ ok (row, plain) = ap (λ r. r.0) done' in
            let same : x ≡ row = ground arith in
            let key : fresh.plain_key ≡ plain = ground arith in
            let here : active_key hash_key fresh.plain_key (ks ++ x ∷ []) ≡ some x =
              find-append (λ k. (k.key_hash == hash_key fresh.plain_key) && k.is_active) ks x
                unknown (ground arith) in
            let live : is_expired now x ≡ false =
              subst (λ r. is_expired now r ≡ false) (sym same) good in
            let entered = opened hash_key now fresh.plain_key (ks ++ x ∷ []) x here live in
            subst (λ k. (can_activate hash_key now (some k) ks').0 ≡ ok user) key
              (subst (λ t. (can_activate hash_key now (some fresh.plain_key) t).0 ≡ ok user)
                (ap (λ r. r.1) done') entered)
      ]
