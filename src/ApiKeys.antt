-- ===== src/ApiKeys.antt =====
-- src/modules/api-keys/services/api-keys.service.ts with its entity, and guards/api-key.guard.ts. The
-- hash of node's crypto is a parameter; a key is generated by the caller's draw, like the id.
pub mod Created
pub mod Revoked
use nexa_fx_js.Base.{
  ℕ, Bool, true, false, ◌&&◌, Option, none, some, List, [], ◌∷◌, ◌++◌, ◌==◌, ltb, if◌then◌else◌,
  find, update_where, is_some, or_else, Text, same_text,
}
use nexa_fx_js.Base.Action.{
  Action, Result, ok, err, Error, conflict, not_found, unauthorized, key_name_taken,
  api_key_not_found, bad_api_key, api_key_expired, key_required, ◌>>=◌, ◌>>◌, get, pure, throw_if,
  or_throw, modify,
}

pub record ApiKey : Type 0 where
  pub id : ℕ
  pub user_id : ℕ
  pub name : Text
  pub key_hash : ℕ
  pub scopes : List Text
  pub rate_limit : ℕ
  pub is_active : Bool
  pub last_used_at : Option ℕ
  pub expires_at : Option ℕ

abbrev pub Keys : Type 0
Keys = List ApiKey

pub record CreateDto : Type 0 where
  pub name : Text
  pub scopes : Option (List Text)
  pub rate_limit : Option ℕ
  pub expires_at : Option ℕ

-- What a call draws: the key, and the id of the row.
pub record Fresh : Type 0 where
  pub plain_key : ℕ
  pub id : ℕ

-- `data.rateLimit || 1000`
abbrev pub rate_limit_of : Option ℕ → ℕ
rate_limit_of none = 1000
rate_limit_of (some n) = if n == 0 then 1000 else n

-- `repository.save`: the row of that id is written over.
abbrev pub save_row : ApiKey → Keys → Keys
save_row row ks = update_where (λ k. k.id == row.id) (λ _. row) ks

abbrev pub is_expired : (now : ℕ) → ApiKey → Bool
is_expired now k = elim k.expires_at [ none ↦ false | some t ↦ ltb t now ]

module _ (hash_key : ℕ → ℕ) where
  abbrev pub new_key : Fresh → ℕ → CreateDto → ApiKey
  new_key fresh user dto = record {
    id = fresh.id;
    user_id = user;
    name = dto.name;
    key_hash = hash_key fresh.plain_key;
    scopes = or_else dto.scopes [];
    rate_limit = rate_limit_of dto.rate_limit;
    is_active = true;
    last_used_at = none;
    expires_at = dto.expires_at;
  }

  unfoldable pub create_api_key : Fresh → ℕ → CreateDto → Action Keys (ApiKey × ℕ)
  create_api_key fresh user dto = do
    existing ←
        get (λ ks. find (λ k. (k.user_id == user) && same_text k.name dto.name && k.is_active) ks)
    throw_if (is_some existing) (conflict key_name_taken)
    modify (λ ks. ks ++ new_key fresh user dto ∷ [])
    pure (new_key fresh user dto, fresh.plain_key)

  -- `where: { keyHash, isActive: true }`
  abbrev pub active_key : ℕ → Keys → Option ApiKey
  active_key key ks = find (λ k. (k.key_hash == hash_key key) && k.is_active) ks

  abbrev pub touched : (now : ℕ) → ApiKey → ApiKey
  touched now k = record k { last_used_at = some now }

  unfoldable pub validate_api_key : (now key : ℕ) → Action Keys ApiKey
  validate_api_key now key = do
    api_key ← or_throw (← get (active_key key)) (unauthorized bad_api_key)
    throw_if (is_expired now api_key) (unauthorized api_key_expired)
    modify (save_row (touched now api_key))
    pure (touched now api_key)

  -- The answer is the user that the guard puts on the request.
  unfoldable pub can_activate : (now : ℕ) → Option ℕ → Action Keys ℕ
  can_activate now header = do
    api_key ← or_throw header (unauthorized key_required)
    valid_key ← validate_api_key now api_key
    pure valid_key.user_id

abbrev pub revoked : ApiKey → ApiKey
revoked k = record k { is_active = false }

unfoldable pub revoke_api_key : (id user : ℕ) → Action Keys ApiKey
revoke_api_key id user = do
  found ← get (λ ks. find (λ k. (k.id == id) && (k.user_id == user)) ks)
  api_key ← or_throw found (not_found api_key_not_found)
  modify (save_row (revoked api_key))
  pure (revoked api_key)
