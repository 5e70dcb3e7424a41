-- ===== src/Tokens.antt =====
-- src/tokens/refresh-tokens.service.ts. The keyed hash of node's crypto, `hash`, is a parameter, and
-- so are the random tokens and ids.
pub mod Rotation
use nexa_fx_js.Base.{
  ℕ, ◌+◌, ◌*◌, Bool, true, false, ◌||◌, Option, none, some, List, [], ◌∷◌, ◌++◌, ◌==◌, ltb,
  if◌then◌else◌, find, update_where, is_some,
}
use nexa_fx_js.Base.Action.{
  Action, Result, ok, err, Error, unauthorized, token_revoked, token_expired, ◌>>=◌, ◌>>◌, get,
  pure, throw, throw_if, modify,
}

pub record RefreshToken : Type 0 where
  pub id : ℕ
  pub user_id : ℕ
  pub family_id : ℕ
  pub parent_token_id : Option ℕ
  pub token_hash : ℕ
  pub expires_at : ℕ
  pub revoked_at : Option ℕ
  pub replaced_by_token_id : Option ℕ

abbrev pub Tokens : Type 0
Tokens = List RefreshToken

-- What a call draws: the token, and the ids of the row and the family.
pub record Fresh : Type 0 where
  pub token : ℕ
  pub id : ℕ
  pub family_id : ℕ

abbrev pub expires_in : (now expiry_seconds : ℕ) → ℕ
expires_in now expiry_seconds = now + expiry_seconds * 1000

module _ (hash : ℕ → ℕ) (expiry_seconds now : ℕ) where
  unfoldable pub create_token : Fresh → ℕ → Action Tokens (ℕ × ℕ)
  create_token fresh user = do
    modify (λ ts.
        ts
        ++ record {
          id = fresh.id;
          user_id = user;
          family_id = fresh.family_id;
          parent_token_id = none;
          token_hash = hash fresh.token;
          expires_at = expires_in now expiry_seconds;
          revoked_at = none;
          replaced_by_token_id = none;
        }
          ∷ [])
    pure (fresh.token, expires_in now expiry_seconds)

  -- `where: { tokenHash: this.hashToken(token) }`
  abbrev pub row_of : ℕ → Tokens → Option RefreshToken
  row_of token ts = find (λ t. t.token_hash == hash token) ts

  abbrev pub successor : Fresh → RefreshToken → RefreshToken
  successor fresh existing = record {
    id = fresh.id;
    user_id = existing.user_id;
    family_id = existing.family_id;
    parent_token_id = some existing.id;
    token_hash = hash fresh.token;
    expires_at = expires_in now expiry_seconds;
    revoked_at = none;
    replaced_by_token_id = none;
  }

  abbrev pub retired : Fresh → RefreshToken → RefreshToken
  retired fresh existing = record existing {
    replaced_by_token_id = some fresh.id;
    revoked_at = some now;
  }

  -- What follows a row that was found.
  unfoldable pub rotate_row : Fresh → RefreshToken → Action Tokens (ℕ × ℕ)
  rotate_row fresh existing = do
    throw_if (is_some existing.revoked_at) (unauthorized token_revoked)
    throw_if (ltb existing.expires_at now) (unauthorized token_expired)
    modify (λ ts.
        update_where (λ t. t.id == existing.id) (λ _. retired fresh existing) ts
        ++ successor fresh existing ∷ [])
    pure (fresh.token, expires_in now expiry_seconds)

  unfoldable pub rotate_token : Fresh → ℕ → Action Tokens (ℕ × ℕ)
  rotate_token fresh old ts = elim (row_of old ts) [
    | none ↦ (err (unauthorized token_revoked), ts)
    | some existing ↦ rotate_row fresh existing ts
  ]

unfoldable pub revoke_user_tokens : (now user : ℕ) → Tokens → Tokens
revoke_user_tokens now user ts =
    update_where (λ t. t.user_id == user) (λ t. record t { revoked_at = some now }) ts
