-- ===== src/PasswordReset.antt =====
-- src/auth/password-reset.service.ts with password-reset.entity.ts. The hash of node's crypto and what
-- a call draws, a raw token and the id of a row, are parameters.
pub mod Budget
pub mod Outcome
pub mod Runs
use nexa_fx_js.Base.{
  ℕ, ◌+◌, ◌*◌, Bool, true, false, ◌&&◌, not, Option, none, some, List, [], ◌∷◌, ◌++◌, ◌==◌, ltb,
  leb, if◌then◌else◌, find, filter, update_where,
}
use nexa_fx_js.Base.Action.{
  Action, Result, ok, err, bad_request, not_found, reset_token_not_found, reset_token_used,
  reset_token_expired, reset_attempts_exceeded, ◌>>=◌, ◌>>◌, get, pure, throw, throw_if, or_throw,
  modify,
}

abbrev pub max_attempts : ℕ
max_attempts = 3

abbrev pub token_ttl_ms : ℕ
token_ttl_ms = 15 * 60 * 1000

pub record PasswordResetToken : Type 0 where
  pub id : ℕ
  pub user_id : ℕ
  pub token_hash : ℕ
  pub attempts : ℕ
  pub expires_at : ℕ
  pub used : Bool

abbrev pub Tokens : Type 0
Tokens = List PasswordResetToken

-- What a call draws: the raw token, and the id of the row.
pub record Fresh : Type 0 where
  pub raw_token : ℕ
  pub id : ℕ

-- `tokenRepo.delete(where)`
abbrev pub delete_where : (PasswordResetToken → Bool) → Tokens → Tokens
delete_where p ts = filter (λ t. not (p t)) ts

abbrev pub delete : ℕ → Action Tokens (Unit {0})
delete id = modify (delete_where (λ t. t.id == id))

-- What follows a row that was found.
unfoldable pub validate_row : (now : ℕ) → PasswordResetToken → Action Tokens ℕ
validate_row now row =
    if row.used
    then throw (bad_request reset_token_used)
    else (if ltb row.expires_at now
        then (delete row.id >> throw (bad_request reset_token_expired))
        else (if leb max_attempts row.attempts
            then (delete row.id >> throw (bad_request reset_attempts_exceeded))
            else (modify (
                  update_where (λ t. t.id == row.id)
                    (λ t. record t { attempts = row.attempts + 1 }))
                >> pure row.user_id)))

module _ (hash : ℕ → ℕ) where
  abbrev pub new_token : (now : ℕ) → Fresh → ℕ → PasswordResetToken
  new_token now fresh user = record {
    id = fresh.id;
    user_id = user;
    token_hash = hash fresh.raw_token;
    attempts = 0;
    expires_at = now + token_ttl_ms;
    used = false;
  }

  unfoldable pub create_reset_token : (now : ℕ) → Fresh → ℕ → Action Tokens ℕ
  create_reset_token now fresh user = do
    modify (delete_where (λ t. t.user_id == user && not t.used))
    modify (λ ts. ts ++ new_token now fresh user ∷ [])
    pure fresh.raw_token

  abbrev pub row_of : ℕ → Tokens → Option PasswordResetToken
  row_of raw_token ts = find (λ t. t.token_hash == hash raw_token) ts

  unfoldable pub validate_token : (now : ℕ) → ℕ → Action Tokens ℕ
  validate_token now raw_token = do
    row ← or_throw (← get (row_of raw_token)) (not_found reset_token_not_found)
    validate_row now row

  unfoldable pub consume_token : ℕ → Action Tokens (Unit {0})
  consume_token raw_token =
      modify (update_where (λ t. t.token_hash == hash raw_token) (λ t. record t { used = true }))

unfoldable pub purge_expired_tokens : (now : ℕ) → Action Tokens (Unit {0})
purge_expired_tokens now = modify (delete_where (λ t. ltb t.expires_at now))
