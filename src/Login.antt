-- ===== src/Login.antt =====
-- `login` and `rotateRefreshToken` of src/auth/auth.service.ts, with `update` of
-- src/users/users.service.ts. The hash of node's crypto and the verification of a JWT are parameters;
-- the audit of a login is written, and the signed token is left out of the answer.
pub mod Lockout
use nexa_fx_js.Base.{
  ℕ, ◌+◌, ◌*◌, Bool, true, false, ◌&&◌, ◌||◌, not, Option, none, some, List, [], ◌∷◌, ◌++◌, ◌==◌,
  ltb, leb, if◌then◌else◌, find, any, update_where, is_some, Text, same_text,
}
use nexa_fx_js.Base.Action.{
  Action, Result, ok, err, Error, unauthorized, forbidden, error, not_found, invalid_credentials,
  two_factor_required, account_locked, undefined_variable, account_deactivated, terms_not_accepted,
  user_not_found, key_required, token_revoked, ◌>>=◌, ◌>>◌, get, pure, throw, throw_if, or_throw,
  modify,
}

pub record User : Type 0 where
  pub id : ℕ
  pub email : Text
  pub password_hash : ℕ
  pub is_admin : Bool
  pub require_2fa : Bool
  pub failed_login_attempts : ℕ
  pub locked_until : Option ℕ

pub record State : Type 0 where
  pub users : List User
  pub used_refresh_tokens : List ℕ

pub record LoginDto : Type 0 where
  pub email : Text
  pub password : ℕ
  pub totp_code : Bool

pub record Env : Type 0 where
  pub hash_password : ℕ → ℕ
  pub terms_accepted : ℕ → Bool
  pub is_deactivated : ℕ → Bool
  pub verify : ℕ → Bool

abbrev pub max_failed_attempts : ℕ
max_failed_attempts = 5

-- `update` with the two fields that `login` writes; an absent field is left alone.
unfoldable pub update : ℕ → (User → User) → Action State (Unit {0})
update id change = do
  found ← get (λ s. find (λ u. u.id == id) s.users)
  user ← or_throw found (not_found user_not_found)
  modify (λ s. record s { users = update_where (λ u. u.id == user.id) (λ _. change user) s.users })

abbrev pub is_locked : ℕ → User → Bool
is_locked now user = elim user.locked_until [ none ↦ false | some t ↦ ltb now t ]

-- A wrong password. The object literal of the fifth failure names a variable that does not exist,
-- which throws before `update` is called.
unfoldable pub fail : User → Action State (Unit {0})
fail user =
    if leb max_failed_attempts (user.failed_login_attempts + 1)
    then throw (error undefined_variable)
    else (update user.id (λ u. record u { failed_login_attempts = user.failed_login_attempts + 1 })
        >> throw (unauthorized invalid_credentials))

-- A right password: the counter and the lock are cleared if there is anything to clear.
unfoldable pub clear : User → Action State (Unit {0})
clear user =
    if ltb 0 user.failed_login_attempts || is_some user.locked_until
    then update user.id (λ u. record u { failed_login_attempts = 0; locked_until = none })
    else pure tt

unfoldable pub check_password : Env → ℕ → User → Action State (Unit {0})
check_password env password user =
    if env.hash_password password == user.password_hash then clear user else fail user

-- What follows the password.
unfoldable pub finish_login : Env → User → Action State ℕ
finish_login env user = do
  throw_if (not (env.terms_accepted user.id)) (forbidden terms_not_accepted)
  throw_if (env.is_deactivated user.id) (unauthorized account_deactivated)
  pure user.id

unfoldable pub login_user : Env → (now : ℕ) → LoginDto → User → Action State ℕ
login_user env now dto user = do
  throw_if (user.is_admin && user.require_2fa && not dto.totp_code) (forbidden two_factor_required)
  throw_if (is_locked now user) (forbidden account_locked)
  check_password env dto.password user
  finish_login env user

unfoldable pub login : Env → (now : ℕ) → LoginDto → Action State ℕ
login env now dto = do
  found ← get (λ s. find (λ u. same_text u.email dto.email) s.users)
  user ← or_throw found (unauthorized invalid_credentials)
  login_user env now dto user

-- The answer is the token that was spent.
unfoldable pub rotate_refresh_token : Env → Option ℕ → Action State ℕ
rotate_refresh_token env token = do
  refresh_token ← or_throw token (unauthorized key_required)
  used ← get (λ s. any (λ t. t == refresh_token) s.used_refresh_tokens)
  throw_if used (forbidden token_revoked)
  throw_if (not (env.verify refresh_token)) (unauthorized invalid_credentials)
  modify (λ s. record s { used_refresh_tokens = refresh_token ∷ s.used_refresh_tokens })
  pure refresh_token
