-- ===== src/Users.antt =====
-- src/users/users.service.ts over the rows of user.entity.ts, `register` and `issueToken` of
-- src/auth/auth.service.ts, and src/terms/terms-acceptance.service.ts. Names, hashes of passwords and
-- the ids that the table draws are arguments; `jwtService.sign` is left as the claims that it signs.
pub mod Unique
pub mod Registered
pub mod BalanceCache
use nexa_fx_js.Base.{
  ℕ, Bool, true, false, ◌&&◌, not, Option, none, some, List, [], ◌∷◌, ◌++◌, ◌==◌, if◌then◌else◌,
  find, any, is_some, or_else, Text, same_text, codes,
}
use nexa_fx_js.Base.Action.{
  Action, Result, ok, err, conflict, not_found, forbidden, error, email_in_use, user_not_found,
  database_fault, missing_delete_column, terms_not_accepted, ◌>>=◌, ◌>>◌, get, pure, throw,
  throw_if, or_throw, modify,
}

pub data UserRole : Type 0 where
  admin user compliance : UserRole

pub data KycStatus : Type 0 where
  pending approved rejected : KycStatus

pub record User : Type 0 where
  pub id : ℕ
  pub email : Text
  pub password_hash : ℕ
  pub first_name : Text
  pub last_name : Text
  pub role : UserRole
  pub is_email_verified : Bool
  pub kyc_status : KycStatus
  pub is_active : Bool
  pub preferred_language : Text
  pub password_changed_at : Option ℕ
  pub require_2fa : Bool
  pub failed_login_attempts : ℕ
  pub locked_until : Option ℕ

pub record CreateUserDto : Type 0 where
  pub email : Text
  pub password_hash : ℕ
  pub first_name : Text
  pub last_name : Text
  pub role : Option UserRole

-- `locked_until` has a second `Option` for the `null` that clears the lock.
pub record UpdateUserDto : Type 0 where
  pub first_name : Option Text
  pub last_name : Option Text
  pub is_email_verified : Option Bool
  pub kyc_status : Option KycStatus
  pub is_active : Option Bool
  pub require_2fa : Option Bool
  pub failed_login_attempts : Option ℕ
  pub locked_until : Option (Option ℕ)

pub record TermsAcceptance : Type 0 where
  pub user_id : ℕ
  pub version : Text

pub record State : Type 0 where
  pub users : List User
  pub acceptances : List TermsAcceptance
  pub registered : List (ℕ × Text)

-- `repository.save`: the row of that id is written over, or added.
abbrev pub save_row : User → List User → List User
save_row u [] = u ∷ []
save_row u (x ∷ xs) = if x.id == u.id then u ∷ xs else x ∷ save_row u xs

-- The unique index on the column `email`: no other row has it.
abbrev pub is_taken : User → List User → Bool
is_taken u us = any (λ x. not (x.id == u.id) && same_text x.email u.email) us

abbrev pub save : User → Action State User
save u = do
  throw_if (← get (λ s. is_taken u s.users)) (error database_fault)
  modify (λ s. record s { users = save_row u s.users })
  pure u

abbrev pub with_email : Text → List User → Option User
with_email email us = find (λ u. same_text u.email email) us

unfoldable pub find_by_email : Text → Action State (Option User)
find_by_email email = get (λ s. with_email email s.users)

unfoldable pub find_by_id : ℕ → Action State User
find_by_id id = do or_throw (← get (λ s. find (λ u. u.id == id) s.users)) (not_found user_not_found)

-- A new row, with the defaults of its columns.
abbrev pub new_user : ℕ → CreateUserDto → User
new_user id dto = record {
  id = id;
  email = dto.email;
  password_hash = dto.password_hash;
  first_name = dto.first_name;
  last_name = dto.last_name;
  role = or_else dto.role UserRole.user;
  is_email_verified = false;
  kyc_status = KycStatus.pending;
  is_active = true;
  preferred_language = codes "en";
  password_changed_at = none;
  require_2fa = false;
  failed_login_attempts = 0;
  locked_until = none;
}

unfoldable pub create : ℕ → CreateUserDto → Action State User
create id dto = do
  existing ← find_by_email dto.email
  throw_if (is_some existing) (conflict email_in_use)
  save (new_user id dto)

-- `Object.assign(user, dto)`
abbrev pub assign : UpdateUserDto → User → User
assign dto u = record u {
  first_name = or_else dto.first_name u.first_name;
  last_name = or_else dto.last_name u.last_name;
  is_email_verified = or_else dto.is_email_verified u.is_email_verified;
  kyc_status = or_else dto.kyc_status u.kyc_status;
  is_active = or_else dto.is_active u.is_active;
  require_2fa = or_else dto.require_2fa u.require_2fa;
  failed_login_attempts = or_else dto.failed_login_attempts u.failed_login_attempts;
  locked_until = or_else dto.locked_until u.locked_until;
}

-- A row is found by its id, changed and saved.
abbrev pub change : ℕ → (User → User) → Action State User
change id f = do found ← find_by_id id; save (f found)

unfoldable pub update : ℕ → UpdateUserDto → Action State User
update id dto = change id (assign dto)

abbrev pub with_password : (now hash : ℕ) → User → User
with_password now hash u = record u { password_hash = hash; password_changed_at = some now }

unfoldable pub update_password : (now id hash : ℕ) → Action State (Unit {0})
update_password now id hash = do change id (with_password now hash); pure tt

-- `address` is `deleted_${uuid}@deleted.invalid`.
abbrev pub anonymous : Text → User → User
anonymous address u = record u {
  email = address;
  first_name = codes "[deleted]";
  last_name = codes "[deleted]";
}

-- `softDelete` throws, as the entity has no column for the date of a deletion.
unfoldable pub delete_user : Text → ℕ → Action State (Unit {0})
delete_user address id = do change id (anonymous address); throw (error missing_delete_column)

unfoldable pub accept : Text → ℕ → Action State (Unit {0})
accept version owner = modify (λ s. record s {
  acceptances = s.acceptances ++ record { user_id = owner; version = version } ∷ [];
})

unfoldable pub ensure_accepted : Text → ℕ → Action State (Unit {0})
ensure_accepted version owner = do
  accepted ←
      get (λ s. find (λ a. (a.user_id == owner) && same_text a.version version) s.acceptances)
  throw_if (not (is_some accepted)) (forbidden terms_not_accepted)

-- The claims that `issueToken` signs.
pub record Claims : Type 0 where
  pub sub : ℕ
  pub email : Text
  pub role : UserRole

unfoldable pub issue_token : ℕ → Text → UserRole → Claims
issue_token owner email role = record { sub = owner; email = email; role = role }

pub record RegisterDto : Type 0 where
  pub email : Text
  pub password : ℕ
  pub first_name : Text
  pub last_name : Text

unfoldable pub register :
    (hash_password : ℕ → ℕ) (version : Text) → ℕ → RegisterDto → Action State Claims
register hash_password version id dto = do
  u ← create id (record {
    email = dto.email;
    password_hash = hash_password dto.password;
    first_name = dto.first_name;
    last_name = dto.last_name;
    role = none;
  })
  accept version u.id
  modify (λ s. record s { registered = s.registered ++ (u.id, u.email) ∷ [] })
  pure (issue_token u.id u.email u.role)
