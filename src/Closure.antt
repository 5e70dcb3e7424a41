-- ===== src/Closure.antt =====
-- src/users/account-closure.service.ts and account-closure.purge.job.ts, over the rows of
-- user-account.entity.ts, the wallets and the refresh tokens. Parameters: the check of the access
-- token, the hash of a password with a salt, the HMAC and `setFullYear`. The closed account keeps its
-- row. Texts that are only compared or stored are numbers.
pub mod TwoFactor
pub mod Closed
pub mod Purge
pub mod Deletion
use nexa_fx_js.Base.{
  ℕ, ◌+◌, Bool, true, false, not, ◌&&◌, ◌||◌, Option, none, some, List, [], ◌∷◌, ◌++◌, ◌==◌, leb,
  if◌then◌else◌, find, any, filter, update_where, Text,
}
use nexa_fx_js.Base.Action.{
  Action, Result, ok, err, Error, unauthorized, unprocessable, two_factor_wrong, password_wrong,
  confirmation_required, invalid_access_token, account_not_found, balance_not_zero, ◌>>=◌, ◌>>◌,
  get, pure, throw_if, or_throw, modify,
}
use nexa_fx_js.Wallets.{Wallet, Wallets, is_zero, get_balances_for_account}
use nexa_fx_js.Tokens.{Tokens, revoke_user_tokens}
use nexa_fx_js.Closure.TwoFactor.{is_two_factor_code_valid}

pub data Email : Type 0 where
  address : ℕ → Email
  -- `deleted-${id}@archived.local`
  archived : ℕ → Email

pub record UserAccount : Type 0 where
  pub id : ℕ
  pub email : Email
  -- `none` is the name 'Deleted User'
  pub display_name : Option ℕ
  pub password_salt : ℕ
  pub password_hash : ℕ
  pub two_factor_secret : ℕ
  pub is_active : Bool
  pub deleted_at : Option ℕ
  pub closed_at : Option ℕ
  pub pii_purge_at : Option ℕ
  pub pii_purged_at : Option ℕ
  pub final_email_sent_at : Option ℕ

pub record State : Type 0 where
  pub accounts : List UserAccount
  pub wallets : Wallets
  pub tokens : Tokens

-- The code that is not the service's.
pub record Crypto : Type 0 where
  -- the subject of an access token that verifies
  pub verify : ℕ → Option ℕ
  pub hash_password : (password : Text) → (salt : ℕ) → ℕ
  pub hmac : (secret window : ℕ) → List ℕ
  -- `setFullYear(getFullYear() + 7)`
  pub add_retention : ℕ → ℕ

pub record Request : Type 0 where
  pub access_token : ℕ
  pub current_password : Text
  pub two_factor_code : Text

pub record AccountClosureResult : Type 0 where
  pub deleted_at : ℕ
  pub pii_purge_at : ℕ

abbrev pub is_blank : Text → Bool
is_blank [] = true
is_blank (c ∷ cs) = false

abbrev pub account_of : ℕ → State → Option UserAccount
account_of id s = find (λ (a : UserAccount). a.id == id) s.accounts

unfoldable pub find_active_account_by_id : ℕ → State → Option UserAccount
find_active_account_by_id id s = find (λ (a : UserAccount). (a.id == id) && a.is_active) s.accounts

unfoldable pub save_account : UserAccount → State → State
save_account a s = record s {
  accounts = update_where (λ (r : UserAccount). r.id == a.id) (λ _. a) s.accounts;
}

unfoldable pub has_funds : ℕ → State → Bool
has_funds account s =
    any (λ (w : Wallet). not (is_zero w.balance)) (get_balances_for_account account s.wallets)

abbrev pub close : (now purge_at : ℕ) → UserAccount → UserAccount
close now purge_at a = record a {
  is_active = false;
  deleted_at = some now;
  closed_at = some now;
  pii_purge_at = some purge_at;
}

-- The mail, and the time of it if it was sent.
unfoldable pub confirm : (mail_up : Bool) → ℕ → UserAccount → State → State
confirm mail_up now a s =
    if mail_up then save_account (record a { final_email_sent_at = some now }) s else s

unfoldable pub close_row :
    Crypto → (mail_up : Bool) → ℕ → UserAccount → Action State AccountClosureResult
close_row crypto mail_up now a = do
  modify (save_account (close now (crypto.add_retention now) a))
  modify (λ (s : State). record s { tokens = revoke_user_tokens now a.id s.tokens })
  modify (confirm mail_up now (close now (crypto.add_retention now) a))
  pure (record { deleted_at = now; pii_purge_at = crypto.add_retention now })

-- `assertPassword`, `assertTwoFactorCode`, `assertZeroBalance`, then the writes.
unfoldable pub check_and_close :
    Crypto → (mail_up : Bool) → ℕ → Request → UserAccount → Action State AccountClosureResult
check_and_close crypto mail_up now request a = do
  throw_if (not a.is_active) (unauthorized account_not_found)
  throw_if (not (crypto.hash_password request.current_password a.password_salt == a.password_hash))
      (unauthorized password_wrong)
  throw_if
      (not (is_two_factor_code_valid crypto.hmac now a.two_factor_secret request.two_factor_code))
      (unauthorized two_factor_wrong)
  funds ← get (has_funds a.id)
  throw_if funds (unprocessable balance_not_zero)
  close_row crypto mail_up now a

unfoldable pub close_account :
    Crypto → (mail_up : Bool) → ℕ → Request → Action State AccountClosureResult
close_account crypto mail_up now request = do
  throw_if (is_blank request.current_password || is_blank request.two_factor_code)
      (unauthorized confirmation_required)
  sub ← or_throw (crypto.verify request.access_token) (unauthorized invalid_access_token)
  row ← get (account_of sub)
  a ← or_throw row (unauthorized account_not_found)
  check_and_close crypto mail_up now request a

pub record CreateAccount : Type 0 where
  pub id : ℕ
  pub email : ℕ
  pub display_name : ℕ
  pub password : Text
  -- what `randomBytes` gives, and the secret of the call if it has one
  pub salt : ℕ
  pub secret : ℕ

abbrev pub new_account : Crypto → CreateAccount → UserAccount
new_account crypto input = record {
  id = input.id;
  email = address input.email;
  display_name = some input.display_name;
  password_salt = input.salt;
  password_hash = crypto.hash_password input.password input.salt;
  two_factor_secret = input.secret;
  is_active = true;
  deleted_at = none;
  closed_at = none;
  pii_purge_at = none;
  pii_purged_at = none;
  final_email_sent_at = none;
}

unfoldable pub create_account : Crypto → CreateAccount → Action State UserAccount
create_account crypto input = do
  modify (λ (s : State). record s { accounts = s.accounts ++ new_account crypto input ∷ [] })
  pure (new_account crypto input)

-- The purge job. The random texts of a row are drawn for its id.
pub record Noise : Type 0 where
  pub salt : ℕ → ℕ
  pub secret : ℕ → ℕ
  -- the SHA-256 of the id
  pub hash : ℕ → ℕ

abbrev pub is_purge_due : ℕ → UserAccount → Bool
is_purge_due now a =
    elim a.pii_purge_at [ none ↦ false | some at ↦ leb at now ]
    && elim a.pii_purged_at [ none ↦ true | some at ↦ false ]

abbrev pub purge_row : Noise → ℕ → UserAccount → UserAccount
purge_row noise now a = record a {
  email = archived a.id;
  display_name = none;
  password_salt = noise.salt a.id;
  password_hash = noise.hash a.id;
  two_factor_secret = noise.secret a.id;
  pii_purged_at = some now;
}

unfoldable pub purge_all : Noise → ℕ → List UserAccount → State → State
purge_all noise now [] s = s
purge_all noise now (a ∷ rows) s = purge_all noise now rows (save_account (purge_row noise now a) s)

unfoldable pub purge_expired_personal_data : Noise → ℕ → State → State
purge_expired_personal_data noise now s =
    purge_all noise now (filter (is_purge_due now) s.accounts) s
