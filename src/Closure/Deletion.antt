-- ===== src/Closure/Deletion.antt =====
-- src/users/services/account-deletion.service.ts over the rows of user-account.entity.ts, the
-- refresh tokens, the referrals and the audit log. The rate alerts are the list of the users that
-- their rows belong to. A body that throws would be rolled back; none of its steps does.
pub mod Deleted
use nexa_fx_js.Base.{
  ℕ, Bool, true, false, not, Option, none, some, List, [], ◌∷◌, ◌==◌, if◌then◌else◌, find, filter,
  update_where, map, Text, codes,
}
use nexa_fx_js.Base.Action.{
  Action, Result, ok, err, unauthorized, account_not_found, ◌>>=◌, ◌>>◌, get, pure, or_throw,
  modify,
}
use nexa_fx_js.Closure.{UserAccount}
use nexa_fx_js.Referral.{Referral}
use nexa_fx_js.Tokens.{Tokens, revoke_user_tokens}

-- A row of audit-log.entity.ts; the JSON of `before` and `after` is its text.
pub record AuditRow : Type 0 where
  pub id : ℕ
  pub user_id : Option ℕ
  pub action : Text
  pub entity_type : Text
  pub entity_id : Option Text
  pub before : Option Text
  pub after : Option Text
  pub reason : Option Text
  pub ip_address : Option Text
  pub user_agent : Option Text
  pub created_at : ℕ

pub record State : Type 0 where
  pub accounts : List UserAccount
  pub tokens : Tokens
  pub referrals : List Referral
  pub audit : List AuditRow
  pub rate_alerts : List ℕ

pub record DeletionResult : Type 0 where
  pub deleted_at : ℕ

-- A row without a user is nobody's.
abbrev pub is_user : ℕ → Option ℕ → Bool
is_user user none = false
is_user user (some id) = id == user

-- `update({ userId }, { userId: null, reason: 'account-deleted' })`
abbrev pub anonymise : ℕ → AuditRow → AuditRow
anonymise user e =
    if is_user user e.user_id
    then record e { user_id = none; reason = some (codes "account-deleted") }
    else e

abbrev pub deleted_row : (now : ℕ) → UserAccount → UserAccount
deleted_row now a = record a { deleted_at = some now; is_active = false }

unfoldable pub delete_account : (now user : ℕ) → Action State DeletionResult
delete_account now user = do
  account ←
      or_throw (← get (λ s. find (λ a. a.id == user) s.accounts)) (unauthorized account_not_found)
  modify (λ s. record s { tokens = revoke_user_tokens now user s.tokens })
  modify (λ s. record s { referrals = filter (λ r. not (r.referred_id == user)) s.referrals })
  modify (λ s. record s { referrals = filter (λ r. not (r.referrer_id == user)) s.referrals })
  modify (λ s. record s { audit = map (anonymise user) s.audit })
  modify (λ s. record s { rate_alerts = filter (λ u. not (u == user)) s.rate_alerts })
  modify (λ s. record s {
    accounts = update_where (λ a. a.id == account.id) (λ _. deleted_row now account) s.accounts;
  })
  pure (record { deleted_at = now })
