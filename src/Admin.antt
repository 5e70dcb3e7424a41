-- ===== src/Admin.antt =====
-- src/admin/admin.service.ts with admin-approval.entity.ts: the changes that administrators make, the
-- audit entries that they leave, and the approvals. An `actionData` has the fields that its
-- `actionType` reads; an id that a table draws is an argument.
pub mod Approval
pub mod Audit
pub mod Replay
use Prim.Native.String.{String}
use nexa_fx_js.Base.{
  ℕ, Bool, true, false, not, Option, none, some, List, [], ◌∷◌, ◌++◌, ◌==◌, if◌then◌else◌, find,
  Text, same_text, map,
}
use nexa_fx_js.Base.Int.{ℤ}
use nexa_fx_js.Base.Action.{
  Action, Result, ok, err, not_found, error, transaction_not_found, user_not_found,
  approval_not_found, approval_not_pending, own_request, ◌>>=◌, ◌>>◌, get, pure, throw_if, or_throw,
  modify,
}
use nexa_fx_js.Currencies.{to_upper}
use nexa_fx_js.Transactions.Data.{Transaction, TransactionStatus}

pub data UserRole : Type 0 where
  admin user compliance : UserRole

pub data KycStatus : Type 0 where
  pending approved rejected : KycStatus

pub record User : Type 0 where
  pub id : ℕ
  pub email : Text
  pub role : UserRole
  pub kyc_status : KycStatus
  pub is_active : Bool

pub data AdminApprovalStatus : Type 0 where
  pending approved rejected : AdminApprovalStatus

-- `actionType` with its `actionData`.
pub data Request : Type 0 where
  override_requested : ℕ → TransactionStatus → Option String → Request
  status_requested : ℕ → Bool → Option String → Request
  other : String → Request

pub record AdminApproval : Type 0 where
  pub id : ℕ
  pub action : Request
  pub requested_by : ℕ
  pub approved_by : Option ℕ
  pub status : AdminApprovalStatus

-- The `before` and `after` of an audit entry.
pub record TransactionView : Type 0 where
  pub status : TransactionStatus
  pub amount : ℤ
  pub currency : Text
  pub sender_id : ℕ
  pub receiver_id : ℕ
  pub reference : String

pub record UserView : Type 0 where
  pub is_active : Bool
  pub role : UserRole
  pub kyc_status : KycStatus
  pub email : Text

-- The entries by their `action`, each with the administrator and the entity first.
pub data AuditEntry : Type 0 where
  status_override : ℕ → ℕ → TransactionView → TransactionView → Option String → AuditEntry
  activated suspended role_changed : ℕ → ℕ → UserView → UserView → Option String → AuditEntry
  spread_updated : ℕ → Text → ℤ → AuditEntry
  impersonated : ℕ → ℕ → Text → AuditEntry

-- A spread is counted in thousandths.
pub record State : Type 0 where
  pub transactions : List Transaction
  pub users : List User
  pub approvals : List AdminApproval
  pub spreads : List (Text × ℤ)
  pub audit : List AuditEntry

-- `repository.save`: the row of that id is written over, or added.
module _ {A : Type 0} (key : A → ℕ) where
  abbrev pub save : A → List A → List A
  save row [] = row ∷ []
  save row (x ∷ xs) = if key x == key row then row ∷ xs else x ∷ save row xs

-- `auditService.log`
abbrev pub log : AuditEntry → Action State (Unit {0})
log e = modify (λ s. record s { audit = s.audit ++ e ∷ [] })

abbrev pub view_transaction : Transaction → TransactionView
view_transaction t = record {
  status = t.status;
  amount = t.amount;
  currency = t.currency;
  sender_id = t.sender_id;
  receiver_id = t.receiver_id;
  reference = t.reference;
}

abbrev pub view_user : User → UserView
view_user u = record {
  is_active = u.is_active;
  role = u.role;
  kyc_status = u.kyc_status;
  email = u.email;
}

abbrev pub find_transaction : ℕ → Action State Transaction
find_transaction id = do
  or_throw (← get (λ s. find (λ t. t.id == id) s.transactions)) (not_found transaction_not_found)

abbrev pub find_user : ℕ → Action State User
find_user id = do or_throw (← get (λ s. find (λ u. u.id == id) s.users)) (not_found user_not_found)

abbrev pub save_transaction : Transaction → Action State (Unit {0})
save_transaction t = modify (λ s. record s { transactions = save (λ r. r.id) t s.transactions })

abbrev pub save_user : User → Action State (Unit {0})
save_user u = modify (λ s. record s { users = save (λ r. r.id) u s.users })

unfoldable pub override_transaction_status :
    ℕ → TransactionStatus → ℕ → Option String → Action State Transaction
override_transaction_status id new_status by reason = do
  transaction ← find_transaction id
  updated ← pure (record transaction { status = new_status })
  save_transaction updated
  log (status_override by id (view_transaction transaction) (view_transaction updated) reason)
  pure updated

unfoldable pub update_user_status : ℕ → Bool → ℕ → Option String → Action State User
update_user_status id is_active by reason = do
  found ← find_user id
  updated ← pure (record found { is_active = is_active })
  save_user updated
  log (
      (if is_active then activated else suspended) by id (view_user found) (view_user updated)
        reason)
  pure updated

unfoldable pub update_user_role : ℕ → UserRole → ℕ → Option String → Action State User
update_user_role id new_role by reason = do
  found ← find_user id
  updated ← pure (record found { role = new_role })
  save_user updated
  log (role_changed by id (view_user found) (view_user updated) reason)
  pure updated

-- `spreadsMap.set`
abbrev pub set_spread : Text → ℤ → List (Text × ℤ) → List (Text × ℤ)
set_spread pair spread [] = (pair, spread) ∷ []
set_spread pair spread ((p, x) ∷ rest) =
    if same_text p pair then (p, spread) ∷ rest else (p, x) ∷ set_spread pair spread rest

unfoldable pub update_spread : Text → ℤ → ℕ → Action State (Text × ℤ)
update_spread pair spread by = do
  modify (λ s. record s { spreads = set_spread (map to_upper pair) spread s.spreads })
  log (spread_updated by (map to_upper pair) spread)
  pure (map to_upper pair, spread)

-- The answer without the token's text, which spells the user's id.
unfoldable pub impersonate_user : ℕ → ℕ → Action State (ℕ × Text × ℕ)
impersonate_user id by = do
  found ← find_user id
  log (impersonated by id found.email)
  pure (found.id, found.email, by)

unfoldable pub request_admin_approval : ℕ → Request → ℕ → Action State AdminApproval
request_admin_approval id action by = do
  approval ← pure (record {
    id = id;
    action = action;
    requested_by = by;
    approved_by = none;
    status = AdminApprovalStatus.pending;
  })
  modify (λ s. record s { approvals = save (λ a. a.id) approval s.approvals })
  pure approval

abbrev pub is_pending : AdminApprovalStatus → Bool
is_pending AdminApprovalStatus.pending = true
is_pending _ = false

-- `Execute logic based on actionType`
unfoldable pub execute : Request → ℕ → Action State (Unit {0})
execute (override_requested id status reason) by = do
  override_transaction_status id status by reason
  pure tt
execute (status_requested id is_active reason) by = do
  update_user_status id is_active by reason
  pure tt
execute (other name) by = pure tt

-- What follows the guards of an approval.
unfoldable pub grant : AdminApproval → ℕ → Action State AdminApproval
grant approval by = do
  saved ← pure (record approval { status = AdminApprovalStatus.approved; approved_by = some by })
  modify (λ s. record s { approvals = save (λ a. a.id) saved s.approvals })
  execute saved.action by
  pure saved

unfoldable pub approve_admin_request : ℕ → ℕ → Action State AdminApproval
approve_admin_request id by = do
  found ← get (λ s. find (λ a. a.id == id) s.approvals)
  approval ← or_throw found (not_found approval_not_found)
  throw_if (not (is_pending approval.status)) (error approval_not_pending)
  throw_if (approval.requested_by == by) (error own_request)
  grant approval by

-- What an administrator may call.
pub data Call : Type 0 where
  overrides : ℕ → TransactionStatus → ℕ → Option String → Call
  sets_status : ℕ → Bool → ℕ → Option String → Call
  sets_role : ℕ → UserRole → ℕ → Option String → Call
  sets_spread : Text → ℤ → ℕ → Call
  impersonates : ℕ → ℕ → Call
  requests : ℕ → Request → ℕ → Call
  approves : ℕ → ℕ → Call

unfoldable pub step : State → Call → State
step s (overrides id status by reason) = (override_transaction_status id status by reason s).1
step s (sets_status id is_active by reason) = (update_user_status id is_active by reason s).1
step s (sets_role id role by reason) = (update_user_role id role by reason s).1
step s (sets_spread pair spread by) = (update_spread pair spread by s).1
step s (impersonates id by) = (impersonate_user id by s).1
step s (requests id action by) = (request_admin_approval id action by s).1
step s (approves id by) = (approve_admin_request id by s).1

unfoldable pub run : State → List Call → State
run s [] = s
run s (c ∷ cs) = run (step s c) cs
