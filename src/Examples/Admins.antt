-- ===== src/Examples/Admins.antt =====
-- Two administrators, a user and a pending transaction.
use nexa_fx_js.Base.{
  ◌≡◌, refl, true, false, none, some, List, [], ◌∷◌, All, find, ◌==◌, codes, arith,
}
use nexa_fx_js.Base.Int.{pos}
use nexa_fx_js.Base.Action.{err, error, approval_not_pending}
use nexa_fx_js.Transactions.Data.{TransactionStatus, Metadata, new_row}
use nexa_fx_js.Admin.{
  State, User, UserRole, KycStatus, AdminApproval, AdminApprovalStatus, override_requested,
  approve_admin_request, Call, overrides, sets_status, sets_role, sets_spread, impersonates,
  requests, approves, run,
}
use nexa_fx_js.Admin.Audit.{run-IsTraced}
use nexa_fx_js.Admin.Replay.{IsTraced}
use nexa_fx_js.Admin.Approval.{IsReviewed, run-IsReviewed, approved_form, approved_once}
use nexa_fx_js.Examples.{usd}

abbrev eve : User
eve = record {
  id = 5;
  email = codes "eve@x";
  role = UserRole.user;
  kyc_status = KycStatus.pending;
  is_active = true;
}

-- Administrator 8 asks for a transaction that is not there to be cancelled.
abbrev asked : AdminApproval
asked = record {
  id = 3;
  action = override_requested 77 TransactionStatus.cancelled none;
  requested_by = 8;
  approved_by = none;
  status = AdminApprovalStatus.pending;
}

abbrev office : State
office = record {
  transactions = new_row 0 1 2 (pos 5) usd (pos 0) "rent" Metadata.plain ∷ [];
  users = eve ∷ [];
  approvals = asked ∷ [];
  spreads = [];
  audit = [];
}

abbrev day : List Call
day =
    overrides 0 TransactionStatus.completed 8 (some "paid in cash")
    ∷ sets_status 5 false 8 none
    ∷ requests 4 (override_requested 0 TransactionStatus.reversed none) 8
    ∷ approves 4 8
    ∷ approves 4 9
    ∷ sets_role 5 UserRole.compliance 9 none
    ∷ sets_spread (codes "usd/ngn") (pos 20) 9
    ∷ impersonates 5 9
    ∷ []

run-IsTraced_example : IsTraced office (run office day)
run-IsTraced_example = run-IsTraced office day

run-IsReviewed_example : All IsReviewed (run office day).approvals
run-IsReviewed_example = run-IsReviewed office day (refl, tt)

approved_once_example :
    (find (λ r. r.id == 3) (approve_admin_request 3 9 office).1.approvals
      ≡ some (approved_form asked 9))
    × (approve_admin_request 3 10 (approve_admin_request 3 9 office).1
        ≡ (err (error approval_not_pending), (approve_admin_request 3 9 office).1))
approved_once_example = approved_once office 3 9 10 asked refl refl (λ e. omega arith)
