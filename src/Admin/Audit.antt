-- ===== src/Admin/Audit.antt =====
-- What the audit entries of src/admin/admin.service.ts tell of the rows they are about.
use nexa_fx_js.Base.{
  ℕ, ◌≡◌, refl, sym, ap, ◌∙◌, Bool, true, false, Option, some, List, [], ◌∷◌, ◌++◌, ◌==◌, find, map,
  Text, inl, inr, Option-cases, Bool-cases,
}
use Prim.Native.String.{String}
use nexa_fx_js.Base.Int.{ℤ}
use nexa_fx_js.Base.Action.{Result, ok, err, after, pure}
use nexa_fx_js.Currencies.{to_upper}
use nexa_fx_js.Transactions.Data.{Transaction, TransactionStatus}
use nexa_fx_js.Admin.{
  UserRole, User, State, Request, override_requested, status_requested, other,
  override_transaction_status, update_user_status, AdminApproval, AuditEntry, status_override,
  spread_updated, impersonated, save, view_transaction, view_user, update_user_role, update_spread,
  impersonate_user, request_admin_approval, is_pending, execute, approve_admin_request,
  AdminApprovalStatus, grant, Call, overrides, sets_status, sets_role, sets_spread, impersonates,
  requests, approves, step, run,
}
use nexa_fx_js.Admin.Replay.{
  Books, books, change_first, save-change_first, restore_transaction, restore_user, redo, replay,
  IsTraced, IsTraced-same, IsTraced-trans, same_id,
}

after_kept :
    {A B : Type 0} (s : State) (b : B) (r : Result A × State)
    → IsTraced s r.1
    → IsTraced s (after (λ _. pure b) r).1
after_kept s b (ok a, t) h = h
after_kept s b (err e, t) h = h

module _ (s : State) where
  transaction_changed :
      (id by : ℕ) (t : Transaction) (status : TransactionStatus) (reason : Option String)
      → find (λ r. r.id == id) s.transactions ≡ some t
      → IsTraced s (record s {
        transactions = save (λ r. r.id) (record t { status = status }) s.transactions;
        audit =
            s.audit
            ++ status_override by id
                (view_transaction t)
                (view_transaction (record t { status = status }))
                reason
              ∷ [];
      })
  unfolding replay redo
  transaction_changed id by t status reason found = record {
    added =
        status_override by id (view_transaction t) (view_transaction (record t { status = status }))
          reason
        ∷ [];
    log = refl;
    result =
        ap (λ ts. record (books s) { transactions = ts })
          (save-change_first (λ r. r.id) id
            (restore_transaction (view_transaction (record t { status = status }))) t s.transactions
            found (same_id (λ r. r.id) id s.transactions t found));
  }

  user_changed :
      (id : ℕ) (u v : User) (e : AuditEntry)
      → ((b : Books)
          → redo e b
            ≡ record b { users = change_first (λ r. r.id) id (restore_user (view_user v)) b.users })
      → find (λ r. r.id == id) s.users ≡ some u
      → restore_user (view_user v) u ≡ v
      → IsTraced s (record s { users = save (λ r. r.id) v s.users; audit = s.audit ++ e ∷ [] })
  unfolding replay
  user_changed id u v e redone found same = record {
    added = e ∷ [];
    log = refl;
    result =
        ap (λ r. record (books s) { users = save (λ r. r.id) r s.users }) (sym same)
        ∙ ap (λ us. record (books s) { users = us })
            (save-change_first (λ r. r.id) id (restore_user (view_user v)) u s.users found
              (same_id (λ r. r.id) id s.users u found))
        ∙ sym (redone (books s));
  }

  override-IsTraced :
      (id : ℕ) (status : TransactionStatus) (by : ℕ) (reason : Option String)
      → IsTraced s (override_transaction_status id status by reason s).1
  unfolding override_transaction_status
  override-IsTraced id status by reason =
      elim (Option-cases (find (λ t. t.id == id) s.transactions)) [
        | inl missing ↦ rw (missing) (IsTraced-same s s refl refl)
        | inr (t, found) ↦ rw (found) (transaction_changed id by t status reason found)
      ]

  status-IsTraced :
      (id : ℕ) (is_active : Bool) (by : ℕ) (reason : Option String)
      → IsTraced s (update_user_status id is_active by reason s).1
  unfolding update_user_status redo
  status-IsTraced id true by reason = elim (Option-cases (find (λ u. u.id == id) s.users)) [
    | inl missing ↦ rw (missing) (IsTraced-same s s refl refl)
    | inr (u, found) ↦
        rw (found) (user_changed id u (record u { is_active = true }) _ (λ b. refl) found refl)
  ]
  status-IsTraced id false by reason = elim (Option-cases (find (λ u. u.id == id) s.users)) [
    | inl missing ↦ rw (missing) (IsTraced-same s s refl refl)
    | inr (u, found) ↦
        rw (found) (user_changed id u (record u { is_active = false }) _ (λ b. refl) found refl)
  ]

  role-IsTraced :
      (id : ℕ) (role : UserRole) (by : ℕ) (reason : Option String)
      → IsTraced s (update_user_role id role by reason s).1
  unfolding update_user_role redo
  role-IsTraced id role by reason = elim (Option-cases (find (λ u. u.id == id) s.users)) [
    | inl missing ↦ rw (missing) (IsTraced-same s s refl refl)
    | inr (u, found) ↦
        rw (found) (user_changed id u (record u { role = role }) _ (λ b. refl) found refl)
  ]

  spread-IsTraced :
      (pair : Text) (spread : ℤ) (by : ℕ) → IsTraced s (update_spread pair spread by s).1
  unfolding update_spread redo replay
  spread-IsTraced pair spread by = record {
    added = spread_updated by (map to_upper pair) spread ∷ [];
    log = refl;
    result = refl;
  }

  impersonate-IsTraced : (id by : ℕ) → IsTraced s (impersonate_user id by s).1
  unfolding impersonate_user redo replay
  impersonate-IsTraced id by = elim (Option-cases (find (λ u. u.id == id) s.users)) [
    | inl missing ↦ rw (missing) (IsTraced-same s s refl refl)
    | inr (u, found) ↦
        rw (found) (record { added = impersonated by id u.email ∷ []; log = refl; result = refl })
  ]

  execute-IsTraced : (r : Request) (by : ℕ) → IsTraced s (execute r by s).1
  unfolding execute
  execute-IsTraced (override_requested id status reason) by =
      after_kept s tt (override_transaction_status id status by reason s)
        (override-IsTraced id status by reason)
  execute-IsTraced (status_requested id is_active reason) by =
      after_kept s tt (update_user_status id is_active by reason s)
        (status-IsTraced id is_active by reason)
  execute-IsTraced (other name) by = IsTraced-same s s refl refl

pub grant-IsTraced : (s : State) (a : AdminApproval) (by : ℕ) → IsTraced s (grant a by s).1
unfolding grant
grant-IsTraced s a by =
    let saved = record a { approved_by = some by; status = AdminApprovalStatus.approved } in
    let t = record s { approvals = save (λ r. r.id) saved s.approvals } in
    after_kept s saved (execute a.action by t)
      (IsTraced-trans s t _ (IsTraced-same s t refl refl) (execute-IsTraced t a.action by))

module _ (s : State) where
  approve-IsTraced : (id by : ℕ) → IsTraced s (approve_admin_request id by s).1
  unfolding approve_admin_request
  approve-IsTraced id by = elim (Option-cases (find (λ a. a.id == id) s.approvals)) [
    | inl missing ↦ rw (missing) (IsTraced-same s s refl refl)
    | inr (a, found) ↦ rw (found) elim (Bool-cases (is_pending a.status)) [
      | inr closed ↦ rw (closed) (IsTraced-same s s refl refl)
      | inl waiting ↦ rw (waiting) elim (Bool-cases (a.requested_by == by)) [
        | inl own ↦ rw (own) (IsTraced-same s s refl refl)
        | inr another ↦ rw (another) (grant-IsTraced s a by)
      ]
    ]
  ]

  step-IsTraced : (c : Call) → IsTraced s (step s c)
  unfolding step request_admin_approval
  step-IsTraced (overrides id status by reason) = override-IsTraced s id status by reason
  step-IsTraced (sets_status id is_active by reason) = status-IsTraced s id is_active by reason
  step-IsTraced (sets_role id role by reason) = role-IsTraced s id role by reason
  step-IsTraced (sets_spread pair spread by) = spread-IsTraced s pair spread by
  step-IsTraced (impersonates id by) = impersonate-IsTraced s id by
  step-IsTraced (requests id action by) = IsTraced-same s _ refl refl
  step-IsTraced (approves id by) = approve-IsTraced id by

-- Any sequence of calls of administrators, of which some may fail, only appends to the audit log,
-- and the entries that it appended, redone in their order on the transactions, users and spreads
-- from before, give those from after it.
pub run-IsTraced : (s : State) (cs : List Call) → IsTraced s (run s cs)
unfolding run
run-IsTraced s [] = IsTraced-same s s refl refl
run-IsTraced s (c ∷ cs) =
    IsTraced-trans s (step s c) _ (step-IsTraced s c) (run-IsTraced (step s c) cs)
