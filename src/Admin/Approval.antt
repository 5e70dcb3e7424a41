-- ===== src/Admin/Approval.antt =====
-- `requestAdminApproval` and `approveAdminRequest` of src/admin/admin.service.ts: who approves what,
-- and how often.
use nexa_fx_js.Base.{
  ℕ, ◌≡◌, refl, ap, ◌∙◌, Bool, false, none, some, List, [], ◌∷◌, ◌==◌, find, holds_of_find, ==_iff,
  All, arith, inl, inr, Option-cases, Bool-cases,
}
use nexa_fx_js.Base.Action.{Result, ok, err, error, approval_not_pending, pure, after}
use nexa_fx_js.Transactions.Data.{TransactionStatus}
use nexa_fx_js.Admin.{
  State, Request, override_requested, status_requested, other, AdminApproval, AdminApprovalStatus,
  save, is_pending, override_transaction_status, update_user_status, update_user_role,
  update_spread, impersonate_user, request_admin_approval, execute, grant, approve_admin_request,
  Call, overrides, sets_status, sets_role, sets_spread, impersonates, requests, approves, step, run,
}

abbrev pub ReviewedAs : AdminApprovalStatus → AdminApproval → Type 0
ReviewedAs AdminApprovalStatus.pending a = a.approved_by ≡ none
ReviewedAs AdminApprovalStatus.approved a =
    (by : ℕ) × (a.approved_by ≡ some by) × ¬ (a.requested_by ≡ by)
ReviewedAs AdminApprovalStatus.rejected a = a.approved_by ≡ none

-- Nobody yet has approved what waits, and another than its requester what is approved.
abbrev pub IsReviewed : AdminApproval → Type 0
IsReviewed a = ReviewedAs a.status a

all_save :
    (P : AdminApproval → Type 0) (x : AdminApproval) (xs : List AdminApproval)
    → P x
    → All P xs
    → All P (save (λ a. a.id) x xs)
all_save P x [] h k = (h, tt)
all_save P x (y ∷ ys) h (k, ks) = elim (Bool-cases (y.id == x.id)) [
  | inl hit ↦ rw (hit) (h, ks)
  | inr miss ↦ rw (miss) (k, all_save P x ys h ks)
]

find-save :
    (id : ℕ) (x : AdminApproval) (xs : List AdminApproval)
    → x.id ≡ id
    → find (λ a. a.id == id) (save (λ a. a.id) x xs) ≡ some x
find-save id x [] h = ground arith
find-save id x (y ∷ ys) h = ground (arith, find-save id x ys h)

after_same :
    {A B : Type 0} (approvals : List AdminApproval) (b : B) (r : Result A × State)
    → r.1.approvals ≡ approvals
    → (after (λ _. pure b) r).1.approvals ≡ approvals
after_same approvals b (ok a, t) h = h
after_same approvals b (err e, t) h = h

module _ (s : State) where
  override_same :
      (id : ℕ) (status : TransactionStatus) (by : ℕ) (reason : _)
      → (override_transaction_status id status by reason s).1.approvals ≡ s.approvals
  unfolding override_transaction_status
  override_same id status by reason = elim (Option-cases (find (λ t. t.id == id) s.transactions)) [
    | inl missing ↦ rw (missing) refl
    | inr (t, found) ↦ rw (found) refl
  ]

  status_same :
      (id : ℕ) (is_active : Bool) (by : ℕ) (reason : _)
      → (update_user_status id is_active by reason s).1.approvals ≡ s.approvals
  unfolding update_user_status
  status_same id is_active by reason = elim (Option-cases (find (λ u. u.id == id) s.users)) [
    | inl missing ↦ rw (missing) refl
    | inr (u, found) ↦ rw (found) refl
  ]

  role_same :
      (id : ℕ) (role : _) (by : ℕ) (reason : _)
      → (update_user_role id role by reason s).1.approvals ≡ s.approvals
  unfolding update_user_role
  role_same id role by reason = elim (Option-cases (find (λ u. u.id == id) s.users)) [
    | inl missing ↦ rw (missing) refl
    | inr (u, found) ↦ rw (found) refl
  ]

  impersonate_same : (id by : ℕ) → (impersonate_user id by s).1.approvals ≡ s.approvals
  unfolding impersonate_user
  impersonate_same id by = elim (Option-cases (find (λ u. u.id == id) s.users)) [
    | inl missing ↦ rw (missing) refl
    | inr (u, found) ↦ rw (found) refl
  ]

  execute_same : (r : Request) (by : ℕ) → (execute r by s).1.approvals ≡ s.approvals
  unfolding execute
  execute_same (override_requested id status reason) by =
      after_same s.approvals tt (override_transaction_status id status by reason s)
        (override_same id status by reason)
  execute_same (status_requested id is_active reason) by =
      after_same s.approvals tt (update_user_status id is_active by reason s)
        (status_same id is_active by reason)
  execute_same (other name) by = refl

abbrev pub approved_form : AdminApproval → ℕ → AdminApproval
approved_form a by = record a { approved_by = some by; status = AdminApprovalStatus.approved }

module _ (s : State) where
  grant_approvals :
      (a : AdminApproval) (by : ℕ)
      → (grant a by s).1.approvals ≡ save (λ r. r.id) (approved_form a by) s.approvals
  unfolding grant
  grant_approvals a by =
      let t = record s { approvals = save (λ r. r.id) (approved_form a by) s.approvals } in
      after_same t.approvals (approved_form a by) (execute a.action by t)
        (execute_same t a.action by)

  module _ (id by : ℕ) where
    approve-IsReviewed :
        All IsReviewed s.approvals → All IsReviewed (approve_admin_request id by s).1.approvals
    unfolding approve_admin_request
    approve-IsReviewed v = elim (Option-cases (find (λ a. a.id == id) s.approvals)) [
      | inl missing ↦ rw (missing) v
      | inr (a, found) ↦ rw (found) elim (Bool-cases (is_pending a.status)) [
        | inr closed ↦ rw (closed) v
        | inl waiting ↦ rw (waiting) elim (Bool-cases (a.requested_by == by)) [
          | inl own ↦ rw (own) v
          | inr another ↦
              rw (another, grant_approvals a by)
                (all_save IsReviewed (approved_form a by) s.approvals (by, refl, ground arith) v)
        ]
      ]
    ]

    approve_granted :
        (a : AdminApproval)
        → find (λ r. r.id == id) s.approvals ≡ some a
        → a.status ≡ AdminApprovalStatus.pending
        → ¬ (a.requested_by ≡ by)
        → approve_admin_request id by s ≡ grant a by s
    unfolding approve_admin_request
    approve_granted a found waiting another =
        let e : (a.requested_by == by) ≡ false = ground arith in rw (found, waiting, e) refl

approve_refused :
    (t : State) (id by : ℕ) (a : AdminApproval)
    → find (λ r. r.id == id) t.approvals ≡ some a
    → is_pending a.status ≡ false
    → approve_admin_request id by t ≡ (err (error approval_not_pending), t)
unfolding approve_admin_request
approve_refused t id by a found closed = rw (found, closed) refl

-- An approval that waits, once another administrator than its requester has approved it, is stored
-- as approved by that administrator, also when the action that it stands for then throws; and
-- whoever approves it again, on the state that is left, is refused, and changes nothing.
pub approved_once :
    (s : State) (id by later : ℕ) (a : AdminApproval)
    → find (λ r. r.id == id) s.approvals ≡ some a
    → a.status ≡ AdminApprovalStatus.pending
    → ¬ (a.requested_by ≡ by)
    → let t = (approve_admin_request id by s).1 in
      (find (λ r. r.id == id) t.approvals ≡ some (approved_form a by))
      × (approve_admin_request id later t ≡ (err (error approval_not_pending), t))
approved_once s id by later a found waiting another =
    let t = (approve_admin_request id by s).1 in
    let rows : t.approvals ≡ save (λ r. r.id) (approved_form a by) s.approvals =
      ap (λ r. r.1.approvals) (approve_granted s id by a found waiting another)
      ∙ grant_approvals s a by in
    let stored : find (λ r. r.id == id) t.approvals ≡ some (approved_form a by) =
      ap (find (λ r. r.id == id)) rows
      ∙ find-save id (approved_form a by) s.approvals
          ((==_iff a.id id).0 (holds_of_find (λ r. r.id == id) s.approvals a found)) in
    (stored, approve_refused t id later (approved_form a by) stored refl)

step-IsReviewed :
    (s : State) (c : Call) → All IsReviewed s.approvals → All IsReviewed (step s c).approvals
unfolding step request_admin_approval update_spread
step-IsReviewed s (overrides id status by reason) v = rw (override_same s id status by reason) v
step-IsReviewed s (sets_status id is_active by reason) v =
    rw (status_same s id is_active by reason) v
step-IsReviewed s (sets_role id role by reason) v = rw (role_same s id role by reason) v
step-IsReviewed s (sets_spread pair spread by) v = v
step-IsReviewed s (impersonates id by) v = rw (impersonate_same s id by) v
step-IsReviewed s (requests id action by) v = all_save IsReviewed _ s.approvals refl v
step-IsReviewed s (approves id by) v = approve-IsReviewed s id by v

-- After any sequence of calls, from approvals where it holds, each approval that is approved names
-- an approver who did not request it, and each that waits or was rejected names none.
pub run-IsReviewed :
    (s : State) (cs : List Call) → All IsReviewed s.approvals → All IsReviewed (run s cs).approvals
unfolding run
run-IsReviewed s [] v = v
run-IsReviewed s (c ∷ cs) v = run-IsReviewed (step s c) cs (step-IsReviewed s c v)
