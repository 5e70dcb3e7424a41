-- ===== src/Disputes.antt =====
-- src/disputes/disputes.service.ts: the disputes of `entities/dispute.entity.ts` with their messages,
-- and those of `dispute.entity.ts` on completed transactions.
pub mod Laws
use Prim.Native.String.{String}
use nexa_fx_js.Base.{
  ℕ, ◌+◌, ◌-◌, ◌*◌, ◌/◌, Bool, true, false, ◌&&◌, ◌||◌, not, Option, none, some, List, [], ◌∷◌,
  ◌++◌, ◌==◌, ltb, if◌then◌else◌, find, filter, update_where, length, is_some, or_else,
}
use nexa_fx_js.Base.Action.{
  Action, Result, ok, err, Error, bad_request, not_found, error, dispute_not_found, dispute_closed,
  not_completed, transaction_not_found, ◌>>=◌, ◌>>◌, get, pure, throw_if, or_throw, modify,
}
use nexa_fx_js.Transactions.Data.{Transaction, TransactionStatus, completed, find_row}

pub data CaseStatus : Type 0 where
  opened escalated resolved rejected : CaseStatus

pub record Case : Type 0 where
  pub id : ℕ
  pub user_id : ℕ
  pub transaction_id : ℕ
  pub reason : String
  pub description : Option String
  pub status : CaseStatus
  pub escalation_level : ℕ
  pub assigned_to : Option ℕ
  pub resolved_at : Option ℕ

pub data SenderRole : Type 0 where
  by_user by_admin : SenderRole

-- The text of a message: what a person wrote, or the note of an escalation to a level.
pub data MessageText : Type 0 where
  written : String → MessageText
  escalated_to : ℕ → MessageText

pub record Message : Type 0 where
  pub dispute_id : ℕ
  pub sender_id : ℕ
  pub sender_role : SenderRole
  pub message : MessageText

pub data DisputeStatus : Type 0 where
  opened under_review resolved rejected : DisputeStatus

pub record Dispute : Type 0 where
  pub id : ℕ
  pub transaction_id : ℕ
  pub user_id : ℕ
  pub reason : String
  pub status : DisputeStatus
  pub resolution : Option String
  pub resolved_at : Option ℕ
  pub created_at : ℕ

pub data Event : Type 0 where
  filed escalated resolved rejected opened updated auto_closed : ℕ → Event

pub record State : Type 0 where
  pub cases : List Case
  pub messages : List Message
  pub disputes : List Dispute
  pub transactions : List Transaction
  pub events : List Event
  pub next_id : ℕ

abbrev pub emit : Event → Action State (Unit {0})
emit e = modify (λ s. record s { events = s.events ++ e ∷ [] })

abbrev pub save_case : Case → Action State (Unit {0})
save_case c = modify (λ s. record s { cases = update_where (λ r. r.id == c.id) (λ _. c) s.cases })

abbrev pub write_message : Message → Action State (Unit {0})
write_message m = modify (λ s. record s { messages = s.messages ++ m ∷ [] })

-- `dto.description || dto.reason`
abbrev pub or_text : Option String → String → String
or_text none d = d
or_text (some String.[]) d = d
or_text (some t) d = t

unfoldable pub file_dispute : ℕ → ℕ → String → Option String → Action State Case
file_dispute user transaction reason description = do
  id ← get (λ s. s.next_id)
  let dispute : Case = record {
    id = id;
    user_id = user;
    transaction_id = transaction;
    reason = reason;
    description = description;
    status = CaseStatus.opened;
    escalation_level = 1;
    assigned_to = none;
    resolved_at = none;
  }
  modify (λ s. record s { cases = s.cases ++ dispute ∷ []; next_id = s.next_id + 1 })
  write_message (record {
    dispute_id = id;
    sender_id = user;
    sender_role = SenderRole.by_user;
    message = MessageText.written (or_text description reason);
  })
  emit (Event.filed id)
  pure dispute

-- Reads the case of that user, or of any, and throws if there is none.
abbrev pub case_of : ℕ → ℕ → Action State Case
case_of id user s =
    or_throw (find (λ c. (c.id == id) && (c.user_id == user)) s.cases) (not_found dispute_not_found)
      s

abbrev pub any_case : ℕ → Action State Case
any_case id s = or_throw (find (λ c. c.id == id) s.cases) (not_found dispute_not_found) s

abbrev pub is_closed : CaseStatus → Bool
is_closed CaseStatus.resolved = true
is_closed CaseStatus.rejected = true
is_closed _ = false

unfoldable pub escalate : ℕ → ℕ → Option ℕ → Action State Case
escalate id user assign_to = do
  case ← case_of id user
  throw_if (is_closed case.status) (error dispute_closed)
  let updated = record case {
    escalation_level = case.escalation_level + 1;
    status = CaseStatus.escalated;
    assigned_to = elim assign_to [ none ↦ case.assigned_to | some a ↦ some a ];
  }
  save_case updated
  write_message (record {
    dispute_id = id;
    sender_id = user;
    sender_role = SenderRole.by_user;
    message = MessageText.escalated_to updated.escalation_level;
  })
  emit (Event.escalated id)
  pure updated

unfoldable pub add_message : ℕ → ℕ → SenderRole → String → Action State Message
add_message id sender role text = do
  case ← any_case id
  let message : Message = record {
    dispute_id = id;
    sender_id = sender;
    sender_role = role;
    message = MessageText.written text;
  }
  write_message message
  pure message

unfoldable pub resolve : ℕ → ℕ → Action State Case
resolve now id = do
  case ← any_case id
  let updated = record case { status = CaseStatus.resolved; resolved_at = some now }
  save_case updated
  emit (Event.resolved id)
  pure updated

unfoldable pub reject : ℕ → ℕ → Action State Case
reject now id = do
  case ← any_case id
  let updated = record case { status = CaseStatus.rejected; resolved_at = some now }
  save_case updated
  emit (Event.rejected id)
  pure updated

abbrev pub is_completed : TransactionStatus → Bool
is_completed completed = true
is_completed _ = false

unfoldable pub open_dispute : ℕ → ℕ → ℕ → String → Action State Dispute
open_dispute now transaction user reason = do
  tx ← (λ s. or_throw (find_row transaction s.transactions) (not_found transaction_not_found) s)
  throw_if (not (is_completed tx.status)) (bad_request not_completed)
  id ← get (λ s. s.next_id)
  let dispute : Dispute = record {
    id = id;
    transaction_id = transaction;
    user_id = user;
    reason = reason;
    status = DisputeStatus.opened;
    resolution = none;
    resolved_at = none;
    created_at = now;
  }
  modify (λ s. record s { disputes = s.disputes ++ dispute ∷ []; next_id = s.next_id + 1 })
  emit (Event.opened id)
  pure dispute

unfoldable pub find_dispute_by_id : ℕ → Action State Dispute
find_dispute_by_id id s =
    or_throw (find (λ d. d.id == id) s.disputes) (not_found dispute_not_found) s

abbrev pub is_over : DisputeStatus → Bool
is_over DisputeStatus.resolved = true
is_over DisputeStatus.rejected = true
is_over _ = false

-- The status that a resolution gives: resolved or rejected.
abbrev pub verdict : Bool → DisputeStatus
verdict true = DisputeStatus.resolved
verdict false = DisputeStatus.rejected

unfoldable pub resolve_dispute : ℕ → ℕ → (in_favour : Bool) → String → Action State Dispute
resolve_dispute now id in_favour resolution = do
  dispute ← find_dispute_by_id id
  throw_if (is_over dispute.status) (bad_request dispute_closed)
  let saved = record dispute {
    status = verdict in_favour;
    resolution = some resolution;
    resolved_at = some now;
  }
  modify (λ s. record s { disputes = update_where (λ d. d.id == saved.id) (λ _. saved) s.disputes })
  emit (Event.updated saved.id)
  pure saved

-- 30 days in milliseconds.
abbrev pub stale_after : ℕ
stale_after = 30 * 24 * 60 * 60 * 1000

abbrev pub is_stale : ℕ → Dispute → Bool
is_stale now d = not (is_over d.status) && ltb (d.created_at + stale_after) now

abbrev pub auto_close : ℕ → Dispute → Dispute
auto_close now d = record d {
  status = DisputeStatus.resolved;
  resolution = some "Auto-closed after 30 days";
  resolved_at = some now;
}

abbrev pub closing_events : ℕ → List Dispute → List Event
closing_events now [] = []
closing_events now (d ∷ ds) =
    if is_stale now d then Event.auto_closed d.id ∷ closing_events now ds else closing_events now ds

unfoldable pub auto_close_stale_disputes : ℕ → State → State
auto_close_stale_disputes now s = record s {
  disputes = update_where (is_stale now) (auto_close now) s.disputes;
  events = s.events ++ closing_events now s.disputes;
}
