-- ===== src/Transactions/Data.antt =====
-- The transaction row, the service's state, and the steps that several methods share.
use Prim.Native.String.{String}
pub mod Storable
use nexa_fx_js.Base.{
  ℕ, ◌+◌, ◌%◌, ◌&&◌, ◌||◌, any, same_text, codes, Bool, true, false, not, Option, none, some, List,
  [], ◌∷◌, ◌++◌, ◌==◌, if◌then◌else◌, find, Text, ◌≡◌, arith,
}
use nexa_fx_js.Base.Int.{ℤ}
use nexa_fx_js.Base.Action.{
  Action, Result, ok, err, forbidden, not_found, error, terms_not_accepted, transaction_not_found,
  database_fault, ◌>>=◌, get, throw_if, or_throw, modify,
}
use nexa_fx_js.Wallets.{Wallets}
use nexa_fx_js.Limits.{Limits, LimitConfig, check}

pub data TransactionStatus : Type 0 where
  pending completed failed reversed cancelled : TransactionStatus

-- The keys of the `metadata` that the service writes.
pub data Metadata : Type 0 where
  plain : Metadata
  internal_transfer : Text → Metadata
  withdrawal : String → Metadata
  swap : ℤ → Text → Metadata
  reversal : ℕ → String → Metadata

-- `NXF-year-sequence`, or the fallback `NXF-year-` with digits of the clock.
pub data Receipt : Type 0 where
  from_sequence from_clock : ℕ → ℕ → Receipt

pub record Transaction : Type 0 where
  pub id : ℕ
  pub sender_id : ℕ
  pub receiver_id : ℕ
  pub amount : ℤ
  pub currency : Text
  pub fee : ℤ
  pub status : TransactionStatus
  pub reference : String
  pub receipt_number : Option Receipt
  pub metadata : Metadata
  pub completed_at : Option ℕ
  pub reversed_at : Option ℕ
  pub reversed_by : Option ℕ
  pub reversal_reason : Option String
  pub reversal_transaction_id : Option ℕ
  pub retry_count : ℕ
  pub tag : Option String
  pub tags : Option (List String)

-- What the methods emit and log for others, in order.
pub data Event : Type 0 where
  transfer_completed withdrawal_completed swap_completed swap_failed : ℕ → Event
  transaction_cancelled cache_invalidated : ℕ → Event
  refund_audited : ℕ → ℤ → Event
  fee_recorded : ℕ → ℤ → Event
  reversal_notice : ℕ → ℕ → Event
  transaction_reversed : ℕ → ℕ → Event

pub record State : Type 0 where
  pub wallets : Wallets
  pub limits : Limits
  pub transactions : List Transaction
  pub events : List Event
  pub next_id : ℕ
  pub receipt_seq : ℕ

pub record Env : Type 0 where
  pub now : ℕ
  pub year : ℕ
  pub month : ℕ
  pub day : ℕ
  pub limit_config : LimitConfig
  pub convert : ℤ → Text → Result ℤ
  pub terms_accepted : ℕ → Bool
  pub is_deactivated : ℕ → Bool
  pub account_exists : String → Bool
  -- Is there a row of the user, as the foreign keys of a transaction's two parties ask?
  pub user_exists : ℕ → Bool
  pub sequence_up : Bool
  -- Does the k-th guarded step of the method reach the database or the network?
  pub debit_up : Bool
  pub credit_up : ℕ → Bool
  pub save_up : ℕ → Bool
  pub record_up : ℕ → Bool
  pub note_up : ℕ → Bool
  pub cache_up : Bool

-- An action of another service on its part of the state.
abbrev pub on_wallets : {A : Type 0} → Action Wallets A → Action State A
on_wallets m s = let (r, ws) = m s.wallets in (r, record s { wallets = ws })

abbrev pub on_limits : {A : Type 0} → Action Limits A → Action State A
on_limits m s = let (r, l) = m s.limits in (r, record s { limits = l })

-- A step that throws if it does not get through.
abbrev pub if_up : {S A : Type 0} → Bool → Action S A → Action S A
if_up true m = m
if_up false m = λ s. (err (error database_fault), s)

abbrev pub emit : Event → Action State (Unit {0})
emit e = modify (λ s. record s { events = s.events ++ e ∷ [] })

-- `txRepo.save`: the row of that id is written over, or added.
abbrev pub save_row : Transaction → List Transaction → List Transaction
save_row tx [] = tx ∷ []
save_row tx (t ∷ ts) = if t.id == tx.id then tx ∷ ts else t ∷ save_row tx ts

abbrev pub save : Transaction → Action State (Unit {0})
save tx = modify (λ s. record s { transactions = save_row tx s.transactions })

abbrev pub find_row : ℕ → List Transaction → Option Transaction
find_row id ts = find (λ t. t.id == id) ts

unfoldable pub find_by_id : ℕ → Action State Transaction
find_by_id id = do
  or_throw (← get (λ s. find_row id s.transactions)) (not_found transaction_not_found)

-- `termsService.ensureAccepted`
abbrev pub ensure_accepted : Env → ℕ → Action State (Unit {0})
ensure_accepted env user = throw_if (not (env.terms_accepted user)) (forbidden terms_not_accepted)

abbrev pub check_limits : Env → ℕ → ℤ → Text → Action State (Unit {0})
check_limits env user amount currency =
    on_limits (check env.limit_config env.convert env.day env.month user amount currency)

-- `generateReceiptNumber`: a number of the sequence, or of the clock where there is no sequence.
abbrev pub next_receipt : Env → State → Receipt
next_receipt env s =
    if env.sequence_up
    then Receipt.from_sequence env.year s.receipt_seq
    else Receipt.from_clock env.year env.now

-- The texts of two receipt numbers: a number of the clock is its last six digits, and one of the
-- sequence has at least six.
abbrev pub same_receipt : Receipt → Receipt → Bool
same_receipt (from_sequence y n) (from_sequence z m) = (y == z) && n == m
same_receipt (from_clock y n) (from_clock z m) = (y == z) && n % 1000000 == m % 1000000
same_receipt (from_sequence y n) (from_clock z m) = (y == z) && n == m % 1000000
same_receipt (from_clock y n) (from_sequence z m) = (y == z) && n % 1000000 == m

abbrev pub has_receipt : Receipt → Transaction → Bool
has_receipt number t = elim t.receipt_number [ none ↦ false | some r ↦ same_receipt r number ]

-- The unique index on `receiptNumber`: does another row have the number?
abbrev pub is_numbered : ℕ → Receipt → List Transaction → Bool
is_numbered id number ts = any (λ t. not (t.id == id) && has_receipt number t) ts

-- `generateReceiptNumber`: the row is saved again with its number, unless another row has that.
unfoldable pub generate_receipt_number : Env → Transaction → Action State Transaction
generate_receipt_number env tx s =
    let numbered = record tx { receipt_number = some (next_receipt env s) } in
    let drawn = record s {
      receipt_seq = if env.sequence_up then s.receipt_seq + 1 else s.receipt_seq;
    } in
    if is_numbered tx.id (next_receipt env s) s.transactions
    then (err (error database_fault), drawn)
    else (ok numbered, record drawn { transactions = save_row numbered s.transactions })

-- `txRepo.create` with what the methods give; the other columns have their defaults.
abbrev pub new_row : ℕ → ℕ → ℕ → ℤ → Text → ℤ → String → Metadata → Transaction
new_row id sender receiver amount currency fee reference metadata = record {
  id = id;
  sender_id = sender;
  receiver_id = receiver;
  amount = amount;
  currency = currency;
  fee = fee;
  status = pending;
  reference = reference;
  receipt_number = none;
  metadata = metadata;
  completed_at = none;
  reversed_at = none;
  reversed_by = none;
  reversal_reason = none;
  reversal_transaction_id = none;
  retry_count = 0;
  tag = none;
  tags = none;
}

-- The unique index on `reference`.
abbrev pub is_referenced : String → List Transaction → Bool
is_referenced reference ts = any (λ t. same_text (codes t.reference) (codes reference)) ts

-- Saving an entity that has no id draws one. The database refuses a row whose parties are not both
-- users, or whose reference is another's.
unfoldable pub insert_row : Env → (ℕ → Transaction) → Action State Transaction
insert_row env row s =
    let tx = row s.next_id in
    if not (env.user_exists tx.sender_id)
      || not (env.user_exists tx.receiver_id)
      || is_referenced tx.reference s.transactions
    then (err (error database_fault), s)
    else (ok tx, record s { transactions = save_row tx s.transactions; next_id = s.next_id + 1 })

pub find-save_row :
    (tx : Transaction) (ts : List Transaction) → find_row tx.id (save_row tx ts) ≡ some tx
find-save_row tx [] = ground arith
find-save_row tx (t ∷ ts) = ground (arith, find-save_row tx ts)
