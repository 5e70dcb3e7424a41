-- ===== src/BulkPayments.antt =====
-- src/bulk-payments/bulk-payments.service.ts over the rows of bulk-payment.entity.ts and
-- bulk-payment-item.entity.ts. Amounts are in units of 10^-8. The two writes of an item may each fail;
-- how they go is an argument, the `Attempt` of the item.
pub mod Report
use Prim.Native.String.{String}
use nexa_fx_js.Base.{
  ℕ, ◌+◌, Bool, true, false, ◌&&◌, Option, none, some, List, [], ◌∷◌, ◌++◌, ◌==◌, if◌then◌else◌,
  find, filter, update_where, length, map, Text,
}
use nexa_fx_js.Base.Action.{
  Action, Result, ok, err, Error, error, not_found, bulk_payment_not_found, database_fault, ◌>>=◌,
  ◌>>◌, get, pure, or_throw, modify,
}

pub data BulkPaymentStatus : Type 0 where
  pending processing completed failed partial : BulkPaymentStatus

pub data ItemStatus : Type 0 where
  item_pending item_success item_failed : ItemStatus

pub record BulkPayment : Type 0 where
  pub id : ℕ
  pub user_id : ℕ
  pub status : BulkPaymentStatus
  pub total_count : ℕ
  pub success_count : ℕ
  pub fail_count : ℕ
  pub total_amount : ℕ
  pub currency : Text
  pub completed_at : Option ℕ

pub record Item : Type 0 where
  pub id : ℕ
  pub bulk_payment_id : ℕ
  pub recipient_address : String
  pub amount : ℕ
  pub status : ItemStatus
  pub error_message : Option String
  pub transaction_id : Option ℕ

-- A transaction that the processing creates, with the status 'PENDING'.
pub record Transaction : Type 0 where
  pub id : ℕ
  pub amount : ℕ
  pub currency : Text
  pub to_address : String

pub record State : Type 0 where
  pub bulk_payments : List BulkPayment
  pub items : List Item
  pub transactions : List Transaction
  pub next_id : ℕ

pub record ItemDto : Type 0 where
  pub recipient_address : String
  pub amount : ℕ

pub record CreateBulkPaymentDto : Type 0 where
  pub items : List ItemDto
  pub currency : Text

-- `reduce((sum, item) => sum + item.amount, 0)`
abbrev pub sum_amounts : ℕ → List ItemDto → ℕ
sum_amounts sum [] = sum
sum_amounts sum (i ∷ is) = sum_amounts (sum + i.amount) is

abbrev pub new_item : (id bulk : ℕ) → ItemDto → Item
new_item id bulk dto = record {
  id = id;
  bulk_payment_id = bulk;
  recipient_address = dto.recipient_address;
  amount = dto.amount;
  status = item_pending;
  error_message = none;
  transaction_id = none;
}

-- The items of a payment, with the ids that follow.
abbrev pub new_items : (id bulk : ℕ) → List ItemDto → List Item
new_items id bulk [] = []
new_items id bulk (dto ∷ dtos) = new_item id bulk dto ∷ new_items (id + 1) bulk dtos

abbrev pub new_bulk_payment :
    (upper : Text → Text) → (id user : ℕ) → CreateBulkPaymentDto → BulkPayment
new_bulk_payment upper id user dto = record {
  id = id;
  user_id = user;
  status = pending;
  total_count = length dto.items;
  success_count = 0;
  fail_count = 0;
  total_amount = sum_amounts 0 dto.items;
  currency = upper dto.currency;
  completed_at = none;
}

-- `create`, up to the processing that it leaves for later. `upper` is `toUpperCase`.
unfoldable pub create : (upper : Text → Text) → ℕ → CreateBulkPaymentDto → Action State ℕ
create upper user dto = do
  id ← get (λ (s : State). s.next_id)
  modify (λ (s : State). record s {
    bulk_payments = s.bulk_payments ++ new_bulk_payment upper id user dto ∷ [];
    items = s.items ++ new_items (id + 1) id dto.items;
    next_id = s.next_id + 1 + length dto.items;
  })
  pure id

unfoldable pub find_one : (id user : ℕ) → Action State BulkPayment
find_one id user = do
  row ←
      get (λ (s : State).
        find (λ (b : BulkPayment). (b.id == id) && b.user_id == user) s.bulk_payments)
  or_throw row (not_found bulk_payment_not_found)

-- How the writes of one item go: both well; the transaction is not saved; it is saved, but the item
-- cannot be marked; or even the failure cannot be marked.
pub data Attempt : Type 0 where
  all_well : Attempt
  not_saved : (message : String) → Attempt
  not_marked : (message : String) → Attempt
  no_database : Attempt

abbrev pub update_item : ℕ → (Item → Item) → State → State
update_item id f s = record s { items = update_where (λ (i : Item). i.id == id) f s.items }

abbrev pub add_transaction : Text → Item → State → State
add_transaction currency i s = record s {
  transactions =
      s.transactions
      ++ record {
        id = s.next_id;
        amount = i.amount;
        currency = currency;
        to_address = i.recipient_address;
      }
        ∷ [];
  next_id = s.next_id + 1;
}

abbrev pub succeed : ℕ → Item → Item
succeed transaction i = record i { status = item_success; transaction_id = some transaction }

-- `error.message || 'Processing failed'`
abbrev pub failure_text : String → String
failure_text String.[] = "Processing failed"
failure_text (String.◌∷◌ c s) = String.◌∷◌ c s

abbrev pub fail : String → Item → Item
fail message i = record i { status = item_failed; error_message = some (failure_text message) }

-- The two counters of the loop.
pub record Counts : Type 0 where
  pub success_count : ℕ
  pub fail_count : ℕ

unfoldable pub process_item : Text → Attempt → Item → Counts → Action State Counts
process_item currency all_well i c s = (
  ok (record c { success_count = c.success_count + 1 }),
  update_item i.id (succeed s.next_id) (add_transaction currency i s),
)
process_item currency (not_saved message) i c s =
    (ok (record c { fail_count = c.fail_count + 1 }), update_item i.id (fail message) s)
process_item currency (not_marked message) i c s = (
  ok (record c { fail_count = c.fail_count + 1 }),
  update_item i.id (fail message) (add_transaction currency i s),
)
process_item currency no_database i c s = (err (error database_fault), s)

unfoldable pub process_items : Text → (Item → Attempt) → List Item → Counts → Action State Counts
process_items currency attempt [] c = pure c
process_items currency attempt (i ∷ is) c = do
  counted ← process_item currency (attempt i) i c
  process_items currency attempt is counted

abbrev pub final_status : Counts → BulkPaymentStatus
final_status c =
    if c.fail_count == 0 then completed else if c.success_count == 0 then failed else partial

abbrev pub update_payment : ℕ → (BulkPayment → BulkPayment) → State → State
update_payment id f s = record s {
  bulk_payments = update_where (λ (b : BulkPayment). b.id == id) f s.bulk_payments;
}

abbrev pub finish : ℕ → Counts → BulkPayment → BulkPayment
finish now c b = record b {
  status = final_status c;
  success_count = c.success_count;
  fail_count = c.fail_count;
  completed_at = some now;
}

unfoldable pub process_found : (Item → Attempt) → (now : ℕ) → BulkPayment → Action State (Unit {0})
process_found attempt now b = do
  modify (update_payment b.id (λ r. record r { status = processing }))
  items ← get (λ (s : State). filter (λ (i : Item). i.bulk_payment_id == b.id) s.items)
  counts ← process_items b.currency attempt items (record { success_count = 0; fail_count = 0 })
  modify (update_payment b.id (finish now counts))

unfoldable pub process_bulk_payment : (Item → Attempt) → (now id : ℕ) → Action State (Unit {0})
process_bulk_payment attempt now id = do
  row ← get (λ (s : State). find (λ (b : BulkPayment). b.id == id) s.bulk_payments)
  elim row [ none ↦ pure tt | some b ↦ process_found attempt now b ]
