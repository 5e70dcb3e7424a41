-- ===== src/Transactions/History.antt =====
-- `findHistory`, `exportTransactionsCsv` and the comments of src/transactions/transactions.service.ts.
-- Of a row's columns, `createdAt` and the key `type` of `metadata` are not in the model's row, and are parameters.
-- A negative limit counts as 0 here; the code takes 1 for both.
pub mod Wanted
pub mod Order
pub mod Pages
use Prim.Native.String.{String}
use nexa_fx_js.Base.{
  ℕ, zero, suc, ◌+◌, ◌-◌, ◌*◌, Bool, true, false, ◌&&◌, ◌||◌, Option, none, some, List, [], ◌∷◌,
  ◌++◌, ◌==◌, leb, ltb, if◌then◌else◌, filter, length, or_else, Text, same_text,
}
use nexa_fx_js.Base.Action.{
  Action, Result, ok, err, error, database_fault, ◌>>=◌, ◌>>◌, get, pure, modify,
}
use nexa_fx_js.Transactions.Data.{
  Transaction, TransactionStatus, pending, completed, failed, reversed, cancelled, Receipt,
  same_receipt, State, find_by_id,
}

pub record Columns : Type 0 where
  pub created_at : Transaction → ℕ
  pub metadata_type : Transaction → Option Text

pub record Filters : Type 0 where
  pub user_id : Option ℕ
  pub status : Option TransactionStatus
  pub currency : Option Text
  pub receipt_number : Option Receipt
  pub start_date : Option ℕ
  pub end_date : Option ℕ
  pub type_name : Option Text
  pub page : Option ℕ
  pub limit : Option ℕ

abbrev pub same_status : TransactionStatus → TransactionStatus → Bool
same_status pending pending = true
same_status completed completed = true
same_status failed failed = true
same_status reversed reversed = true
same_status cancelled cancelled = true
same_status _ _ = false

-- `if (filter) qb.andWhere(…)`; a comparison with `NULL` is no match.
abbrev pub where_set : {A : Type 0} → (A → Bool) → Option A → Bool
where_set test none = true
where_set test (some a) = test a

abbrev pub has_value : {A : Type 0} → (A → A → Bool) → Option A → A → Bool
has_value same none a = false
has_value same (some b) a = same b a

unfoldable pub fits : Columns → Filters → Transaction → Bool
fits cols f tx =
    where_set (λ user. (tx.sender_id == user) || tx.receiver_id == user) f.user_id
    && where_set (same_status tx.status) f.status
    && where_set (same_text tx.currency) f.currency
    && where_set (has_value same_receipt tx.receipt_number) f.receipt_number
    && where_set (λ from. leb from (cols.created_at tx)) f.start_date
    && where_set (λ to. leb (cols.created_at tx) to) f.end_date
    && where_set (has_value same_text (cols.metadata_type tx)) f.type_name

abbrev pub default_limit : ℕ
default_limit = 20

abbrev pub max_limit : ℕ
max_limit = 100

abbrev pub min : ℕ → ℕ → ℕ
min a b = if leb a b then a else b

abbrev pub max : ℕ → ℕ → ℕ
max a b = if leb a b then b else a

abbrev pub effective_limit : Option ℕ → ℕ
effective_limit limit = min (max (or_else limit default_limit) 1) max_limit

-- `ORDER BY createdAt DESC`. Rows of one moment, which the database gives in any order, come in the
-- order of the table.
abbrev pub insert_latest : Columns → Transaction → List Transaction → List Transaction
insert_latest cols tx [] = tx ∷ []
insert_latest cols tx (x ∷ xs) =
    let rest = insert_latest cols tx xs in
    if leb (cols.created_at x) (cols.created_at tx) then tx ∷ x ∷ xs else x ∷ rest

abbrev pub latest_first : Columns → List Transaction → List Transaction
latest_first cols [] = []
latest_first cols (tx ∷ txs) = insert_latest cols tx (latest_first cols txs)

abbrev pub skip : ℕ → List Transaction → List Transaction
skip zero txs = txs
skip (suc n) [] = []
skip (suc n) (tx ∷ txs) = skip n txs

abbrev pub take : ℕ → List Transaction → List Transaction
take zero txs = []
take (suc n) [] = []
take (suc n) (tx ∷ txs) = tx ∷ take n txs

pub record History : Type 0 where
  pub items : List Transaction
  pub total : ℕ
  pub page : ℕ
  pub limit : ℕ

abbrev pub matching : Columns → Filters → List Transaction → List Transaction
matching cols f txs = latest_first cols (filter (fits cols f) txs)

unfoldable pub history_page : (page limit : ℕ) → List Transaction → History
history_page page limit rows = record {
  items = take limit (skip ((page - 1) * limit) rows);
  total = length rows;
  page = page;
  limit = limit;
}

-- A page 0 gives a negative OFFSET, which the database refuses.
unfoldable pub find_history : Columns → Filters → Action State History
find_history cols f s = if or_else f.page 1 == 0 then (err (error database_fault), s) else (
  ok (history_page (or_else f.page 1) (effective_limit f.limit) (matching cols f s.transactions)),
  s,
)

abbrev pub of_user : ℕ → (limit : ℕ) → Filters
of_user user limit = record {
  user_id = some user;
  status = none;
  currency = none;
  receipt_number = none;
  start_date = none;
  end_date = none;
  type_name = none;
  page = none;
  limit = some limit;
}

-- The rows below the header, each by its transaction.
unfoldable pub export_transactions_csv : Columns → ℕ → Action State (List Transaction)
export_transactions_csv cols user = do
  history ← find_history cols (of_user user 1000)
  pure history.items
