-- ===== src/Rollback.antt =====
-- src/modules/transactions/services/transaction-rollback.service.ts over the rows of its two
-- entities. The ids that the tables draw are arguments; the description and the metadata of the new
-- row, which repeat the id and the reason, are left out.
pub mod Chain
use Prim.Native.String.{String}
use nexa_fx_js.Base.{
  ℕ, Bool, true, false, not, Option, none, some, List, [], ◌∷◌, ◌++◌, ◌==◌, if◌then◌else◌, find,
  is_some, Text,
}
use nexa_fx_js.Base.Int.{ℤ, neg}
use nexa_fx_js.Base.Action.{
  Action, Result, ok, err, not_found, bad_request, transaction_not_found, not_successful,
  already_rolled_back, ◌>>=◌, ◌>>◌, get, pure, throw_if, or_throw, modify,
}

pub data Status : Type 0 where
  pending success failed cancelled : Status

pub record Transaction : Type 0 where
  pub id : ℕ
  pub amount : ℤ
  pub currency : Text
  pub status : Status
  pub wallet_id : Option ℕ
  pub to_address : Option ℕ
  pub from_address : Option ℕ
  pub rollback_of : Option ℕ

pub record TransactionRollback : Type 0 where
  pub id : ℕ
  pub original_transaction_id : ℕ
  pub rollback_transaction_id : ℕ
  pub reason : Option String
  pub rolled_back_by : ℕ

pub record State : Type 0 where
  pub transactions : List Transaction
  pub rollbacks : List TransactionRollback

pub record Fresh : Type 0 where
  pub transaction_id : ℕ
  pub rollback_id : ℕ

abbrev pub is_success : Status → Bool
is_success Status.success = true
is_success _ = false

abbrev pub find_transaction : ℕ → State → Option Transaction
find_transaction id s = find (λ t. t.id == id) s.transactions

abbrev pub rollback_of_id : ℕ → State → Option TransactionRollback
rollback_of_id id s = find (λ r. r.original_transaction_id == id) s.rollbacks

abbrev pub rollback_row : ℕ → Transaction → Transaction
rollback_row id original = record {
  id = id;
  amount = neg original.amount;
  currency = original.currency;
  status = Status.success;
  wallet_id = original.wallet_id;
  to_address = original.from_address;
  from_address = original.to_address;
  rollback_of = some original.id;
}

abbrev pub rollback_note : Fresh → ℕ → Option String → ℕ → TransactionRollback
rollback_note fresh id reason admin = record {
  id = fresh.rollback_id;
  original_transaction_id = id;
  rollback_transaction_id = fresh.transaction_id;
  reason = reason;
  rolled_back_by = admin;
}

-- The answer: the original, the new row and the record.
unfoldable pub rollback :
    Fresh → ℕ → Option String → ℕ → Action State (Transaction × Transaction × TransactionRollback)
rollback fresh id reason admin = do
  found ← get (find_transaction id)
  original ← or_throw found (not_found transaction_not_found)
  throw_if (not (is_success original.status)) (bad_request not_successful)
  done ← get (rollback_of_id id)
  throw_if (is_some done) (bad_request already_rolled_back)
  modify (λ s. record s {
    transactions = s.transactions ++ rollback_row fresh.transaction_id original ∷ [];
  })
  modify (λ s. record s { rollbacks = s.rollbacks ++ rollback_note fresh id reason admin ∷ [] })
  pure (original, rollback_row fresh.transaction_id original, rollback_note fresh id reason admin)
