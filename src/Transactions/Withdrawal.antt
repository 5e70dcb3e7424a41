-- ===== src/Transactions/Withdrawal.antt =====
-- `createDeposit` and `createWithdrawal` of src/transactions/transactions.service.ts.
-- The request bodies are interfaces, which Nest's validation does not see: an amount may be negative.
pub mod Outcome
use Prim.Native.String.{String}
use nexa_fx_js.Base.{
  ℕ, ◌+◌, Bool, true, false, not, Option, none, some, List, [], ◌∷◌, ◌++◌, if◌then◌else◌, Text,
}
use nexa_fx_js.Base.Int.{ℤ, pos, neg, ◌+ℤ◌, ltb_ℤ}
use nexa_fx_js.Base.Action.{
  Action, Result, ok, err, Error, bad_request, error, destination_not_funded, insufficient_with_fee,
  used_before_init, database_fault, ◌>>=◌, ◌>>◌, pure, throw, throw_if, after,
}
use nexa_fx_js.Fees.{calculate_fee}
use nexa_fx_js.Wallets.{get_balance, adjust_balance}
use nexa_fx_js.Transactions.Data.{
  Transaction, completed, failed, State, Env, Metadata, Event, on_wallets, if_up, emit, save,
  ensure_accepted, check_limits, generate_receipt_number, new_row, insert_row,
}

pub record DepositDto : Type 0 where
  pub user_id : ℕ
  pub amount : ℤ
  pub currency : Text
  pub reference : String

-- The row's metadata names `tx.id` while `tx` is being initialised, which throws: nothing after that
-- point is reached.
unfoldable pub create_deposit : Env → DepositDto → Action State Transaction
create_deposit env dto = do
  ensure_accepted env dto.user_id
  check_limits env dto.user_id (dto.amount +ℤ calculate_fee dto.amount) dto.currency
  throw (error used_before_init)

pub record WithdrawalDto : Type 0 where
  pub user_id : ℕ
  pub amount : ℤ
  pub currency : Text
  pub reference : String
  pub destination_address : String

abbrev pub total_checked : ℤ → ℤ
total_checked amount = amount +ℤ calculate_fee amount

unfoldable pub admit_withdrawal : Env → WithdrawalDto → Action State (Unit {0})
admit_withdrawal env dto = do
  ensure_accepted env dto.user_id
  throw_if (not (env.account_exists dto.destination_address)) (bad_request destination_not_funded)
  check_limits env dto.user_id (total_checked dto.amount) dto.currency
  balance ← on_wallets (get_balance dto.user_id dto.currency)
  throw_if (ltb_ℤ balance.balance (total_checked dto.amount)) (bad_request insufficient_with_fee)

abbrev pub withdrawal_row : WithdrawalDto → ℕ → Transaction
withdrawal_row dto id =
    new_row id dto.user_id dto.user_id dto.amount dto.currency (calculate_fee dto.amount)
      dto.reference (Metadata.withdrawal dto.destination_address)

-- The body of the `try`.
unfoldable pub complete_withdrawal : Env → WithdrawalDto → Transaction → Action State Transaction
complete_withdrawal env dto tx = do
  let done = record tx { status = completed; completed_at = some env.now }
  if_up (env.save_up 0) (save done)
  if_up env.cache_up (emit (Event.cache_invalidated dto.user_id))
  emit (Event.withdrawal_completed tx.id)
  pure done

-- The `catch`: the balance is restored, the row is written as failed, and the error thrown again.
-- `completedAt` was set in the `try` and stays.
unfoldable pub refund_withdrawal :
    Env → WithdrawalDto → Transaction → Error → Action State Transaction
refund_withdrawal env dto tx e = do
  on_wallets (adjust_balance dto.user_id dto.currency (total_checked dto.amount))
  save (record tx { status = failed; completed_at = some env.now })
  emit (Event.refund_audited tx.id (total_checked dto.amount))
  throw e

unfoldable pub or_refund :
    Env → WithdrawalDto → Transaction → Result Transaction × State → Result Transaction × State
or_refund env dto tx (ok t, s) = (ok t, s)
or_refund env dto tx (err e, s) = refund_withdrawal env dto tx e s

unfoldable pub debit_withdrawal : Env → WithdrawalDto → Transaction → Action State Transaction
debit_withdrawal env dto tx = do
  on_wallets (adjust_balance dto.user_id dto.currency (neg (total_checked dto.amount)))
  λ s. or_refund env dto tx (complete_withdrawal env dto tx s)

unfoldable pub record_withdrawal : Env → WithdrawalDto → Action State Transaction
record_withdrawal env dto = do
  tx ← generate_receipt_number env (← insert_row env (withdrawal_row dto))
  debit_withdrawal env dto tx

unfoldable pub create_withdrawal : Env → WithdrawalDto → Action State Transaction
create_withdrawal env dto = do admit_withdrawal env dto; record_withdrawal env dto
