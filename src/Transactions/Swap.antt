-- ===== src/Transactions/Swap.antt =====
-- `createSwap` and `getSwapPreview` of src/transactions/transactions.service.ts.
-- `tx` is one object that the attempts change: what an attempt has set stays set for the next.
pub mod Credit
pub mod Refund
pub mod Success
use Prim.Native.String.{String}
use nexa_fx_js.Base.{
  ℕ, zero, suc, ◌+◌, Bool, true, false, Option, none, some, List, [], ◌∷◌, ◌++◌, if◌then◌else◌,
  Text, or_else, same_text,
}
use nexa_fx_js.Base.Int.{ℤ, pos, neg, ◌+ℤ◌, ◌-ℤ◌, ltb_ℤ, leb_ℤ}
use nexa_fx_js.Base.Action.{
  Action, Result, ok, err, Error, bad_request, error, insufficient_with_fee, amount_not_positive,
  same_currency, database_fault, undefined_variable, ◌>>=◌, ◌>>◌, pure, throw, throw_if, after,
}
use nexa_fx_js.Fees.{calculate_fee}
use nexa_fx_js.Wallets.{get_balance, adjust_balance}
use nexa_fx_js.Transactions.Data.{
  Transaction, completed, failed, State, Env, Metadata, Event, on_wallets, if_up, emit, save,
  ensure_accepted, check_limits, new_row, insert_row, save_row,
}

abbrev pub max_retries : ℕ
max_retries = 3

pub record SwapDto : Type 0 where
  pub user_id : ℕ
  pub from_amount : ℤ
  pub from_currency : Text
  pub to_amount : ℤ
  pub to_currency : Text
  pub reference : String

abbrev pub total_checked : SwapDto → ℤ
total_checked dto = dto.from_amount +ℤ calculate_fee dto.from_amount

unfoldable pub admit_swap : Env → SwapDto → Action State (Unit {0})
admit_swap env dto = do
  ensure_accepted env dto.user_id
  check_limits env dto.user_id (total_checked dto) dto.from_currency
  balance ← on_wallets (get_balance dto.user_id dto.from_currency)
  throw_if (ltb_ℤ balance.balance (total_checked dto)) (bad_request insufficient_with_fee)

abbrev pub swap_row : SwapDto → ℕ → Transaction
swap_row dto id =
    new_row id dto.user_id dto.user_id dto.from_amount dto.from_currency
      (calculate_fee dto.from_amount) dto.reference (Metadata.swap dto.to_amount dto.to_currency)

abbrev pub credit_swap : Env → SwapDto → ℕ → Action State (Unit {0})
credit_swap env dto attempt = do
  if_up (env.credit_up attempt)
      (on_wallets (adjust_balance dto.user_id dto.to_currency dto.to_amount))
  pure tt

-- The object after a credit, in the attempt of that number.
abbrev pub marked : Env → ℕ → Transaction → Transaction
marked env attempt tx = record tx {
  status = completed;
  completed_at = some env.now;
  retry_count = attempt;
}

-- What follows the credit in the `try`: the row and the fee record.
unfoldable pub write_swap : Env → SwapDto → ℕ → Transaction → Action State Transaction
write_swap env dto attempt tx = do
  if_up (env.save_up attempt) (save tx)
  if_up (env.record_up attempt) (emit (Event.fee_recorded tx.id (calculate_fee dto.from_amount)))
  emit (Event.swap_completed tx.id)
  pure tx

-- One attempt, with the object as it leaves it.
unfoldable pub swap_attempt :
    Env → SwapDto → ℕ → Transaction → State → Result Transaction × State × Transaction
swap_attempt env dto attempt tx s =
    let (r, s') = credit_swap env dto attempt s in
    elim r [
      | err e ↦ (err e, s', tx)
      | ok _ ↦
          let (r', s'') = write_swap env dto attempt (marked env attempt tx) s' in
          (r', s'', marked env attempt tx)
    ]

-- All attempts have failed: the balance is restored, and the row written as failed.
unfoldable pub give_up : SwapDto → Transaction → Option Error → Action State Transaction
give_up dto tx last_error = do
  on_wallets (adjust_balance dto.user_id dto.from_currency (total_checked dto))
  save (record tx { status = failed })
  emit (Event.refund_audited tx.id (total_checked dto))
  emit (Event.swap_failed tx.id)
  throw (or_else last_error (error undefined_variable))

-- The loop, by the attempts that are left. The `catch` saves the object as it is, with the number of
-- failed attempts; if that save fails too, the method ends with it.
unfoldable pub swap_attempts :
    Env → SwapDto → (left attempt : ℕ) → Transaction → Option Error → Action State Transaction
swap_attempts env dto zero attempt tx last_error s = give_up dto tx last_error s
swap_attempts env dto (suc left) attempt tx last_error s =
    let (r, s', tx') = swap_attempt env dto attempt tx s in
    let retried = record tx' { retry_count = attempt + 1 } in
    elim r [
      | ok t ↦ (ok t, s')
      | err e ↦ elim (env.note_up attempt) [
        | true ↦
            swap_attempts env dto left (attempt + 1) retried (some e)
              (record s' { transactions = save_row retried s'.transactions })
        | false ↦ (err (error database_fault), s')
      ]
    ]

unfoldable pub record_swap : Env → SwapDto → Action State Transaction
record_swap env dto = do
  tx ← insert_row env (swap_row dto)
  on_wallets (adjust_balance dto.user_id dto.from_currency (neg (total_checked dto)))
  swap_attempts env dto max_retries 0 tx none

unfoldable pub create_swap : Env → SwapDto → Action State Transaction
create_swap env dto = do admit_swap env dto; record_swap env dto

pub record SwapPreview : Type 0 where
  pub from_amount : ℤ
  pub to_amount : ℤ

-- `at_rate` is the product with the random rate, rounded.
unfoldable pub get_swap_preview : (at_rate : ℤ → ℤ) → ℤ → (from to : Text) → Result SwapPreview
get_swap_preview at_rate amount from to =
    if leb_ℤ amount (pos 0)
    then err (bad_request amount_not_positive)
    else if same_text from to
    then err (bad_request same_currency)
    else ok (record { from_amount = amount; to_amount = at_rate (amount -ℤ calculate_fee amount) })
