-- ===== src/Transactions/Transfer.antt =====
-- `transfer` and `createInternalTransfer` of src/transactions/transactions.service.ts.
-- `adjustBalance` opens a database transaction of its own on another connection, so the one around
-- it in `transfer` rolls back only the row of the transaction.
pub mod Admission
pub mod Conservation
use Prim.Native.String.{String}
use nexa_fx_js.Base.{
  ℕ, ◌+◌, ◌≡◌, Bool, true, false, Option, none, some, List, [], ◌∷◌, ◌==◌, if◌then◌else◌, Text,
}
use nexa_fx_js.Base.Int.{ℤ, pos, neg, leb_ℤ, ltb_ℤ}
use nexa_fx_js.Base.Action.{
  Action, Result, ok, err, Error, bad_request, forbidden, not_found, account_deactivated,
  amount_not_positive, same_party, insufficient_balance, user_not_found, ◌>>=◌, ◌>>◌, get, pure,
  throw_if, or_throw, modify,
}
use nexa_fx_js.Wallets.{get_balance, adjust_balance}
use nexa_fx_js.Transactions.Data.{
  Transaction, completed, State, Env, Metadata, Event, on_wallets, if_up, emit, save,
  ensure_accepted, generate_receipt_number, new_row, insert_row,
}

pub record TransferDto : Type 0 where
  pub sender_id : ℕ
  pub receiver_id : ℕ
  pub amount : ℤ
  pub currency : Text
  pub reference : String
  pub metadata : Metadata

-- The checks that come before anything is written.
unfoldable pub admit_transfer : Env → TransferDto → Action State (Unit {0})
admit_transfer env dto = do
  ensure_accepted env dto.sender_id
  throw_if (env.is_deactivated dto.sender_id) (forbidden account_deactivated)
  throw_if (leb_ℤ dto.amount (pos 0)) (bad_request amount_not_positive)
  throw_if (dto.sender_id == dto.receiver_id) (bad_request same_party)
  sender_balance ← on_wallets (get_balance dto.sender_id dto.currency)
  throw_if (ltb_ℤ sender_balance.balance dto.amount) (bad_request insufficient_balance)

-- The two balance changes in the `try`.
unfoldable pub move_funds : Env → TransferDto → Action State (Unit {0})
move_funds env dto = do
  if_up env.debit_up (on_wallets (adjust_balance dto.sender_id dto.currency (neg dto.amount)))
  if_up (env.credit_up 0) (on_wallets (adjust_balance dto.receiver_id dto.currency dto.amount))
  pure tt

-- The object is marked completed before it is saved; the event follows a save that succeeds.
unfoldable pub confirm : Env → Transaction → Action State Transaction
confirm env tx =
    let confirmed = record tx { status = completed; completed_at = some env.now } in
    if env.save_up 0
    then (save confirmed >> emit (Event.transfer_completed tx.id) >> pure confirmed)
    else pure confirmed

-- What follows the balance changes: the confirmation, or the `catch`, which logs what was thrown
-- and returns the object as it is.
unfoldable pub after_moving :
    Env → Transaction → Result (Unit {0}) × State → Result Transaction × State
after_moving env tx (ok _, s) = confirm env tx s
after_moving env tx (err _, s) = (ok tx, s)

unfoldable pub settle_transfer : Env → TransferDto → Transaction → Action State Transaction
settle_transfer env dto tx s = after_moving env tx (move_funds env dto s)

abbrev pub transfer_row : TransferDto → ℕ → Transaction
transfer_row dto id =
    new_row id dto.sender_id dto.receiver_id dto.amount dto.currency (pos 0) dto.reference
      dto.metadata

-- The row is saved as pending before the balances are touched.
unfoldable pub record_and_settle : Env → TransferDto → Action State Transaction
record_and_settle env dto = do
  tx ← generate_receipt_number env (← insert_row env (transfer_row dto))
  settle_transfer env dto tx

unfoldable pub transfer : Env → TransferDto → Action State Transaction
transfer env dto = do admit_transfer env dto; record_and_settle env dto

-- `createInternalTransfer`: the receiver is found by the e-mail address.
unfoldable pub create_internal_transfer :
    Env
    → (find_by_email : Text → Option ℕ) → (sender : ℕ) → (email : Text) → ℤ
    → Text
    → String
    → Action State Transaction
create_internal_transfer env find_by_email sender email amount currency reference = do
  recipient ← or_throw (find_by_email email) (not_found user_not_found)
  transfer env (record {
    sender_id = sender;
    receiver_id = recipient;
    amount = amount;
    currency = currency;
    reference = reference;
    metadata = Metadata.internal_transfer email;
  })
