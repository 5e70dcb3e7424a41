-- ===== src/Transactions/Reversal.antt =====
-- `findById`, `updateTags`, `cancelTransaction` and `reverseTransaction` of
-- src/transactions/transactions.service.ts.
-- As in `transfer`, the `dataSource.transaction` of a reversal rolls back the rows of the table
-- `transactions` and not the balances, which are written on connections of their own. The users of
-- the row exist, and the notices and the audit are sent.
pub mod Laws
use Prim.Native.String.{String, ◌++◌}
use nexa_fx_js.Base.{
  ℕ, Bool, true, false, not, Option, none, some, List, ◌==◌, if◌then◌else◌, is_some, Text, ◌+◌,
}
use nexa_fx_js.Base.Int.{ℤ, pos, neg}
use nexa_fx_js.Base.Action.{
  Action, Result, ok, err, Error, bad_request, unprocessable, not_sender, not_pending,
  already_reversed, ◌>>=◌, ◌>>◌, pure, throw_if,
}
use nexa_fx_js.Wallets.{adjust_balance}
use nexa_fx_js.Transactions.Data.{
  Transaction, TransactionStatus, pending, reversed, cancelled, State, Env, Metadata, Event,
  on_wallets, emit, save, find_by_id, new_row, insert_row,
}

abbrev pub is_pending : TransactionStatus → Bool
is_pending pending = true
is_pending _ = false

unfoldable pub update_tags : ℕ → ℕ → Option String → Option (List String) → Action State Transaction
update_tags id user tag tags = do
  tx ← find_by_id id
  throw_if (not (tx.sender_id == user)) (bad_request not_sender)
  let tagged = record tx {
    tag = elim tag [ none ↦ tx.tag | some t ↦ some t ];
    tags = elim tags [ none ↦ tx.tags | some ts ↦ some ts ];
  }
  save tagged
  pure tagged

unfoldable pub cancel_transaction : ℕ → Action State Transaction
cancel_transaction id = do
  tx ← find_by_id id
  throw_if (not (is_pending tx.status)) (unprocessable not_pending)
  save (record tx { status = cancelled })
  emit (Event.transaction_cancelled tx.id)
  pure (record tx { status = cancelled })

abbrev pub reversal_row : Env → Transaction → String → ℕ → Transaction
reversal_row env tx reason id =
    record (new_row id tx.receiver_id tx.sender_id tx.amount tx.currency (pos 0)
      (tx.reference ++ "-reversal") (Metadata.reversal tx.id reason)) {
        status = reversed;
        completed_at = some env.now;
      }

abbrev pub reversed_row : Env → ℕ → String → ℕ → Transaction → Transaction
reversed_row env by reason reversal tx = record tx {
  status = reversed;
  reversed_at = some env.now;
  reversed_by = some by;
  reversal_reason = some reason;
  reversal_transaction_id = some reversal;
}

-- The sender is credited before the receiver is debited.
unfoldable pub move_back : Transaction → Action State (Unit {0})
move_back tx = do
  on_wallets (adjust_balance tx.sender_id tx.currency tx.amount)
  on_wallets (adjust_balance tx.receiver_id tx.currency (neg tx.amount))
  pure tt

unfoldable pub write_reversal : Env → ℕ → String → Transaction → Action State Transaction
write_reversal env by reason tx = do
  reversal ← insert_row env (reversal_row env tx reason)
  save (reversed_row env by reason reversal.id tx)
  emit (Event.reversal_notice tx.sender_id tx.id)
  emit (Event.reversal_notice tx.receiver_id tx.id)
  emit (Event.transaction_reversed tx.id reversal.id)
  pure (reversed_row env by reason reversal.id tx)

unfoldable pub reverse_transaction : Env → ℕ → ℕ → String → Action State Transaction
reverse_transaction env id by reason = do
  tx ← find_by_id id
  throw_if (is_some tx.reversed_at) (unprocessable already_reversed)
  move_back tx
  write_reversal env by reason tx
