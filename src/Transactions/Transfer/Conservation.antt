-- ===== src/Transactions/Transfer/Conservation.antt =====
-- What an admitted transfer does to the balances, the row and the events.
use nexa_fx_js.Base.{
  ◌≡◌, refl, ap, ◌∙◌, true, some, [], ◌∷◌, ◌++◌, arith, Text, if◌then◌else◌, Bool-cases, inl, inr,
}
use nexa_fx_js.Base.Int.{neg}
use nexa_fx_js.Base.Action.{ok}
use nexa_fx_js.Wallets.{Wallet, Wallets, adjust_balance}
use nexa_fx_js.Wallets.Money.{IsCents}
use nexa_fx_js.Wallets.Invariant.{IsValid}
use nexa_fx_js.Wallets.Move.{IsMoved, debit-credit-IsMoved}
use nexa_fx_js.Transactions.Data.{
  Transaction, State, Env, Event, completed, pending, find_row, save_row, TransactionStatus,
  find-save_row,
}
use nexa_fx_js.Transactions.Transfer.{
  TransferDto, settle_transfer, move_funds, confirm, after_moving, transfer,
}
use nexa_fx_js.Transactions.Transfer.Admission.{IsAdmissible, numbered, recorded, transfer_lem}

module _ (env : Env) (dto : TransferDto) (s : State) where
  move_funds_lem :
      {w v : Wallet} {ws₁ ws₂ : Wallets}
      → env.debit_up ≡ true
      → env.credit_up 0 ≡ true
      → adjust_balance dto.sender_id dto.currency (neg dto.amount) s.wallets ≡ (ok w, ws₁)
      → adjust_balance dto.receiver_id dto.currency dto.amount ws₁ ≡ (ok v, ws₂)
      → move_funds env dto s ≡ (ok tt, record s { wallets = ws₂ })
  unfolding move_funds
  move_funds_lem p q e f = ground arith

-- The status of the stored row after the call: the confirmation may not have reached the database.
abbrev pub stored_status : Env → TransactionStatus
stored_status env = if env.save_up 0 then completed else pending

-- What a transfer whose balance changes got through has done.
pub record IsTransferred (env : Env) (dto : TransferDto) (c : Text) (s s' : State)
    (tx : Transaction) : Type 0 where
  pub moved : IsMoved dto.sender_id dto.receiver_id c dto.amount s.wallets s'.wallets
  pub returned : tx.status ≡ completed
  pub row : Transaction
  pub stored : find_row s.next_id s'.transactions ≡ some row
  pub row_status : row.status ≡ stored_status env
  pub announced :
      s'.events
      ≡ (if env.save_up 0 then s.events ++ Event.transfer_completed s.next_id ∷ [] else s.events)
  pub limits_kept : s'.limits ≡ s.limits

confirm-IsTransferred :
    (env : Env) (dto : TransferDto) (c : Text) (s : State) (ws : Wallets)
    → IsMoved dto.sender_id dto.receiver_id c dto.amount s.wallets ws
    → (t : Transaction) × (s' : State) × (confirm env
          (numbered env dto s)
          (record (recorded env dto s) { wallets = ws })
        ≡ (ok t, s'))
      × IsTransferred env dto c s s' t
unfolding confirm
confirm-IsTransferred env dto c s ws h =
    let tx = numbered env dto s in
    let done = record tx { status = completed; completed_at = some env.now } in
    let before = record (recorded env dto s) { wallets = ws } in
    elim (Bool-cases (env.save_up 0)) [
      | inl saved ↦ (
        done,
        record before {
          transactions = save_row done before.transactions;
          events = s.events ++ Event.transfer_completed s.next_id ∷ [];
        },
        rw saved,
        record {
          moved = h;
          returned = refl;
          row = done;
          stored = find-save_row done before.transactions;
          row_status = rw saved;
          announced = rw saved;
          limits_kept = refl;
        },
      )
      | inr lost ↦ (
        done,
        before,
        rw lost,
        record {
          moved = h;
          returned = refl;
          row = tx;
          stored = find-save_row tx _;
          row_status = rw lost;
          announced = rw lost;
          limits_kept = refl;
        },
      )
    ]

-- An admissible transfer of whole cents whose two balance changes reach the database returns a
-- completed transaction; exactly the amount leaves the sender and reaches the receiver, no other
-- wallet and no currency's total changes, and the limits are not touched. The stored row is completed
-- and the event emitted if the confirmation is saved; if not, the row stays pending with no event,
-- though the money has moved.
pub transfer-IsTransferred :
    (env : Env) (dto : TransferDto) (c : Text) (s : State)
    → IsAdmissible env dto c s
    → IsValid s.wallets
    → IsCents dto.amount
    → env.debit_up ≡ true
    → env.credit_up 0 ≡ true
    → (t : Transaction) × (s' : State) × (transfer env dto s ≡ (ok t, s'))
      × IsTransferred env dto c s s' t
unfolding settle_transfer after_moving
transfer-IsTransferred env dto c s h valid whole p q =
    let (w, ws₁, v, ws₂, debited, credited, moved) =
      debit-credit-IsMoved dto.sender_id dto.receiver_id dto.currency c dto.amount s.wallets
        h.supported valid whole h.parties h.positive h.covered in
    let step = move_funds_lem env dto (recorded env dto s) p q debited credited in
    let (t, s', run, result) = confirm-IsTransferred env dto c s ws₂ moved in
    (
      t,
      s',
      transfer_lem env dto c s h ∙ ap (after_moving env (numbered env dto s)) step ∙ run,
      result,
    )
