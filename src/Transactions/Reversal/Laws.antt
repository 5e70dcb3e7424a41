-- ===== src/Transactions/Reversal/Laws.antt =====
-- Cancelling and reversing.
use Prim.Native.String.{String}
use nexa_fx_js.Base.{
  ℕ, ◌+◌, ◌≡◌, ◌≢◌, refl, sym, ◌∙◌, true, false, Option, none, some, [], ◌∷◌, ◌++◌, arith, Text,
  inl, inr, ◌⊎◌, Option-cases,
}
use nexa_fx_js.Base.Int.{pos, neg, ◌≤ℤ◌, ◌<ℤ◌}
use nexa_fx_js.Base.Action.{
  Result, ok, err, unprocessable, not_found, transaction_not_found, not_pending, already_reversed,
}
use nexa_fx_js.Currencies.{validate_currency}
use nexa_fx_js.Wallets.{Wallet, Wallets, adjust_balance}
use nexa_fx_js.Wallets.Money.{IsCents}
use nexa_fx_js.Wallets.Balance.{balance_at}
use nexa_fx_js.Wallets.Invariant.{IsValid}
use nexa_fx_js.Wallets.Move.{IsMoved}
use nexa_fx_js.Wallets.MoveBack.{credit-debit-IsMoved}
use nexa_fx_js.Transactions.Data.{
  Transaction, TransactionStatus, pending, cancelled, reversed, State, Env, Event, insert_row,
  save_row, find_row, find-save_row, find_by_id, completed, failed,
}
use nexa_fx_js.Transactions.Data.Storable.{IsStorable}
use nexa_fx_js.Transactions.Reversal.{
  is_pending, cancel_transaction, reverse_transaction, move_back, write_reversal, reversal_row,
  reversed_row,
}

-- How a cancellation ends, by the row that is stored under the id.
abbrev pub Cancelled : ℕ → State → Option Transaction → Result Transaction × State → Type 0
Cancelled id s none (r, s') = (r ≡ err (not_found transaction_not_found)) × (s' ≡ s)
Cancelled id s (some tx) (r, s') =
    ((tx.status ≡ pending)
      × (r ≡ ok (record tx { status = cancelled }))
      × (find_row tx.id s'.transactions ≡ some (record tx { status = cancelled }))
      × (s'.wallets ≡ s.wallets))
    ⊎ ((tx.status ≢ pending) × (r ≡ err (unprocessable not_pending)) × (s' ≡ s))

is_pending-cases :
    (st : TransactionStatus)
    → ((st ≡ pending) × (is_pending st ≡ true)) ⊎ ((st ≢ pending) × (is_pending st ≡ false))
is_pending-cases pending = inl (refl, refl)
is_pending-cases completed = inr (λ e. ground arith, refl)
is_pending-cases failed = inr (λ e. ground arith, refl)
is_pending-cases reversed = inr (λ e. ground arith, refl)
is_pending-cases cancelled = inr (λ e. ground arith, refl)

cancel_pending :
    (id : ℕ) (tx : Transaction) (s : State)
    → find_row id s.transactions ≡ some tx
    → is_pending tx.status ≡ true
    → cancel_transaction id s ≡ (
      ok (record tx { status = cancelled }),
      record s {
        transactions = save_row (record tx { status = cancelled }) s.transactions;
        events = s.events ++ Event.transaction_cancelled tx.id ∷ [];
      },
    )
unfolding cancel_transaction find_by_id
cancel_pending id tx s p q = ground arith

cancel_other :
    (id : ℕ) (tx : Transaction) (s : State)
    → find_row id s.transactions ≡ some tx
    → is_pending tx.status ≡ false
    → cancel_transaction id s ≡ (err (unprocessable not_pending), s)
unfolding cancel_transaction find_by_id
cancel_other id tx s p q = ground arith

cancel_missing :
    (id : ℕ) (s : State)
    → find_row id s.transactions ≡ none
    → cancel_transaction id s ≡ (err (not_found transaction_not_found), s)
unfolding cancel_transaction find_by_id
cancel_missing id s p = ground arith

-- A cancellation writes the row as cancelled if it is stored as pending, and else throws and leaves
-- the state as it was; it never touches a wallet.
pub cancel_transaction-Cancelled :
    (id : ℕ) (s : State) → Cancelled id s (find_row id s.transactions) (cancel_transaction id s)
cancel_transaction-Cancelled id s = elim (Option-cases (find_row id s.transactions)) [
  | inl missing ↦ rw (missing, cancel_missing id s missing) (refl, refl)
  | inr (tx, found) ↦ elim (is_pending-cases tx.status) [
    | inl (is, p) ↦
        rw (found, cancel_pending id tx s found p)
          (inl (is, refl, find-save_row (record tx { status = cancelled }) s.transactions, refl))
    | inr (isnt, p) ↦ rw (found, cancel_other id tx s found p) (inr (isnt, refl, refl))
  ]
]

-- A transaction that carries the date of a reversal is not reversed again, and nothing is written.
pub reversed_once :
    (env : Env) (id by : ℕ) (reason : String) (s : State) (tx : Transaction) (at : ℕ)
    → find_row id s.transactions ≡ some tx
    → tx.reversed_at ≡ some at
    → reverse_transaction env id by reason s ≡ (err (unprocessable already_reversed), s)
unfolding reverse_transaction find_by_id
reversed_once env id by reason s tx at p q = ground arith

module _ (env : Env) (id by : ℕ) (reason : String) (s : State) (tx : Transaction) where
  reversed_lem :
      {w v : Wallet} {ws ws' : Wallets}
      → find_row id s.transactions ≡ some tx
      → tx.reversed_at ≡ none
      → adjust_balance tx.sender_id tx.currency tx.amount s.wallets ≡ (ok w, ws)
      → adjust_balance tx.receiver_id tx.currency (neg tx.amount) ws ≡ (ok v, ws')
      → reverse_transaction env id by reason s
        ≡ write_reversal env by reason tx (record s { wallets = ws' })
  unfolding reverse_transaction find_by_id move_back
  reversed_lem p q e f = ground arith

written_lem :
    (env : Env) (by : ℕ) (reason : String) (tx : Transaction) (s : State)
    → IsStorable env (reversal_row env tx reason s.next_id) s.transactions
    → write_reversal env by reason tx s ≡ (
      ok (reversed_row env by reason s.next_id tx),
      record s {
        transactions =
            save_row
              (reversed_row env by reason s.next_id tx)
              (save_row (reversal_row env tx reason s.next_id) s.transactions);
        events =
            ((s.events ++ Event.reversal_notice tx.sender_id tx.id ∷ [])
              ++ Event.reversal_notice tx.receiver_id tx.id ∷ [])
            ++ Event.transaction_reversed tx.id s.next_id ∷ [];
        next_id = s.next_id + 1;
      },
    )
unfolding write_reversal insert_row
written_lem env by reason tx s h = rw (h.sender, h.receiver, h.reference) refl

-- A reversal of a transaction between two users, whose receiver holds the amount, a whole number of
-- cents, and whose own row the database takes, moves exactly that amount from the receiver back to
-- the sender and changes no other wallet; the row is stored as reversed, with the date of the reversal.
pub reverse_transaction-IsMoved :
    (env : Env) (id by : ℕ) (reason : String) (s : State) (tx : Transaction) (c : Text)
    → find_row id s.transactions ≡ some tx
    → tx.reversed_at ≡ none
    → validate_currency tx.currency ≡ ok c
    → IsValid s.wallets
    → tx.sender_id ≢ tx.receiver_id
    → IsCents tx.amount
    → pos 0 <ℤ tx.amount
    → tx.amount ≤ℤ balance_at tx.receiver_id c s.wallets
    → IsStorable env (reversal_row env tx reason s.next_id) s.transactions
    → (t : Transaction) × (s' : State) × (reverse_transaction env id by reason s ≡ (ok t, s'))
      × IsMoved tx.receiver_id tx.sender_id c tx.amount s.wallets s'.wallets
      × (find_row tx.id s'.transactions ≡ some t)
      × (t.status ≡ reversed)
      × (t.reversed_at ≡ some env.now)
reverse_transaction-IsMoved env id by reason s tx c found fresh supported valid differ whole
      positive covered storable =
    let (w, ws, v, ws', credited, debited, moved) =
      credit-debit-IsMoved tx.receiver_id tx.sender_id tx.currency c tx.amount s.wallets supported
        valid whole (λ e. differ (sym e)) positive covered in
    (
      _,
      _,
      reversed_lem env id by reason s tx found fresh credited debited
          ∙ written_lem env by reason tx (record s { wallets = ws' })
              (record {
                sender = storable.sender;
                receiver = storable.receiver;
                reference = storable.reference;
              }),
      moved,
      find-save_row (reversed_row env by reason s.next_id tx)
          (save_row (reversal_row env tx reason s.next_id) s.transactions),
      refl,
      refl,
    )
