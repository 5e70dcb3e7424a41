-- ===== src/Transactions/Keeps/Methods.antt =====
-- The invariant under each method of src/transactions/transactions.service.ts, in every environment.
use Prim.Native.String.{String}
use nexa_fx_js.Base.{ℕ, zero, suc, ◌+◌, List, Option, ◌≡◌, Text, inl, inr, Bool-cases}
use nexa_fx_js.Base.Int.{ℤ}
use nexa_fx_js.Base.Action.{Result, ok, err, Error, Result-cases}
use nexa_fx_js.Base.Keeps.{Keeps}
use nexa_fx_js.Limits.{LimitConfig}
use nexa_fx_js.Transactions.Data.{State, Env, Transaction}
use nexa_fx_js.Transactions.Transfer.{
  TransferDto, admit_transfer, move_funds, transfer, confirm, after_moving, settle_transfer,
  record_and_settle, create_internal_transfer,
}
use nexa_fx_js.Transactions.Withdrawal.{
  DepositDto, create_deposit, WithdrawalDto, admit_withdrawal, complete_withdrawal,
  refund_withdrawal, or_refund, debit_withdrawal, record_withdrawal, create_withdrawal,
}
use nexa_fx_js.Transactions.Swap.{
  SwapDto, admit_swap, credit_swap, write_swap, swap_attempt, give_up, swap_attempts, record_swap,
  create_swap, marked,
}
use nexa_fx_js.Transactions.Reversal.{
  update_tags, cancel_transaction, move_back, write_reversal, reverse_transaction,
}
use nexa_fx_js.Transactions.Keeps.{IsHealthy, steps}

module _ {config : LimitConfig} where
  move_funds-Keeps : (env : Env) (dto : TransferDto) → Keeps (IsHealthy config) (move_funds env dto)
  unfolding move_funds
  move_funds-Keeps env dto = search steps

  confirm-Keeps : (env : Env) (tx : Transaction) → Keeps (IsHealthy config) (confirm env tx)
  unfolding confirm
  confirm-Keeps env tx = elim (Bool-cases (env.save_up 0)) [
    | inl up ↦ rw up (search steps)
    | inr down ↦ rw down (search steps)
  ]

  catch-Keeps :
      (env : Env) (dto : TransferDto) (tx : Transaction)
      → Keeps (IsHealthy config) (settle_transfer env dto tx)
  unfolding settle_transfer after_moving
  catch-Keeps env dto tx = record {
    at = λ s h. settled (move_funds env dto s) ((move_funds-Keeps env dto).at s h);
  }
    where
      settled :
          (r : Result (Unit {0}) × State)
          → IsHealthy config r.1
          → IsHealthy config (after_moving env tx r).1
      settled (ok _, s) h = (confirm-Keeps env tx).at s h
      settled (err _, s) h = h

  pub transfer-Keeps : (env : Env) (dto : TransferDto) → Keeps (IsHealthy config) (transfer env dto)
  unfolding transfer admit_transfer record_and_settle
  transfer-Keeps env dto = search (steps, catch-Keeps) depth 14

  pub internal-Keeps :
      (env : Env) (find_by_email : Text → Option ℕ) (sender : ℕ) (email : Text) (amount : ℤ)
      (currency : Text) (reference : String)
      → Keeps
          (IsHealthy config)
          (create_internal_transfer env find_by_email sender email amount currency reference)
  unfolding create_internal_transfer
  internal-Keeps env find_by_email sender email amount currency reference =
      search (steps, transfer-Keeps)

  pub deposit-Keeps :
      (env : Env) (dto : DepositDto)
      → env.limit_config ≡ config
      → Keeps (IsHealthy config) (create_deposit env dto)
  unfolding create_deposit
  deposit-Keeps env dto e = search steps

  refunded-Keeps :
      (env : Env) (dto : WithdrawalDto) (tx : Transaction) (e : Error)
      → Keeps (IsHealthy config) (refund_withdrawal env dto tx e)
  unfolding refund_withdrawal
  refunded-Keeps env dto tx e = search steps

  or_refund-IsHealthy :
      (env : Env) (dto : WithdrawalDto) (tx : Transaction) (r : Result Transaction × State)
      → IsHealthy config r.1
      → IsHealthy config (or_refund env dto tx r).1
  unfolding or_refund
  or_refund-IsHealthy env dto tx (ok t, s) h = h
  or_refund-IsHealthy env dto tx (err e, s) h = (refunded-Keeps env dto tx e).at s h

  complete-Keeps :
      (env : Env) (dto : WithdrawalDto) (tx : Transaction)
      → Keeps (IsHealthy config) (complete_withdrawal env dto tx)
  unfolding complete_withdrawal
  complete-Keeps env dto tx = search steps

  pub withdrawal-Keeps :
      (env : Env) (dto : WithdrawalDto)
      → env.limit_config ≡ config
      → Keeps (IsHealthy config) (create_withdrawal env dto)
  unfolding create_withdrawal admit_withdrawal record_withdrawal debit_withdrawal
  withdrawal-Keeps env dto e = search (steps, attempted) depth 14
    where
      attempted :
          (tx : Transaction)
          → Keeps (IsHealthy config) (λ s. or_refund env dto tx (complete_withdrawal env dto tx s))
      attempted tx = record {
        at = λ s h.
            or_refund-IsHealthy env dto tx (complete_withdrawal env dto tx s)
              ((complete-Keeps env dto tx).at s h);
      }

  credit-Keeps :
      (env : Env) (dto : SwapDto) (attempt : ℕ)
      → Keeps (IsHealthy config) (credit_swap env dto attempt)
  credit-Keeps env dto attempt = search steps

  write-Keeps :
      (env : Env) (dto : SwapDto) (attempt : ℕ) (tx : Transaction)
      → Keeps (IsHealthy config) (write_swap env dto attempt tx)
  unfolding write_swap
  write-Keeps env dto attempt tx = search steps

  give_up-Keeps :
      (dto : SwapDto) (tx : Transaction) (last : Option Error)
      → Keeps (IsHealthy config) (give_up dto tx last)
  unfolding give_up
  give_up-Keeps dto tx last = search steps

  attempt-IsHealthy :
      (env : Env) (dto : SwapDto) (attempt : ℕ) (tx : Transaction) (s : State)
      → IsHealthy config s
      → IsHealthy config (swap_attempt env dto attempt tx s).1
  unfolding swap_attempt
  attempt-IsHealthy env dto attempt tx s h =
      let credited = (credit-Keeps env dto attempt).at s h in
      elim (Result-cases (credit_swap env dto attempt s).0) [
        | inl (u, e) ↦
            rw (swap_attempt, e)
              ((write-Keeps env dto attempt (marked env attempt tx)).at
                (credit_swap env dto attempt s).1 credited)
        | inr (x, e) ↦ rw (swap_attempt, e) credited
      ]

  attempts-Keeps :
      (env : Env) (dto : SwapDto) (left attempt : ℕ) (tx : Transaction) (last : Option Error)
      → Keeps (IsHealthy config) (swap_attempts env dto left attempt tx last)
  unfolding swap_attempts
  attempts-Keeps env dto zero attempt tx last = give_up-Keeps dto tx last
  attempts-Keeps env dto (suc left) attempt tx last = record {
    at = λ s h.
        let kept = attempt-IsHealthy env dto attempt tx s h in
        elim (Result-cases (swap_attempt env dto attempt tx s).0) [
          | inl (t, e) ↦ rw (swap_attempts, e) kept
          | inr (x, e) ↦ elim (Bool-cases (env.note_up attempt)) [
            | inl noted ↦
                rw (swap_attempts, e, noted)
                  ((attempts-Keeps env dto left (attempt + 1) _ _).at _
                    (record { wallets = kept.wallets; limits = kept.limits }))
            | inr lost ↦ rw (swap_attempts, e, lost) kept
          ]
        ];
  }

  pub swap-Keeps :
      (env : Env) (dto : SwapDto)
      → env.limit_config ≡ config
      → Keeps (IsHealthy config) (create_swap env dto)
  unfolding create_swap admit_swap record_swap
  swap-Keeps env dto e = search (steps, attempts-Keeps)

  pub tags-Keeps :
      (id user : ℕ) (tag : Option String) (tags : Option (List String))
      → Keeps (IsHealthy config) (update_tags id user tag tags)
  unfolding update_tags
  tags-Keeps id user tag tags = search steps

  pub cancel-Keeps : (id : ℕ) → Keeps (IsHealthy config) (cancel_transaction id)
  unfolding cancel_transaction
  cancel-Keeps id = search steps

  pub reverse-Keeps :
      (env : Env) (id by : ℕ) (reason : String)
      → Keeps (IsHealthy config) (reverse_transaction env id by reason)
  unfolding reverse_transaction move_back write_reversal
  reverse-Keeps env id by reason = search steps depth 14
