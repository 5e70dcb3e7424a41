-- ===== src/Transactions/Keeps.antt =====
-- An invariant of the whole of src/transactions/transactions.service.ts, and the steps that the
-- methods share.
pub mod Methods
use Prim.Native.String.{String}
use nexa_fx_js.Base.{
  ℕ, zero, suc, ◌+◌, List, [], ◌∷◌, Option, none, some, Bool, true, false, if◌then◌else◌, ◌≡◌, Text,
  inl, inr, Bool-cases,
}
use nexa_fx_js.Base.Int.{ℤ}
use nexa_fx_js.Base.Action.{Action, Result, ok, err, Error, ◌>>=◌, ◌>>◌, Result-cases}
use nexa_fx_js.Base.Keeps.{Keeps, keeps_rules, Keeps-bind, Keeps-pure}
use nexa_fx_js.Currencies.{validate_currency}
use nexa_fx_js.Wallets.{Wallet, Wallets, adjust_balance, get_balance}
use nexa_fx_js.Wallets.Invariant.{IsValid, Outcome}
use nexa_fx_js.Wallets.Adjust.{adjust_balance-Outcome, adjust_balance_unsupported}
use nexa_fx_js.Limits.{LimitConfig, check}
use nexa_fx_js.Limits.Bounds.{IsWithin, check-IsWithin}
use nexa_fx_js.Transactions.Data.{
  State, Env, if_up, on_wallets, on_limits, emit, save, save_row, Transaction, Event,
  ensure_accepted, check_limits, insert_row, generate_receipt_number, find_by_id, is_numbered,
  next_receipt,
}
use nexa_fx_js.Transactions.Data.Storable.{insert_row-cases, insert_row_lem}
use nexa_fx_js.Transactions.Transfer.{
  TransferDto, admit_transfer, move_funds, transfer, confirm, after_moving, settle_transfer,
  record_and_settle, create_internal_transfer,
}
use nexa_fx_js.Transactions.Withdrawal.{
  DepositDto, create_deposit, WithdrawalDto, admit_withdrawal, complete_withdrawal,
  refund_withdrawal, or_refund, debit_withdrawal, record_withdrawal, create_withdrawal,
}
use nexa_fx_js.Transactions.Swap.{
  SwapDto, admit_swap, credit_swap, write_swap, swap_attempt, give_up, swap_attempts, record_swap,
  create_swap, marked,
}
use nexa_fx_js.Transactions.Reversal.{
  update_tags, cancel_transaction, move_back, write_reversal, reverse_transaction,
}

-- The wallet table is valid, and no total is over its limit.
pub record IsHealthy (config : LimitConfig) (s : State) : Type 0 where
  pub wallets : IsValid s.wallets
  pub limits : IsWithin config s.limits

Outcome-IsValid :
    (account : ℕ) (c : Text) (delta : ℤ) (ws : Wallets) (r : Result Wallet × Wallets)
    → Outcome account c delta ws r
    → IsValid ws
    → IsValid r.1
Outcome-IsValid account c delta ws (ok w, ws') (_, valid, _) h = valid
Outcome-IsValid account c delta ws (err e, ws') (_, _, same) h = rw same h

adjust_balance-IsValid :
    (account : ℕ) (currency : Text) (delta : ℤ) (ws : Wallets)
    → IsValid ws
    → IsValid (adjust_balance account currency delta ws).1
adjust_balance-IsValid account currency delta ws h =
    elim (Result-cases (validate_currency currency)) [
      | inl (c, e) ↦
          Outcome-IsValid account c delta ws _
            (adjust_balance-Outcome account currency c delta ws e h) h
      | inr (e, p) ↦ rw (adjust_balance_unsupported account currency delta ws p) h
    ]

module _ {config : LimitConfig} where
  pub emit-Keeps : (e : Event) → Keeps (IsHealthy config) (emit e)
  emit-Keeps e = record { at = λ s h. record { wallets = h.wallets; limits = h.limits } }

  pub save-Keeps : (tx : Transaction) → Keeps (IsHealthy config) (save tx)
  save-Keeps tx = record { at = λ s h. record { wallets = h.wallets; limits = h.limits } }

  pub adjust-Keeps :
      (user : ℕ) (currency : Text) (z : ℤ)
      → Keeps (IsHealthy config) (on_wallets (adjust_balance user currency z))
  adjust-Keeps user currency z = record {
    at = λ s h. record {
      wallets = adjust_balance-IsValid user currency z s.wallets h.wallets;
      limits = h.limits;
    };
  }

  pub get_balance-Keeps :
      (user : ℕ) (currency : Text)
      → Keeps (IsHealthy config) (on_wallets (get_balance user currency))
  unfolding get_balance
  get_balance-Keeps user currency = record {
    at = λ s h. elim (Result-cases (validate_currency currency)) [
      | inl (c, e) ↦ rw e (record { wallets = h.wallets; limits = h.limits })
      | inr (x, e) ↦ rw e (record { wallets = h.wallets; limits = h.limits })
    ];
  }

  pub if_up-Keeps :
      {A : Type 0} (b : Bool) (m : Action State A)
      → Keeps (IsHealthy config) m
      → Keeps (IsHealthy config) (if_up b m)
  if_up-Keeps true m h = h
  if_up-Keeps false m h = record { at = λ s p. p }

  pub check-Keeps :
      (env : Env) (user : ℕ) (amount : ℤ) (currency : Text)
      → env.limit_config ≡ config
      → Keeps (IsHealthy config) (check_limits env user amount currency)
  check-Keeps env user amount currency e = record {
    at = λ s h. record {
      wallets = h.wallets;
      limits = rw e (
          check-IsWithin config env.convert env.day env.month user amount currency s.limits
            h.limits);
    };
  }

  pub insert-Keeps :
      (env : Env) (row : ℕ → Transaction) → Keeps (IsHealthy config) (insert_row env row)
  insert-Keeps env row = record {
    at = λ s h. elim (insert_row-cases env row s) [
      | inl fits ↦
          rw (insert_row_lem env row s fits) (record { wallets = h.wallets; limits = h.limits })
      | inr refused ↦ rw (refused) h
    ];
  }

  pub number-Keeps :
      (env : Env) (tx : Transaction) → Keeps (IsHealthy config) (generate_receipt_number env tx)
  unfolding generate_receipt_number
  number-Keeps env tx = record {
    at = λ s h. elim (Bool-cases (is_numbered tx.id (next_receipt env s) s.transactions)) [
      | inl taken ↦ rw (taken) (record { wallets = h.wallets; limits = h.limits })
      | inr free ↦ rw (free) (record { wallets = h.wallets; limits = h.limits })
    ];
  }

  pub find-Keeps : (id : ℕ) → Keeps (IsHealthy config) (find_by_id id)
  unfolding find_by_id
  find-Keeps id = search keeps_rules

  pub ruleset steps = (
    keeps_rules, emit-Keeps, save-Keeps, adjust-Keeps, get_balance-Keeps, if_up-Keeps, check-Keeps,
    insert-Keeps, number-Keeps, find-Keeps,
  )
