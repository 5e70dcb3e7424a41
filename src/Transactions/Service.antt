-- ===== src/Transactions/Service.antt =====
-- The service as a whole: calls of its methods one after the other, each in an environment of its own.
use Prim.Native.String.{String}
use nexa_fx_js.Base.{ℕ, ◌≡◌, Option, List, Text}
use nexa_fx_js.Base.Int.{ℤ}
use nexa_fx_js.Limits.{LimitConfig}
use nexa_fx_js.Transactions.Data.{State, Env}
use nexa_fx_js.Transactions.Transfer.{TransferDto, transfer, create_internal_transfer}
use nexa_fx_js.Transactions.Withdrawal.{
  DepositDto, create_deposit, WithdrawalDto, create_withdrawal,
}
use nexa_fx_js.Transactions.Swap.{SwapDto, create_swap}
use nexa_fx_js.Transactions.Reversal.{update_tags, cancel_transaction, reverse_transaction}
use nexa_fx_js.Transactions.Keeps.{IsHealthy}
use nexa_fx_js.Transactions.Keeps.Methods.{
  transfer-Keeps, internal-Keeps, deposit-Keeps, withdrawal-Keeps, swap-Keeps, tags-Keeps,
  cancel-Keeps, reverse-Keeps,
}

-- The methods that write, with their arguments.
pub data Call : Type 0 where
  transfer_call : TransferDto → Call
  internal_transfer : (Text → Option ℕ) → ℕ → Text → ℤ → Text → String → Call
  deposit : DepositDto → Call
  withdrawal : WithdrawalDto → Call
  swap : SwapDto → Call
  tag : ℕ → ℕ → Option String → Option (List String) → Call
  cancel : ℕ → Call
  reverse : ℕ → ℕ → String → Call

-- The state after a call, whether it returned or threw.
abbrev pub run : Env → Call → State → State
run env (Call.transfer_call dto) s = (transfer env dto s).1
run env (Call.internal_transfer find_by_email sender email amount currency reference) s =
    (create_internal_transfer env find_by_email sender email amount currency reference s).1
run env (Call.deposit dto) s = (create_deposit env dto s).1
run env (Call.withdrawal dto) s = (create_withdrawal env dto s).1
run env (Call.swap dto) s = (create_swap env dto s).1
run env (Call.tag id user t ts) s = (update_tags id user t ts s).1
run env (Call.cancel id) s = (cancel_transaction id s).1
run env (Call.reverse id by reason) s = (reverse_transaction env id by reason s).1

-- The states that calls lead to, under one configuration of the limits.
pub data Reach (config : LimitConfig) (s : State) : State → Type 0 where
  here : Reach config s s
  next :
      {t : State}
      → Reach config s t
      → (env : Env) → env.limit_config ≡ config
      → (c : Call) → Reach config s (run env c t)

run-IsHealthy :
    {config : LimitConfig} (env : Env) (c : Call) (s : State)
    → env.limit_config ≡ config
    → IsHealthy config s
    → IsHealthy config (run env c s)
run-IsHealthy env (Call.transfer_call dto) s e = (transfer-Keeps env dto).at s
run-IsHealthy env (Call.internal_transfer find_by_email sender email amount currency reference) s
      e =
    (internal-Keeps env find_by_email sender email amount currency reference).at s
run-IsHealthy env (Call.deposit dto) s e = (deposit-Keeps env dto e).at s
run-IsHealthy env (Call.withdrawal dto) s e = (withdrawal-Keeps env dto e).at s
run-IsHealthy env (Call.swap dto) s e = (swap-Keeps env dto e).at s
run-IsHealthy env (Call.tag id user t ts) s e = (tags-Keeps id user t ts).at s
run-IsHealthy env (Call.cancel id) s e = (cancel-Keeps id).at s
run-IsHealthy env (Call.reverse id by reason) s e = (reverse-Keeps env id by reason).at s

-- From a healthy state, whatever calls are made, in whatever order, and whichever of their writes
-- fail, the service stays healthy: no balance is negative or off the cent, no account has two rows
-- for a currency, and no user's day or month is over its limit.
pub Reach-IsHealthy :
    {config : LimitConfig} {s t : State}
    → IsHealthy config s
    → Reach config s t
    → IsHealthy config t
Reach-IsHealthy h here = h
Reach-IsHealthy h (next {t} r env e c) = run-IsHealthy env c t e (Reach-IsHealthy h r)
