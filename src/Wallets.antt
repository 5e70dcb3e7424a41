-- ===== src/Wallets.antt =====
-- src/wallet/wallets.service.ts over the rows of `wallet_balances` (wallet-balance.entity.ts), and
-- src/common/helpers/with-transaction.helper.ts.
-- An amount is an integer of units of 10^-8, the finest scale of the program's decimal columns;
-- Big.js and the doubles are exact on it. A cent is 1,000,000 units.
-- The row lock makes each call of `adjust_balance` one step.
pub mod Money
pub mod Balance
pub mod Total
pub mod Invariant
pub mod Adjust
pub mod Move
pub mod MoveBack
pub mod Drift
pub mod Refund
use Prim.Native.String.{String}
use nexa_fx_js.Base.{
  ℕ, ◌+◌, ◌*◌, ◌/◌, ◌≡◌, suc, Bool, true, false, ◌&&◌, Option, none, some, List, [], ◌∷◌, ◌==◌,
  if◌then◌else◌, find, filter, Text, same_text, or_else,
}
use nexa_fx_js.Base.Int.{ℤ, pos, negsuc, ◌+ℤ◌, neg, ltb_ℤ}
use nexa_fx_js.Base.Action.{
  Action, Result, ok, err, bad_request, insufficient_balance, wallet_not_found, ◌>>=◌, ◌>>◌, get,
  pure, throw_if, or_throw, modify, roll_back, lift,
}
use nexa_fx_js.Currencies.{validate_currency}

pub record Wallet : Type 0 where
  pub account_id : ℕ
  pub currency : Text
  pub balance : ℤ
  pub label : Option String
  pub color : Option String

abbrev pub Wallets : Type 0
Wallets = List Wallet

-- `where: { accountId, currency }`
unfoldable pub is_of : ℕ → Text → Wallet → Bool
is_of account currency w = (w.account_id == account) && same_text w.currency currency

abbrev pub find_wallet : ℕ → Text → Wallets → Option Wallet
find_wallet account currency ws = find (is_of account currency) ws

-- The wallet that `getBalance` answers with, and that `adjustBalance` creates, if there is none.
abbrev pub empty_wallet : ℕ → Text → Wallet
empty_wallet account currency = record {
  account_id = account;
  currency = currency;
  balance = pos 0;
  label = none;
  color = none;
}

-- `manager.save(wallet)`: the row with its unique key is written over, or a new row is added.
unfoldable pub save_wallet : Wallet → Wallets → Wallets
unfolding is_of
save_wallet w [] = w ∷ []
save_wallet w (v ∷ vs) = if is_of w.account_id w.currency v then w ∷ vs else v ∷ save_wallet w vs

-- `with-transaction.helper.ts`: commit what succeeds, roll back what throws, and throw again.
unfoldable pub with_transaction : {S A : Type 0} → Action S A → Action S A
with_transaction fn s = roll_back s (fn s)

-- A whole number of cents, half a cent up: `toFixed(2)` of Big.js on the absolute value.
abbrev pub half_up_cents : ℕ → ℕ
half_up_cents n = (n + 500_000) / 1_000_000 * 1_000_000

unfoldable pub to_fixed_2 : ℤ → ℤ
to_fixed_2 (pos n) = pos (half_up_cents n)
to_fixed_2 (negsuc n) = neg (pos (half_up_cents (suc n)))

abbrev pub is_zero : ℤ → Bool
is_zero (pos n) = n == 0
is_zero (negsuc n) = false

-- `getBalance` after the validation of the currency.
abbrev pub read_wallet : ℕ → Text → Wallets → Wallet
read_wallet account currency ws =
    or_else (find_wallet account currency ws) (empty_wallet account currency)

unfoldable pub get_balance : ℕ → Text → Action Wallets Wallet
get_balance account currency = do
  normalized_currency ← lift (validate_currency currency)
  get (read_wallet account normalized_currency)

-- The body of the database transaction of `adjustBalance`.
unfoldable pub write_balance : ℕ → Text → ℤ → Action Wallets Wallet
unfolding to_fixed_2
write_balance account currency delta = do
  wallet ← get (read_wallet account currency)
  let new_balance = to_fixed_2 (wallet.balance +ℤ delta)
  throw_if (ltb_ℤ new_balance (pos 0)) (bad_request insufficient_balance)
  modify (save_wallet (record wallet { balance = new_balance }))
  pure (record wallet { balance = new_balance })

unfoldable pub adjust_balance : ℕ → Text → ℤ → Action Wallets Wallet
unfolding with_transaction
adjust_balance account currency delta = do
  normalized_currency ← lift (validate_currency currency)
  if is_zero delta
      then get_balance account normalized_currency
      else with_transaction (write_balance account normalized_currency delta)

abbrev pub get_balances_for_account : ℕ → Wallets → Wallets
get_balances_for_account account ws = filter (λ w. w.account_id == account) ws

-- `undefined` leaves a field alone.
abbrev pub update_customization : ℕ → Text → Option String → Option String → Action Wallets Wallet
update_customization account currency label color = do
  normalized_currency ← lift (validate_currency currency)
  wallet ← get (find_wallet account normalized_currency)
  found ← or_throw wallet (bad_request wallet_not_found)
  let changed = record found {
    label = elim label [ none ↦ found.label | some l ↦ some l ];
    color = elim color [ none ↦ found.color | some c ↦ some c ];
  }
  modify (save_wallet changed)
  pure changed
