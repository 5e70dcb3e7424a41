-- ===== src/Examples.antt =====
-- Concrete users, wallets and requests, on which the theorems are applied and the code is run.
mod Balances
mod Payments
mod Swaps
mod Accounts
mod Hooks
mod Requests
mod Books
mod Admins
mod Access
mod Guards
mod FeeRules
use nexa_fx_js.Base.{
  ℕ, ◌≡◌, refl, Bool, true, false, Option, none, some, List, [], ◌∷◌, Text, codes, arith,
}
use nexa_fx_js.Base.Int.{ℤ, pos}
use nexa_fx_js.Base.Action.{Result, ok}
use nexa_fx_js.Currencies.{validate_currency, is_supported_currency, normalize_currency_code, trim}
use nexa_fx_js.Limits.{Limits, LimitConfig}
use nexa_fx_js.Transactions.Data.{State, Env}
use nexa_fx_js.Wallets.{Wallet, Wallets, is_of}
use nexa_fx_js.Wallets.Invariant.{IsSound, IsValid}

abbrev pub usd : Text
usd = codes "USD"

abbrev pub eur : Text
eur = codes "EUR"

pub usd_supported : validate_currency usd ≡ ok usd
unfolding validate_currency is_supported_currency normalize_currency_code
usd_supported = refl

pub eur_supported : validate_currency eur ≡ ok eur
unfolding validate_currency is_supported_currency normalize_currency_code
eur_supported = refl

-- 100 dollars, and 20.
abbrev pub alice : Wallet
alice = record {
  account_id = 1;
  currency = usd;
  balance = pos 10_000_000_000;
  label = none;
  color = none;
}

abbrev pub bob : Wallet
bob = record {
  account_id = 2;
  currency = usd;
  balance = pos 2_000_000_000;
  label = none;
  color = none;
}

abbrev pub two_wallets : Wallets
two_wallets = alice ∷ bob ∷ []

pub two_wallets-IsValid : IsValid two_wallets
unfolding is_of
two_wallets-IsValid = (
  record {
    covered = omega arith;
    whole = record { debit = refl; credit = refl };
    supported = usd_supported;
  },
  refl,
  (
    record {
      covered = omega arith;
      whole = record { debit = refl; credit = refl };
      supported = usd_supported;
    },
    refl,
    tt,
  ),
)

abbrev pub limit_config : LimitConfig
limit_config = record {
  daily_limit_usd = pos 1_000_000_000_000;
  monthly_limit_usd = pos 10_000_000_000_000;
  single_tx_limit_usd = pos 500_000_000_000;
}

abbrev pub no_limits_used : Limits
no_limits_used = record { daily_totals = λ u k. pos 0; monthly_totals = λ u k. pos 0 }

-- Every step gets through.
abbrev pub all_up : Env
all_up = record {
  now = 1000;
  year = 2026;
  month = 5;
  day = 150;
  limit_config = limit_config;
  convert = λ amount currency. ok amount;
  terms_accepted = λ user. true;
  is_deactivated = λ user. false;
  account_exists = λ address. true;
  user_exists = λ user. true;
  sequence_up = true;
  debit_up = true;
  credit_up = λ k. true;
  save_up = λ k. true;
  record_up = λ k. true;
  note_up = λ k. true;
  cache_up = true;
}

-- No save of a completed row gets through.
abbrev pub no_saves : Env
no_saves = record all_up { save_up = λ k. false }

abbrev pub start : State
start = record {
  wallets = two_wallets;
  limits = no_limits_used;
  transactions = [];
  events = [];
  next_id = 1;
  receipt_seq = 1;
}
