-- ===== src/Examples/Books.antt =====
-- The ledger after Alice has sent Bob 10 dollars.
use nexa_fx_js.Base.{ℕ, ◌≡◌, refl, sym, ap, subst, ◌∙◌, true, none, some, [], ◌∷◌, ◌++◌, arith}
use nexa_fx_js.Base.Int.{ℤ, pos, neg, ◌+ℤ◌}
use nexa_fx_js.Base.Action.{ok}
use nexa_fx_js.Currencies.{validate_currency, is_supported_currency, normalize_currency_code}
use nexa_fx_js.Wallets.{
  Wallet, Wallets, adjust_balance, write_balance, with_transaction, get_balance, save_wallet, is_of,
  find_wallet,
}
use nexa_fx_js.Wallets.Balance.{balance_at}
use nexa_fx_js.Wallets.Move.{IsMoved, debit-credit-IsMoved}
use nexa_fx_js.Transactions.Data.{Transaction, Metadata, completed}
use nexa_fx_js.Ledger.{verify, ledger_balance}
use nexa_fx_js.Ledger.Senders.{is_reported, sender_reported}
use nexa_fx_js.Examples.{usd, usd_supported, alice, bob, two_wallets, two_wallets-IsValid}

abbrev ten : ℤ
ten = pos 1_000_000_000

abbrev poorer : Wallet
poorer = record alice { balance = pos 9_000_000_000 }

abbrev richer : Wallet
richer = record bob { balance = pos 3_000_000_000 }

abbrev sent : Wallets
sent = poorer ∷ richer ∷ []

debit_run : adjust_balance 1 usd (neg ten) two_wallets ≡ (ok poorer, poorer ∷ bob ∷ [])
unfolding adjust_balance write_balance with_transaction get_balance save_wallet validate_currency
    is_supported_currency normalize_currency_code is_of ◌+ℤ◌
debit_run = refl

credit_run : adjust_balance 2 usd ten (poorer ∷ bob ∷ []) ≡ (ok richer, sent)
unfolding adjust_balance write_balance with_transaction get_balance save_wallet validate_currency
    is_supported_currency normalize_currency_code is_of ◌+ℤ◌
credit_run = refl

sent-IsMoved : IsMoved 1 2 usd ten two_wallets sent
unfolding is_of
sent-IsMoved =
    let (w, ws₁, v, ws₂, debited, credited, moved) =
      debit-credit-IsMoved 1 2 usd usd ten two_wallets usd_supported two_wallets-IsValid
        (record { debit = refl; credit = refl }) (λ e. omega arith) (omega arith) (omega arith) in
    let first : ws₁ ≡ poorer ∷ bob ∷ [] = ap (λ r. r.1) (sym debited ∙ debit_run) in
    let second : ws₂ ≡ sent =
      ap (λ r. r.1) (sym credited ∙ ap (adjust_balance 2 usd ten) first ∙ credit_run) in
    subst (IsMoved 1 2 usd ten two_wallets) second moved

abbrev receipt : (id from to : ℕ) → ℤ → Transaction
receipt id from to amount = record {
  id = id;
  sender_id = from;
  receiver_id = to;
  amount = amount;
  currency = usd;
  fee = pos 0;
  status = completed;
  reference = "";
  receipt_number = none;
  metadata = Metadata.plain;
  completed_at = some 1;
  reversed_at = none;
  reversed_by = none;
  reversal_reason = none;
  reversal_transaction_id = none;
  retry_count = 0;
  tag = none;
  tags = none;
}

books_agree :
    balance_at 1 usd two_wallets ≡ ledger_balance 1 usd (receipt 1 9 1 (pos 10_000_000_000) ∷ [])
unfolding ledger_balance is_of ◌+ℤ◌
books_agree = refl

poorer_found : find_wallet 1 usd sent ≡ some poorer
unfolding is_of
poorer_found = refl

sender_reported_example :
    is_reported 1 usd
      (verify sent
        ((receipt 1 9 1 (pos 10_000_000_000) ∷ []) ++ receipt 2 1 2 ten ∷ [])).discrepancies
    ≡ true
sender_reported_example =
    sender_reported 1 2 usd ten two_wallets sent poorer (receipt 1 9 1 (pos 10_000_000_000) ∷ [])
      (receipt 2 1 2 ten ∷ []) sent-IsMoved poorer_found books_agree (refl, tt) (omega arith)
