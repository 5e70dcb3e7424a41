-- ===== src/Ledger.antt =====
-- src/reconciliation/ledger-verification.service.ts over the wallets and the transactions. The rows
-- that it saves and logs are its result.
pub mod Senders
use nexa_fx_js.Base.{
  ℕ, ◌+◌, Bool, true, false, ◌&&◌, List, [], ◌∷◌, ◌==◌, ltb, if◌then◌else◌, length, Text, same_text,
}
use nexa_fx_js.Base.Int.{ℤ, pos, ◌+ℤ◌, ◌-ℤ◌, pos_part, neg_part}
use nexa_fx_js.Wallets.{Wallet, Wallets}
use nexa_fx_js.Transactions.Data.{Transaction, TransactionStatus}

pub record Discrepancy : Type 0 where
  pub account_id : ℕ
  pub currency : Text
  pub stored : ℤ
  pub ledger : ℤ
  pub diff : ℕ

pub record LedgerVerificationResult : Type 0 where
  pub total_checked : ℕ
  pub discrepancy_count : ℕ
  pub discrepancies : List Discrepancy

abbrev pub is_completed : TransactionStatus → Bool
is_completed TransactionStatus.completed = true
is_completed _ = false

-- The rows of the query: `receiverId`, `currency` and `status`.
abbrev pub is_received : ℕ → Text → Transaction → Bool
is_received account currency tx =
    (tx.receiver_id == account) && same_text tx.currency currency && is_completed tx.status

-- `COALESCE(SUM(tx.amount), 0)`
unfoldable pub ledger_balance : ℕ → Text → List Transaction → ℤ
ledger_balance account currency [] = pos 0
ledger_balance account currency (tx ∷ txs) =
    let rest = ledger_balance account currency txs in
    if is_received account currency tx then tx.amount +ℤ rest else rest

-- `minus(…).abs()`
unfoldable pub distance : ℤ → ℤ → ℕ
distance a b = pos_part (a -ℤ b) + neg_part (a -ℤ b)

-- 0.01
abbrev pub tolerance : ℕ
tolerance = 1_000_000

abbrev pub check_wallet : List Transaction → Wallet → List Discrepancy → List Discrepancy
check_wallet txs w found =
    let ledger = ledger_balance w.account_id w.currency txs in
    if ltb tolerance (distance ledger w.balance)
    then record {
      account_id = w.account_id;
      currency = w.currency;
      stored = w.balance;
      ledger = ledger;
      diff = distance ledger w.balance;
    }
      ∷ found
    else found

abbrev pub check_wallets : List Transaction → Wallets → List Discrepancy
check_wallets txs [] = []
check_wallets txs (w ∷ ws) = check_wallet txs w (check_wallets txs ws)

unfoldable pub verify : Wallets → List Transaction → LedgerVerificationResult
verify ws txs = record {
  total_checked = length ws;
  discrepancy_count = length (check_wallets txs ws);
  discrepancies = check_wallets txs ws;
}
