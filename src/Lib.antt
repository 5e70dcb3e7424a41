-- ===== src/Lib.antt =====
-- The money-moving core of the NexaFx server, and the services that guard it.
--
-- The program is a NestJS server. A request for a payment goes to the transactions service, which asks
-- the terms, the deactivations and the limits, reads and changes balances through the wallets service,
-- and keeps a row for each transaction. Around it stand services with a table of their own.
--
-- Base: numbers, lists, integers, and `Action`, a method that reads and writes a state and may throw;
--   what was written before a throw stays written.
-- Currencies: src/currencies/supported-currencies.ts and `validateCurrency` of the wallets service.
--   Upper case is that of the letters a to z; any other character is kept.
-- Wallets: src/wallet/wallets.service.ts. `adjust_balance` is `adjustBalance`, with its database
--   transaction (`with_transaction`); Balance, Total, Invariant and Adjust prove one call, Move,
--   MoveBack, Refund and Drift a debit with a credit.
-- Fees: src/fees/fees.service.ts.
-- FeeEngine: src/modules/fee/services/fee-engine.service.ts and src/fee-tiers. Choice is about the
--   rule that is applied, Rounding about the rounded fee.
-- Limits: src/transactions/transaction-limit.service.ts.
-- Transactions: src/transactions/transactions.service.ts. Data has the row and the steps shared by
--   the methods, Data.Storable the rows that the constraints of the table let in; Transfer, Withdrawal, Swap and Reversal have the methods, and their children prove.
--   History has the query of the history and its export (Wanted describes the filters, Order the
--   sorting, Pages joins the pages), Service the calls of the writing methods as
--   steps, Keeps what each of them preserves.
-- Disputes: src/disputes/disputes.service.ts.
-- Tokens: src/tokens/refresh-tokens.service.ts.
-- RateLimit: src/modules/rate-limit/services/per-user-rate-limit.service.ts.
-- EndpointLimit: src/modules/endpoint-rate-limit/services/endpoint-rate-limit.service.ts.
-- Kyc: src/kyc/kyc.service.ts; Bulk is kyc-bulk-review.service.ts.
-- Allowlist: src/common/guards/ip-allowlist.guard.ts.
-- Rates: src/fx/exchange-rate.service.ts.
-- Referral: src/referral/referral.service.ts.
-- Users: src/users/users.service.ts, `register` of src/auth/auth.service.ts and src/terms. Unique is
--   about ids and addresses, its child Index about the unique index, which never has to refuse.
--   BalanceCache has the cache of the wallet balances, with the requests interleaved.
-- PasswordReset: src/auth/password-reset.service.ts. Budget and Runs count what a token is good for.
-- Deactivation: src/modules/user-deactivation; Blocks joins it with the transfers and the logins.
-- ApiKeys: src/modules/api-keys, the service and the guard.
-- Admin: src/admin/admin.service.ts. Replay redoes the entries of the audit log, Audit is about what the
--   calls leave in it, Approval about the approvals.
-- Login: `login` and `rotateRefreshToken` of src/auth/auth.service.ts.
-- AccountFreeze: src/modules/account-freeze/services/account-freeze.service.ts.
-- Otp: src/otp/otp.service.ts.
-- Idempotency: src/idempotency, the guard, the interceptor, the service and the clean-up job, around
--   any handler. Replay is about requests that come again.
-- Webhooks: src/webhooks. Address and Url have the check of a URL, Dispatch what an event adds,
--   Processor the processor of the queue, Retry the job that tries again.
-- Closure: src/users/account-closure.service.ts and account-closure.purge.job.ts, over the wallets and
--   the refresh tokens. TwoFactor has the one-time code; Deletion is account-deletion.service.ts, in
--   src/users/services.
-- Tiers: src/modules/kyc-tiers/services/kyc-tiers.service.ts.
-- Rollback: src/modules/transactions/services/transaction-rollback.service.ts.
-- BulkPayments: src/bulk-payments/bulk-payments.service.ts.
-- Aml: src/aml/aml-screening.service.ts and aml.service.ts.
-- Ledger: src/reconciliation/ledger-verification.service.ts, over the wallets and the transactions.
-- Examples: concrete states, on which the theorems are applied.
--
-- Choices. An amount is an integer of units of 10^-8, the finest decimal column, and arithmetic on it
-- is exact, where the program has Big.js and doubles. Ids are natural numbers, times are milliseconds.
-- A table is a list of its rows; `findOne` is the first that fits. Each method is one step, as the row
-- locks make the balance changes; only for the cache of the balances do requests interleave. A write
-- that the program guards by a `try` may fail, as `Env` says (`save_up`, `credit_up` and so on); the others get
-- through, but for a row of a transaction that a unique index or a foreign key refuses. `adjustBalance` opens a database transaction of its own, so a transaction around it does
-- not roll it back. Terms, deactivations, the existence of a user and of a Stellar account, the exchange rate, the
-- hashes, the URL parser, DNS and what a POST answers are parameters. Three recursions have a bound.
-- The retry of a swap is recursion on the attempts left, from the program's MAX_RETRIES, 3. A job of
-- the webhook queue, which Bull runs again while it throws, is recursion on the runs that it is given;
-- as many as its setting `attempts` leaves are enough. The decimal digits of a one-time code are
-- written in six steps, which are enough as the code is below 10^6 (`decimal_enough`).
--
-- Not modelled: the comments and the simulation of the transactions service, auto-sweep, the
-- smurfing check of the AML service, the second authentication and transactions modules, the rate
-- table, statements, support and exports, controllers, the entities' other indices and everything that only
-- formats or sends.
pub mod Base
pub mod Currencies
pub mod Wallets
pub mod Fees
pub mod Limits
pub mod Transactions
pub mod Disputes
pub mod Tokens
pub mod RateLimit
pub mod Kyc
pub mod Referral
pub mod Login
pub mod AccountFreeze
pub mod Otp
pub mod Idempotency
pub mod Webhooks
mod Examples
pub mod Closure
pub mod Tiers
pub mod BulkPayments
pub mod Aml
pub mod EndpointLimit
pub mod Ledger
pub mod Admin
pub mod PasswordReset
pub mod Users
pub mod Deactivation
pub mod ApiKeys
pub mod Allowlist
pub mod Rates
pub mod Rollback
pub mod FeeEngine
