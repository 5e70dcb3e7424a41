-- ===== src/Transactions.antt =====
-- src/transactions/transaction.entity.ts, and the state that the methods of
-- src/transactions/transactions.service.ts work on. One `Env` holds what the outside answers during
-- one call: the clock, the other services, and which database writes go through.
-- A write outside a `try` that fails ends the method there and is not modelled further.
pub mod Data
pub mod Keeps
pub mod Transfer
pub mod Withdrawal
pub mod Swap
pub mod Reversal
pub mod Service
pub mod History
unfoldable pub use Data.*
