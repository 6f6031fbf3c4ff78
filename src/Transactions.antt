-- ===== src/Transactions.antt =====
-- `TransactionService` of bxcommon/services/transaction_service.py. `State` has the attributes,
-- `Removal`, `Assign` and `Expiry` the methods; the other children are about them.
pub mod State
pub mod Removal
pub mod Assign
pub mod Expiry
pub mod Core
pub mod Valid
pub mod Safe
pub mod SafeKey
pub mod Memory
pub mod Storing
pub mod Unassign
pub mod Alarms
pub mod Reach
mod Tests
