-- ===== src/Orchestrator.antt =====
-- The round orchestrator, offchain/orchestrator.
pub mod Types
pub mod Shares
pub mod Metrics
pub mod State
pub mod PurchaseTokens
pub mod Burns
pub mod Semaphore
pub mod SendRounds
pub mod RefundLedger
pub mod Refunds
pub mod ProgramErrors
pub mod Resume
pub mod Settle
