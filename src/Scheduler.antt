-- ===== src/Scheduler.antt =====
-- offchain/scheduler: the batch of purchases of one coin.
pub mod Types
pub mod Metrics
pub mod State
pub mod Slippage
pub mod Errors
pub mod Batch
