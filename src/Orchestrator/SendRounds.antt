-- ===== src/Orchestrator/SendRounds.antt =====
-- The delivery rounds, offchain/orchestrator/sendRounds.ts: which round each delivery stands in,
-- how much it gets, and how a batch of deliveries is sent.
pub mod Plan
pub mod Deficit
pub mod Pending
pub mod Batch
