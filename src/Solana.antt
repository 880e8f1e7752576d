-- ===== src/Solana.antt =====
-- What the buyer asks of the chain, offchain/solana.
pub mod SignatureOutcome
pub mod RateLimiter
pub mod Debits
