-- ===== src/Examples.antt =====
-- The theorems at concrete inputs, and small runs of the definitions.
pub mod Data
pub mod Burning
pub mod Delivering
pub mod Keeping
pub mod Refunding
pub mod Buying
pub mod Settling
pub mod Resuming
pub mod ToppingUp
pub mod Reading
