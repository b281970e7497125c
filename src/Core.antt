-- ===== src/Core.antt =====
-- The shared crate stellar/lib/proofbridge-core: data types, fault codes, and pure rules.
pub mod Faults
pub mod Orders
pub mod Fees
pub mod Timing
pub mod Scaling
pub mod RateLimit
pub mod Bonds
pub mod Timelock
