-- ===== src/Escrow.antt =====
-- What the two escrows share: stellar/lib/proofbridge-core/src/escrow_storage.rs and the termination
-- core of escrow_ops.rs.
pub mod State
pub mod Peers
pub mod Payments
pub mod Legs
pub mod Termination
pub mod Clocks
pub mod Filing
pub mod Verdicts
pub mod Closing
pub mod Evidence
