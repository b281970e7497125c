-- ===== src/DisputeManager.antt =====
-- stellar/contracts/dispute-manager: the dispute lifecycle of both escrows.
pub mod State
pub mod Admin
pub mod Payouts
pub mod Disputes
pub mod Histories
pub mod Effects
pub mod Transfers
pub mod Deliveries
pub mod Changes
pub mod Soundness
pub mod Standing
pub mod Solvency
pub mod Backing
pub mod Lifecycle
