-- ===== src/OrderPortal.antt =====
-- stellar/contracts/order-portal: the follower's escrow of bridgers' deposits.
pub mod State
pub mod Admin
pub mod Checks
pub mod Orders
pub mod Effects
pub mod Deposits
pub mod Payouts
pub mod Endings
pub mod Unlocking
pub mod Leaving
pub mod Histories
pub mod Calls
pub mod Changes
pub mod Solvency
pub mod Holding
pub mod Backing
pub mod Finality
pub mod Rules
pub mod Pausing
pub mod Settlement
pub mod Exits
pub mod Refinement
