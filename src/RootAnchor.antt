-- ===== src/RootAnchor.antt =====
-- stellar/contracts/root-anchor: the notary of source-chain roots.
pub mod State
pub mod Admin
pub mod Notary
pub mod Approvals
pub mod Histories
pub mod Reachable
pub mod Revocation
pub mod Quorum
pub mod Authorization
