-- ===== src/MerkleManager.antt =====
-- stellar/contracts/merkle-manager: the Merkle mountain range that the escrows append to.
pub mod Positions
pub mod Counting
pub mod Peaks
