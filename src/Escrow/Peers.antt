-- ===== src/Escrow/Peers.antt =====
-- The contracts and host functions that an escrow calls, as far as it relies on them. They are
-- parameters: token contracts, the Merkle manager, the proof and root verifiers, the notary, and the
-- host's address and field encodings. A call that fails is `none`.
use proofbridge_contracts.Base.{ℕ, Bool, Option, List}
use proofbridge_contracts.DisputeManager.State.{Tokens}

pub record Peers (World : Type 0) : Type 0 where
  -- `balance` and `try_transfer`
  pub tokens : Tokens World
  pub decimals : World → ℕ → Option ℕ
  -- `try_append_order_hash` of a manager: the caller, the order hash and the leaf's domain
  pub append : World → ℕ → ℕ → ℕ → ℕ → Option World
  -- `try_verify_proof` of a verifier, on the public inputs and the proof
  pub verify_proof : World → ℕ → List ℕ → ℕ → Bool
  -- `is_root_valid` of a module: the chain, the root, the envelope and the co-signatures
  pub is_root_valid : World → ℕ → ℕ → ℕ → List ℕ → ℕ → Option Bool
  -- `try_is_anchored` of an anchor: the chain and the root
  pub is_anchored : World → ℕ → ℕ → ℕ → Bool
  -- the reduction to the proof system's field
  pub field_mod : ℕ → ℕ
  -- the addresses that 32 bytes name as an account and as a contract
  pub account_address : ℕ → ℕ
  pub contract_address : ℕ → ℕ
