-- ===== src/Core/Orders.antt =====
-- stellar/lib/proofbridge-core/src/types.rs: the order leg's records and the route's parameters.
-- Addresses, 32-byte values, chain ids and times are numbers; an integer's width is stated where a
-- rule depends on it.
use proofbridge_contracts.Base.{ℕ, Bool}

pub data Status : Type 0 where
  absent opened filled claimed cancelled disputed resolved : Status

pub record RouteTiming : Type 0 where
  pub min_window : ℕ
  pub buffer : ℕ
  pub margin : ℕ
  pub claim_stagger : ℕ

pub data DisputeOutcome : Type 0 where
  undecided mutual_refund trade_proceeds bridger_forfeit maker_forfeit : DisputeOutcome

pub record DisputeParams : Type 0 where
  pub challenge_period : ℕ
  pub bond_floor : ℕ

pub record BondConfig : Type 0 where
  pub min_bond : ℕ
  pub bond_bps : ℕ

pub record DisputeRecord : Type 0 where
  pub initiator : ℕ
  pub bond : ℕ
  pub challenge_deadline : ℕ
  pub initiator_evidence : ℕ
  pub responder_evidence : ℕ
  pub ruling : DisputeOutcome
  pub escrow : ℕ
  pub order_deadline : ℕ
  pub buffer : ℕ
  pub bond_token : ℕ

pub record OrderRecord : Type 0 where
  pub status : Status
  pub locked_at : ℕ
  pub registry_epoch : ℕ
  pub timing_version : ℕ
  pub anchor_delay : ℕ
  pub pinned_slot : ℕ
  pub repinned : Bool

pub record ClaimRecord : Type 0 where
  pub opened_at : ℕ
  pub finalize_at : ℕ

pub record ContractConfig : Type 0 where
  pub admin : ℕ
  pub verifier : ℕ
  pub merkle_manager : ℕ
  pub w_native_token : ℕ
  pub chain_id : ℕ
