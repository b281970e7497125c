-- ===== src/OrderPortal/State.antt =====
-- stellar/contracts/order-portal/src/types.rs, storage.rs, errors.rs and token.rs.
use proofbridge_contracts.Base.{ℕ, [], Map, Action, ok, err, trap, ◌>>=◌, gets, ok_or}
use proofbridge_contracts.Core.Faults.{
  Fault, no_dispute_manager, not_disputable, dispute_not_resolved, dispute_window_closed,
  dispute_module_rejected, dispute_no_params, dispute_not_escrow, dispute_exists,
  dispute_wrong_escrow, dispute_not_responder, dispute_bond_transfer_failed,
  dispute_response_window_closed, dispute_already_responded, dispute_zero_response,
  dispute_already_ruled,
}
use proofbridge_contracts.Core.Orders.{ContractConfig}
use proofbridge_contracts.Escrow.State as escrow
use proofbridge_contracts.Escrow.Payments.{Escrowed}

-- The contract's own refusals, and those that carry a shared reason's name.
pub data OrderPortalError : Type 0 where
  shared : Fault → OrderPortalError
  zero_amount invalid_ad_recipient routes_zero_address ad_chain_not_supported : OrderPortalError
  ad_manager_mismatch missing_route ad_token_mismatch order_exists order_not_open : OrderPortalError
  nullifier_used zero_address already_initialized not_initialized : OrderPortalError
  order_decimals_mismatch root_not_valid root_verifier_not_set order_expired : OrderPortalError
  invalid_fee recipient_zero recipient_is_maker : OrderPortalError

-- The follower collapses the dispute module's refusals.
unfoldable pub fault_error : Fault → OrderPortalError
fault_error no_dispute_manager = shared dispute_module_rejected
fault_error not_disputable = shared dispute_module_rejected
fault_error dispute_not_resolved = shared dispute_module_rejected
fault_error dispute_window_closed = shared dispute_module_rejected
fault_error dispute_no_params = shared dispute_module_rejected
fault_error dispute_not_escrow = shared dispute_module_rejected
fault_error dispute_exists = shared dispute_module_rejected
fault_error dispute_wrong_escrow = shared dispute_module_rejected
fault_error dispute_not_responder = shared dispute_module_rejected
fault_error dispute_bond_transfer_failed = shared dispute_module_rejected
fault_error dispute_response_window_closed = shared dispute_module_rejected
fault_error dispute_already_responded = shared dispute_module_rejected
fault_error dispute_zero_response = shared dispute_module_rejected
fault_error dispute_already_ruled = shared dispute_module_rejected
fault_error f = shared f

pub record OrderParams : Type 0 where
  pub order_chain_token : ℕ
  pub ad_chain_token : ℕ
  pub amount : ℕ
  pub bridger : ℕ
  pub order_recipient : ℕ
  pub ad_chain_id : ℕ
  pub ad_manager : ℕ
  pub ad_id : ℕ
  pub ad_creator : ℕ
  pub ad_recipient : ℕ
  pub salt : ℕ
  pub order_decimals : ℕ
  pub ad_decimals : ℕ
  pub deadline : ℕ
  pub ad_settlement_signer : ℕ
  pub lp_fee_bps : ℕ
  pub protocol_fee_bps : ℕ

-- The keys that both escrows have, and the ad manager of each supported chain.
pub record State : Type 0 where
  pub common : escrow.State
  pub chains : Map ℕ ℕ

-- The storage of a fresh deployment.
abbrev pub fresh : State
fresh = record { common = escrow.fresh; chains = [] }

abbrev pub Portal : Type 0 → Type 0 → Type 0
Portal World A = Action (State × World) OrderPortalError A

-- A shared operation, on the shared keys.
abbrev pub ops : {World A : Type 0} → Escrowed World A → Portal World A
ops m q = elim (m (q.0.common, q.1)) [
  | ok (a, (s, w)) ↦ ok (a, (record q.0 { common = s }, w))
  | err f ↦ err (fault_error f)
  | trap ↦ trap
]

unfoldable pub get_config : {World : Type 0} → Portal World ContractConfig
get_config = do found ← gets (λ q. q.0.common.config); ok_or found not_initialized
