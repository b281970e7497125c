-- ===== src/Core/Faults.antt =====
-- `Fault` of stellar/lib/proofbridge-core/src/escrow_ops.rs: why a shared check refused.
pub data Fault : Type 0 where
  contract_paused no_route_timing deadline_too_soon deadline_too_far too_early not_claimable : Fault
  not_claimed no_root_anchor root_not_anchored not_filled settled_recorded nothing_to_claim : Fault
  invalid_timing not_pending_admin no_dispute_manager not_disputable dispute_not_resolved : Fault
  dispute_window_closed dispute_module_rejected dispute_no_params dispute_not_escrow : Fault
  dispute_exists dispute_wrong_escrow dispute_not_responder dispute_bond_transfer_failed : Fault
  dispute_response_window_closed dispute_already_responded dispute_zero_response : Fault
  dispute_already_ruled non_canonical_input token_zero_address merkle_append_failed : Fault
  invalid_proof decimals_out_of_range non_exact_downscale decimal_overflow : Fault
  invalid_account_address transfer_short timelock_already_active timelock_already_proposed : Fault
  timelock_not_proposed timelock_too_early timelock_bad_args timelock_expired : Fault
  timelock_cancelled_by_brake : Fault
