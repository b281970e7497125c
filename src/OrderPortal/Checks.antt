-- ===== src/OrderPortal/Checks.antt =====
-- stellar/contracts/order-portal/src/validation.rs and the checks of lib.rs.
use proofbridge_contracts.Base.{
  ℕ, ◌-◌, ◌^◌, Bool, true, false, not, ◌||◌, ◌==◌, nat_eq, pair_eq, List, [], ◌∷◌, ltb, lookup, Env,
  ok, err, trap, ◌>>=◌, ◌>>◌, fail_if, gets, ok_or, unwrap, add_checked,
}
use proofbridge_contracts.Core.Faults.{decimals_out_of_range, non_exact_downscale, decimal_overflow}
use proofbridge_contracts.Core.Fees.{max_fee_bps}
use proofbridge_contracts.Core.Orders.{Status, absent, opened, ContractConfig}
use proofbridge_contracts.Core.Scaling.{assert_in_range, DecimalScalingError}
use proofbridge_contracts.Escrow.State.{
  get_order_status, get_in_flight, set_in_flight, is_nullifier_used,
}
use proofbridge_contracts.Escrow.Peers.{Peers}
use proofbridge_contracts.Escrow.Payments as payments
use proofbridge_contracts.Escrow.Payments.{stored}
use proofbridge_contracts.Escrow.Legs as legs
use proofbridge_contracts.Escrow.Termination as termination
use proofbridge_contracts.OrderPortal.State.{
  Portal, OrderParams, ops, get_config, shared, zero_amount, invalid_ad_recipient,
  ad_chain_not_supported, ad_manager_mismatch, missing_route, ad_token_mismatch, order_not_open,
  nullifier_used, order_decimals_mismatch, root_not_valid, root_verifier_not_set, order_expired,
  invalid_fee, recipient_zero, recipient_is_maker,
}

abbrev pub is_absent : Status → Bool
is_absent absent = true
is_absent _ = false

abbrev pub is_open : Status → Bool
is_open opened = true
is_open _ = false

-- The whole envelope that a root verifier reads: the two parties, the order, no pinned slot, the
-- nullifier and the order side.
abbrev pub envelope : OrderParams → ℕ → ℕ → List ℕ
envelope p order nullifier =
    p.ad_settlement_signer ∷ p.bridger ∷ order ∷ (2 ^ 32 - 1) ∷ nullifier ∷ 0 ∷ []

-- `assert_in_range(...).map_err(Fault::from)?`
unfoldable pub require_decimals : {World : Type 0} → ℕ → Portal World (Unit {0})
unfolding assert_in_range
require_decimals decimals q = elim (assert_in_range decimals) [
  | ok _ ↦ ok (tt, q)
  | err DecimalScalingError.decimals_out_of_range ↦ err (shared decimals_out_of_range)
  | err DecimalScalingError.non_exact_downscale ↦ err (shared non_exact_downscale)
  | err DecimalScalingError.overflow ↦ err (shared decimal_overflow)
  | trap ↦ trap
]

-- One more open position of the account.
unfoldable pub count_in : {World : Type 0} → ℕ → Portal World (Unit {0})
unfolding set_in_flight
count_in account = do
  count ← gets (λ q. get_in_flight account q.0.common)
  more ← add_checked 64 count 1
  ops (stored (set_in_flight account more))

module _ {World : Type 0} (peers : Peers World) where
  unfoldable pub validate_order : OrderParams → Portal World (Unit {0})
  unfolding payments.bytes32_to_account_address require_decimals
  validate_order p = do
    fail_if (p.amount == 0) zero_amount
    fail_if (ltb max_fee_bps p.lp_fee_bps || ltb max_fee_bps p.protocol_fee_bps) invalid_fee
    fail_if (p.ad_recipient == 0) invalid_ad_recipient
    ops (payments.bytes32_to_account_address peers p.ad_recipient)
    fail_if (p.order_recipient == 0) recipient_zero
    fail_if ((p.order_recipient == p.ad_creator) || (p.order_recipient == p.ad_settlement_signer))
        recipient_is_maker
    require_decimals p.order_decimals
    require_decimals p.ad_decimals
    ad_manager ← ok_or (← gets (λ q. lookup p.ad_chain_id q.0.chains)) ad_chain_not_supported
    fail_if (not (ad_manager == p.ad_manager)) ad_manager_mismatch
    route ←
        ok_or (← gets (λ q. lookup (p.order_chain_token, p.ad_chain_id) q.0.common.routes))
          missing_route
    fail_if (not (route == p.ad_chain_token)) ad_token_mismatch

  unfoldable pub assert_order_decimals : OrderParams → ℕ → Portal World (Unit {0})
  unfolding payments.token_decimals
  assert_order_decimals p w_native = do
    on_chain ← ops (payments.token_decimals peers w_native p.order_chain_token)
    fail_if (not (on_chain == p.order_decimals)) order_decimals_mismatch

  -- The maker's payout: the deposit, to the ad's recipient.
  unfoldable pub pay_maker : Env → ContractConfig → OrderParams → Portal World (Unit {0})
  unfolding payments.pay_or_credit
  pay_maker env config p = ops (
      payments.pay_or_credit peers env config.w_native_token p.ad_recipient p.order_chain_token
        p.amount)

  -- The bridger's refund: the deposit, back to them.
  unfoldable pub refund_bridger : Env → ContractConfig → OrderParams → Portal World (Unit {0})
  unfolding payments.pay_or_credit
  refund_bridger env config p = ops (
      payments.pay_or_credit peers env config.w_native_token p.bridger p.order_chain_token p.amount)

  -- What the co-signed unlock requires.
  unfoldable pub check_unlock :
      Env → ContractConfig → ℕ → OrderParams → ℕ → ℕ → ℕ → ℕ → Portal World (Unit {0})
  unfolding termination.order_timing legs.build_public_inputs legs.verify_proof
  check_unlock env config order p nullifier root proof cosig = do
    status ← gets (λ q. get_order_status order q.0.common)
    fail_if (not (is_open status)) order_not_open
    spent ← gets (λ q. is_nullifier_used nullifier q.0.common)
    fail_if spent nullifier_used
    t ← ops (stored (termination.order_timing order p.ad_chain_id))
    fail_if (ltb (p.deadline - t.claim_stagger) env.timestamp) order_expired
    inputs ← ops (legs.build_public_inputs peers nullifier root order 0)
    module_at ←
        ok_or (← gets (λ q. lookup p.ad_chain_id q.0.common.root_verifiers)) root_verifier_not_set
    answer ← gets (λ q.
        peers.is_root_valid q.1 module_at p.ad_chain_id root (envelope p order nullifier) cosig)
    valid ← unwrap answer
    fail_if (not valid) root_not_valid
    ops (legs.verify_proof peers config.verifier inputs proof)

  -- What every evidence path requires: a leg still open, and a proof of the primary's leaf of the
  -- domain under a notarized root.
  unfoldable pub check_evidence :
      ContractConfig → ℕ → OrderParams → ℕ → ℕ → ℕ → Portal World (Unit {0})
  unfolding termination.require_presentable legs.require_anchored legs.build_event_public_inputs
      legs.verify_proof
  check_evidence config order p domain root proof = do
    ops (stored (termination.require_presentable order))
    ops (legs.require_anchored peers p.ad_chain_id root)
    ops (
        legs.verify_proof peers config.verifier
          (legs.build_event_public_inputs peers root order domain) proof)

  unfoldable pub claim : Env → ℕ → ℕ → Portal World (Unit {0})
  unfolding get_config payments.claim
  claim env recipient token = do
    config ← get_config
    ops (payments.claim peers env config recipient token)
