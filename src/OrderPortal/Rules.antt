-- ===== src/OrderPortal/Rules.antt =====
-- Which orders a portal accepts, and what a pause stops.
use proofbridge_contracts.Base.{◌≤◌, ◌<◌, ◌≡◌, ◌≢◌, some, lookup, nat_eq, pair_eq, ok, arith, ◌↔◌}
use proofbridge_contracts.Core.Fees.{max_fee_bps}
use proofbridge_contracts.Core.Scaling.{assert_in_range, max_decimals}
use proofbridge_contracts.Escrow.Peers.{Peers}
use proofbridge_contracts.Escrow.Payments as payments
use proofbridge_contracts.OrderPortal.State.{State, OrderParams}
use proofbridge_contracts.OrderPortal.Checks.{require_decimals, validate_order}

-- An order that the portal may take: amounts, fees and decimals in range, parties that are named and
-- differ, and a configured route.
pub record IsAcceptable (s : State) (p : OrderParams) : Type 0 where
  pub positive : 0 < p.amount
  pub lp_fee : p.lp_fee_bps ≤ max_fee_bps
  pub protocol_fee : p.protocol_fee_bps ≤ max_fee_bps
  pub has_ad_recipient : p.ad_recipient ≢ 0
  pub has_order_recipient : p.order_recipient ≢ 0
  pub not_creator : p.order_recipient ≢ p.ad_creator
  pub not_signer : p.order_recipient ≢ p.ad_settlement_signer
  pub order_decimals : p.order_decimals ≤ max_decimals
  pub ad_decimals : p.ad_decimals ≤ max_decimals
  pub manager : lookup p.ad_chain_id s.chains ≡ some p.ad_manager
  pub route : lookup (p.order_chain_token, p.ad_chain_id) s.common.routes ≡ some p.ad_chain_token

module _ {World : Type 0} (peers : Peers World) (s : State) (w : World) where
  -- The validation passes exactly on the acceptable orders, whose decimals are at most thirty, thirty
  -- included.
  pub validate_order_iff :
      (p : OrderParams) → (validate_order peers p (s, w) ≡ ok (tt, (s, w))) ↔ IsAcceptable s p
  unfolding validate_order require_decimals assert_in_range payments.bytes32_to_account_address
  validate_order_iff p = (λ h. ground arith, λ v. ground arith)
