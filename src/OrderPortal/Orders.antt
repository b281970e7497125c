-- ===== src/OrderPortal/Orders.antt =====
-- stellar/contracts/order-portal/src/lib.rs: the life of an order.
use proofbridge_contracts.Base.{
  ℕ, not, nat_eq, pair_eq, Env, ◌>>=◌, ◌>>◌, pure, fail_if, gets, require_auth,
}
use proofbridge_contracts.Core.Faults.{contract_paused}
use proofbridge_contracts.Core.Orders.{ContractConfig}
use proofbridge_contracts.Escrow.State.{
  get_order_status, open_order, set_nullifier_used, set_settled_recorded,
}
use proofbridge_contracts.Escrow.Peers.{Peers}
use proofbridge_contracts.Escrow.Payments as payments
use proofbridge_contracts.Escrow.Payments.{stored}
use proofbridge_contracts.Escrow.Legs as legs
use proofbridge_contracts.Escrow.Termination as termination
use proofbridge_contracts.OrderPortal.State.{
  Portal, OrderParams, ops, get_config, shared, order_exists,
}
use proofbridge_contracts.OrderPortal.Checks.{
  is_absent, validate_order, assert_order_decimals, count_in, pay_maker, refund_bridger,
  check_unlock, check_evidence,
}

-- The canonical hash of the params with this chain and this contract, by the hash that the host
-- gives.
abbrev pub order_hash : (ℕ → ℕ → OrderParams → ℕ) → Env → ContractConfig → OrderParams → ℕ
order_hash hash env config p = hash config.chain_id env.current_contract p

module _ {World : Type 0} (peers : Peers World) (hash : ℕ → ℕ → OrderParams → ℕ) where
  unfoldable pub create_order : Env → OrderParams → Portal World ℕ
  unfolding get_config validate_order assert_order_decimals termination.require_min_window
      payments.transfer_from_user payments.bytes32_to_account_address legs.append_to_merkle
      open_order count_in
  create_order env p = do
    paused ← gets (λ q. q.0.common.paused)
    fail_if paused (shared contract_paused)
    config ← get_config
    validate_order peers p
    assert_order_decimals peers p config.w_native_token
    timing_version ← ops (stored (termination.require_min_window env p.ad_chain_id p.deadline))
    let order = order_hash hash env config p
    status ← gets (λ q. get_order_status order q.0.common)
    fail_if (not (is_absent status)) order_exists
    bridger ← ops (payments.bytes32_to_account_address peers p.bridger)
    require_auth env bridger
    ops (
        payments.transfer_from_user peers env p.order_chain_token config.w_native_token bridger
          p.amount)
    ops (legs.append_to_merkle peers env config.merkle_manager order legs.leaf_domain_ad)
    ops (stored (open_order env order timing_version 0 0 0))
    count_in p.bridger
    pure order

  unfoldable pub unlock : Env → OrderParams → ℕ → ℕ → ℕ → ℕ → Portal World (Unit {0})
  unfolding get_config check_unlock set_nullifier_used legs.fill pay_maker
  unlock env p nullifier root proof cosig = do
    config ← get_config
    let order = order_hash hash env config p
    check_unlock peers env config order p nullifier root proof cosig
    ops (stored (set_nullifier_used nullifier))
    ops (stored (legs.fill order p.bridger))
    pay_maker peers env config p

  unfoldable pub refund_by_cancel : Env → OrderParams → ℕ → ℕ → Portal World (Unit {0})
  unfolding get_config check_evidence legs.cancel refund_bridger
  refund_by_cancel env p root proof = do
    config ← get_config
    let order = order_hash hash env config p
    check_evidence peers config order p legs.leaf_domain_cancel root proof
    ops (stored (legs.cancel order p.bridger))
    refund_bridger peers env config p

  unfoldable pub present_settled : Env → OrderParams → ℕ → ℕ → Portal World (Unit {0})
  unfolding get_config check_evidence legs.fill pay_maker
  present_settled env p root proof = do
    config ← get_config
    let order = order_hash hash env config p
    check_evidence peers config order p legs.leaf_domain_settled root proof
    ops (stored (legs.fill order p.bridger))
    pay_maker peers env config p

  -- No trade settled, so no SETTLED leaf may follow.
  unfoldable pub pay_maker_by_forfeit : Env → OrderParams → ℕ → ℕ → Portal World (Unit {0})
  unfolding get_config check_evidence legs.fill set_settled_recorded pay_maker
  pay_maker_by_forfeit env p root proof = do
    config ← get_config
    let order = order_hash hash env config p
    check_evidence peers config order p legs.leaf_domain_forfeit root proof
    ops (stored (legs.fill order p.bridger))
    ops (stored (set_settled_recorded order))
    pay_maker peers env config p

  unfoldable pub record_settled : Env → OrderParams → Portal World (Unit {0})
  unfolding get_config legs.record_settled
  record_settled env p = do
    config ← get_config
    ops (legs.record_settled peers env config.merkle_manager (order_hash hash env config p))
