-- ===== src/OrderPortal/Deposits.antt =====
-- What creating an order does once it succeeds.
use proofbridge_contracts.Base.{
  ℕ, ◌+◌, ◌<◌, ◌≡◌, ◌≢◌, ◌⊎◌, inl, inr, Bool, true, false, none, some, insert, nat_eq, pair_eq, Env,
  ok, arith, Option-cases,
}
use proofbridge_contracts.Core.Orders.{ContractConfig, absent}
use proofbridge_contracts.Core.Scaling.{assert_in_range}
use proofbridge_contracts.DisputeManager.Disputes.{is_exact}
use proofbridge_contracts.Escrow.State.{
  get_order_status, open_order, opened_rec, set_in_flight, get_in_flight, get_timing_version,
}
use proofbridge_contracts.Escrow.Peers.{Peers}
use proofbridge_contracts.Escrow.Payments as payments
use proofbridge_contracts.Escrow.Payments.{token_contract, transfer_from_user, is_native_token}
use proofbridge_contracts.Escrow.Termination as termination
use proofbridge_contracts.Escrow.Legs as legs
use proofbridge_contracts.OrderPortal.State.{State, OrderParams, get_config}
use proofbridge_contracts.OrderPortal.Checks.{
  require_decimals, validate_order, assert_order_decimals, count_in,
}
use proofbridge_contracts.OrderPortal.Orders.{create_order, order_hash}

module _ {World : Type 0} (peers : Peers World) (env : Env) (w w' : World) where
  -- A pull that succeeds: the transfer is made, and exact for a token other than the native one.
  pub record Pulled (token native from amount : ℕ) : Type 0 where
    pub moved :
        peers.tokens.try_transfer w
          (token_contract peers native token)
          from
          env.current_contract
          amount
        ≡ some (w', true)
    pub exact :
        (is_native_token token ≡ true)
        ⊎ (is_exact
              (peers.tokens.balance w (token_contract peers native token) env.current_contract)
              (peers.tokens.balance w' (token_contract peers native token) env.current_contract)
              amount
            ≡ true)

-- The storage once an order is open.
abbrev pub opened_state : Env → ℕ → ℕ → ℕ → State → State
opened_state env order bridger timing_version s = record s {
  common = record s.common {
    orders = insert order (opened_rec env timing_version 0 0 0) s.common.orders;
    in_flight = insert bridger (get_in_flight bridger s.common + 1) s.common.in_flight;
  };
}

module _ {World : Type 0} (peers : Peers World) (hash : ℕ → ℕ → OrderParams → ℕ) (env : Env)
    (s s' : State) (w w' : World) where
  -- What a successful creation has checked, pulled and written.
  pub record Created (p : OrderParams) (config : ContractConfig) : Type 0 where
    pub running : s.common.paused ≡ false
    pub configured : s.common.config ≡ some config
    pub positive : 0 < p.amount
    pub new : get_order_status (order_hash hash env config p) s.common ≡ absent
    pub bridger_signed : env.authorized (peers.account_address p.bridger) ≡ true
    pub pulled :
        (after : World) × Pulled peers env w after p.order_chain_token config.w_native_token
          (peers.account_address p.bridger)
          p.amount
        × (peers.append after config.merkle_manager env.current_contract
              (order_hash hash env config p)
              legs.leaf_domain_ad
            ≡ some w')
    pub written :
        (timing_version : ℕ) × (s'
          ≡ opened_state env (order_hash hash env config p) p.bridger timing_version s)

  create_moved :
      (p : OrderParams) {order : ℕ} (config : ContractConfig) (after : World) (decoded : Bool)
      → create_order peers hash env p (s, w) ≡ ok (order, (s', w'))
      → s.common.config ≡ some config
      → peers.tokens.try_transfer w
          (token_contract peers config.w_native_token p.order_chain_token)
          (peers.account_address p.bridger)
          env.current_contract
          p.amount
        ≡ some (after, decoded)
      → (order ≡ order_hash hash env config p) × Created p config
  unfolding create_order get_config validate_order require_decimals assert_in_range
      assert_order_decimals payments.bytes32_to_account_address payments.token_decimals
      termination.require_min_window termination.current_timing open_order count_in set_in_flight
      transfer_from_user payments.transfer legs.append_to_merkle
  create_moved p config after decoded h found moved = (
    ground arith,
    record {
      running = ground arith;
      configured = found;
      positive = ground arith;
      new = ground arith;
      bridger_signed = ground arith;
      pulled = (after, ground arith, ground arith);
      written = (get_timing_version p.ad_chain_id s.common, ground arith);
    },
  )

  create_refused :
      (p : OrderParams) {order : ℕ} (config : ContractConfig)
      → create_order peers hash env p (s, w) ≡ ok (order, (s', w'))
      → s.common.config ≡ some config
      → peers.tokens.try_transfer w
          (token_contract peers config.w_native_token p.order_chain_token)
          (peers.account_address p.bridger)
          env.current_contract
          p.amount
        ≢ none
  unfolding create_order get_config validate_order require_decimals assert_in_range
      assert_order_decimals payments.bytes32_to_account_address payments.token_decimals
      termination.require_min_window termination.current_timing transfer_from_user payments.transfer
  create_refused p config h found refused = ground arith

  -- A creation that succeeds: the portal was running, the order's hash new and the bridger's account
  -- authorized; the deposit was pulled from that account, exactly unless the token is the native one,
  -- the order's leaf appended, and nothing written but the open order and the bridger's count.
  pub create_order-ok :
      (p : OrderParams) {order : ℕ}
      → create_order peers hash env p (s, w) ≡ ok (order, (s', w'))
      → (config : ContractConfig) × (order ≡ order_hash hash env config p) × Created p config
  create_order-ok p h = elim (Option-cases s.common.config) [
    | inl unset ↦ absurd (unfold create_order get_config in ground arith)
    | inr (config, found) ↦
        let contract = token_contract peers config.w_native_token p.order_chain_token in
        let from = peers.account_address p.bridger in
        elim (Option-cases
          (peers.tokens.try_transfer w contract from env.current_contract p.amount)) [
            | inl refused ↦ absurd (create_refused p config h found refused)
            | inr ((after, decoded), moved) ↦
                let (named, done) = create_moved p config after decoded h found moved in
                (config, named, done)
          ]
  ]
