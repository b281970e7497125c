-- ===== src/OrderPortal/Endings.antt =====
-- The ways an order ends, once they succeed: by unlock, cancel, settlement evidence and forfeit.
use proofbridge_contracts.Base.{
  ℕ, ◌-◌, ◌≡◌, inl, inr, Bool, true, false, none, some, insert, erase, nat_eq, pair_eq, Env, ok,
  arith, Option-cases, ◌==◌, if◌then◌else◌,
}
use proofbridge_contracts.Core.Orders.{ContractConfig, Status, filled, cancelled}
use proofbridge_contracts.Escrow.State.{
  get_order, get_order_status, get_in_flight, set_order_status, set_in_flight, set_settled_recorded,
}
use proofbridge_contracts.Escrow.Peers.{Peers}
use proofbridge_contracts.Escrow.Termination as termination
use proofbridge_contracts.Escrow.Termination.{is_presentable}
use proofbridge_contracts.Escrow.Legs as legs
use proofbridge_contracts.OrderPortal.State.{State, OrderParams, get_config}
use proofbridge_contracts.OrderPortal.Checks.{check_evidence, pay_maker, refund_bridger}
use proofbridge_contracts.OrderPortal.Orders.{
  order_hash, refund_by_cancel, present_settled, pay_maker_by_forfeit,
}
use proofbridge_contracts.OrderPortal.Payouts.{Delivered, pay_or_credit-Delivered}

-- The storage once an order of the account has ended with the status.
abbrev pub ended : ℕ → Status → ℕ → State → State
ended order status account s = record s {
  common = record s.common {
    orders = insert order (record (get_order order s.common) { status = status }) s.common.orders;
    claims = erase order s.common.claims;
    in_flight =
        if (get_in_flight account s.common - 1) == 0
        then erase account s.common.in_flight
        else insert account (get_in_flight account s.common - 1) s.common.in_flight;
  };
}

abbrev pub spent : ℕ → State → State
spent nullifier s = record s {
  common = record s.common { nullifiers = insert nullifier true s.common.nullifiers };
}

abbrev pub no_settlement : ℕ → State → State
no_settlement order s = record s {
  common = record s.common { settled = insert order true s.common.settled };
}

module _ {World : Type 0} (peers : Peers World) (s : State) (w : World) where
  -- The wired anchor has notarized the root.
  abbrev pub is_notarized : ℕ → ℕ → Bool
  is_notarized chain root = elim s.common.root_anchor [
    | none ↦ false
    | some anchor ↦ peers.is_anchored w anchor chain root
  ]

  -- What evidence has shown: a leg still open, and the domain's leaf under a notarized root.
  pub record Evidenced (config : ContractConfig) (order : ℕ) (p : OrderParams)
      (domain root proof : ℕ) : Type 0 where
    pub presentable : is_presentable (get_order_status order s.common) ≡ true
    pub anchored : is_notarized p.ad_chain_id root ≡ true
    pub proved :
        peers.verify_proof w config.verifier
          (legs.build_event_public_inputs peers root order domain)
          proof
        ≡ true

module _ {World : Type 0} (peers : Peers World) (hash : ℕ → ℕ → OrderParams → ℕ) (env : Env)
    (s s' : State) (w w' : World) where
  -- An ending by evidence: the deposit goes to the recipient, from the storage that is left.
  pub record Presented (p : OrderParams) (domain root proof recipient : ℕ) (config : ContractConfig)
      (left : State) : Type 0 where
    pub configured : s.common.config ≡ some config
    pub evidenced : Evidenced peers s w config (order_hash hash env config p) p domain root proof
    pub delivered :
        Delivered peers env left s' w w' config.w_native_token recipient p.order_chain_token
          p.amount

  refund_at :
      (p : OrderParams) (root proof : ℕ) (config : ContractConfig)
      → refund_by_cancel peers hash env p root proof (s, w) ≡ ok (tt, (s', w'))
      → s.common.config ≡ some config
      → Presented p legs.leaf_domain_cancel root proof p.bridger config
          (ended (order_hash hash env config p) cancelled p.bridger s)
  unfolding refund_by_cancel get_config check_evidence legs.cancel refund_bridger
      termination.require_presentable legs.require_anchored legs.verify_proof set_order_status
      legs.remove_claim legs.count_out set_in_flight
  refund_at p root proof config h found = record {
    configured = found;
    evidenced = record {
      presentable = ground arith;
      anchored = ground arith;
      proved = ground arith;
    };
    delivered =
        pay_or_credit-Delivered peers env
          (ended (order_hash hash env config p) cancelled p.bridger s) s' w w' config.w_native_token
          p.bridger p.order_chain_token p.amount (ground arith);
  }

  pub refund_by_cancel-Presented :
      (p : OrderParams) (root proof : ℕ)
      → refund_by_cancel peers hash env p root proof (s, w) ≡ ok (tt, (s', w'))
      → (config : ContractConfig) × Presented p legs.leaf_domain_cancel root proof p.bridger config
          (ended (order_hash hash env config p) cancelled p.bridger s)
  refund_by_cancel-Presented p root proof h = elim (Option-cases s.common.config) [
    | inl unset ↦ absurd (unfold refund_by_cancel get_config in ground arith)
    | inr (config, found) ↦ (config, refund_at p root proof config h found)
  ]

  present_at :
      (p : OrderParams) (root proof : ℕ) (config : ContractConfig)
      → present_settled peers hash env p root proof (s, w) ≡ ok (tt, (s', w'))
      → s.common.config ≡ some config
      → Presented p legs.leaf_domain_settled root proof p.ad_recipient config
          (ended (order_hash hash env config p) filled p.bridger s)
  unfolding present_settled get_config check_evidence legs.fill pay_maker
      termination.require_presentable legs.require_anchored legs.verify_proof set_order_status
      legs.remove_claim legs.count_out set_in_flight
  present_at p root proof config h found = record {
    configured = found;
    evidenced = record {
      presentable = ground arith;
      anchored = ground arith;
      proved = ground arith;
    };
    delivered =
        pay_or_credit-Delivered peers env (ended (order_hash hash env config p) filled p.bridger s)
          s' w w' config.w_native_token p.ad_recipient p.order_chain_token p.amount (ground arith);
  }

  pub present_settled-Presented :
      (p : OrderParams) (root proof : ℕ)
      → present_settled peers hash env p root proof (s, w) ≡ ok (tt, (s', w'))
      → (config : ContractConfig) × Presented p legs.leaf_domain_settled root proof p.ad_recipient
          config
          (ended (order_hash hash env config p) filled p.bridger s)
  present_settled-Presented p root proof h = elim (Option-cases s.common.config) [
    | inl unset ↦ absurd (unfold present_settled get_config in ground arith)
    | inr (config, found) ↦ (config, present_at p root proof config h found)
  ]

  forfeit_at :
      (p : OrderParams) (root proof : ℕ) (config : ContractConfig)
      → pay_maker_by_forfeit peers hash env p root proof (s, w) ≡ ok (tt, (s', w'))
      → s.common.config ≡ some config
      → Presented p legs.leaf_domain_forfeit root proof p.ad_recipient config (
          no_settlement
            (order_hash hash env config p)
            (ended (order_hash hash env config p) filled p.bridger s))
  unfolding pay_maker_by_forfeit get_config check_evidence legs.fill set_settled_recorded pay_maker
      termination.require_presentable legs.require_anchored legs.verify_proof set_order_status
      legs.remove_claim legs.count_out set_in_flight
  forfeit_at p root proof config h found = record {
    configured = found;
    evidenced = record {
      presentable = ground arith;
      anchored = ground arith;
      proved = ground arith;
    };
    delivered =
        pay_or_credit-Delivered peers env
          (no_settlement (order_hash hash env config p)
            (ended (order_hash hash env config p) filled p.bridger s))
          s' w w' config.w_native_token p.ad_recipient p.order_chain_token p.amount (ground arith);
  }

  pub pay_maker_by_forfeit-Presented :
      (p : OrderParams) (root proof : ℕ)
      → pay_maker_by_forfeit peers hash env p root proof (s, w) ≡ ok (tt, (s', w'))
      → (config : ContractConfig) × Presented p legs.leaf_domain_forfeit root proof p.ad_recipient
          config
          (no_settlement
            (order_hash hash env config p)
            (ended (order_hash hash env config p) filled p.bridger s))
  pay_maker_by_forfeit-Presented p root proof h = elim (Option-cases s.common.config) [
    | inl unset ↦ absurd (unfold pay_maker_by_forfeit get_config in ground arith)
    | inr (config, found) ↦ (config, forfeit_at p root proof config h found)
  ]
