-- ===== src/OrderPortal/Unlocking.antt =====
-- The co-signed unlock, once it succeeds.
use proofbridge_contracts.Base.{
  ℕ, ◌-◌, ◌≡◌, inl, inr, Bool, true, false, none, some, lookup, nat_eq, pair_eq, Env, ok, arith,
  Option-cases, leb, ◌∷◌, [],
}
use proofbridge_contracts.Core.Orders.{ContractConfig, opened, filled}
use proofbridge_contracts.Escrow.State.{
  get_order, get_order_status, set_order_status, set_in_flight, set_nullifier_used,
  is_nullifier_used, is_set,
}
use proofbridge_contracts.Escrow.Peers.{Peers}
use proofbridge_contracts.Escrow.Termination as termination
use proofbridge_contracts.Escrow.Termination.{is_presentable}
use proofbridge_contracts.Escrow.Legs as legs
use proofbridge_contracts.OrderPortal.State.{State, OrderParams, get_config}
use proofbridge_contracts.OrderPortal.Checks.{check_unlock, pay_maker, envelope}
use proofbridge_contracts.OrderPortal.Orders.{order_hash, unlock}
use proofbridge_contracts.OrderPortal.Payouts.{Delivered, pay_or_credit-Delivered}
use proofbridge_contracts.OrderPortal.Endings.{ended, spent}

module _ {World : Type 0} (peers : Peers World) (s : State) (w : World) where
  -- The time is not past the deadline less the stagger of the order's own timing version.
  abbrev pub is_before_cutoff : ℕ → ℕ → OrderParams → Bool
  is_before_cutoff now order p =
      elim (lookup (p.ad_chain_id, (get_order order s.common).timing_version) s.common.timings) [
        | none ↦ false
        | some t ↦ leb now (p.deadline - t.claim_stagger)
      ]

  -- The route's root verifier accepts the root for the whole envelope.
  abbrev pub is_cosigned : OrderParams → ℕ → ℕ → ℕ → ℕ → Bool
  is_cosigned p order nullifier root cosig = elim (lookup p.ad_chain_id s.common.root_verifiers) [
    | none ↦ false
    | some module_at ↦
        is_set
          (peers.is_root_valid w module_at p.ad_chain_id root (envelope p order nullifier) cosig)
  ]

  -- What the co-signed unlock has shown.
  pub record Cosigned (env : Env) (config : ContractConfig) (order : ℕ) (p : OrderParams)
      (nullifier root proof cosig : ℕ) : Type 0 where
    pub was_open : get_order_status order s.common ≡ opened
    pub unspent : is_nullifier_used nullifier s.common ≡ false
    pub in_time : is_before_cutoff env.timestamp order p ≡ true
    pub root_valid : is_cosigned p order nullifier root cosig ≡ true
    pub canonical : peers.field_mod nullifier ≡ nullifier
    pub proved :
        peers.verify_proof w config.verifier
          (nullifier ∷ peers.field_mod order ∷ root ∷ 0 ∷ [])
          proof
        ≡ true

module _ {World : Type 0} (peers : Peers World) (hash : ℕ → ℕ → OrderParams → ℕ) (env : Env)
    (s s' : State) (w w' : World) where
  -- A co-signed unlock: the deposit goes to the ad's recipient.
  pub record Unlocked (p : OrderParams) (nullifier root proof cosig : ℕ) (config : ContractConfig)
      : Type 0 where
    pub configured : s.common.config ≡ some config
    pub cosigned :
        Cosigned peers s w env config (order_hash hash env config p) p nullifier root proof cosig
    pub delivered :
        Delivered peers env
          (ended (order_hash hash env config p) filled p.bridger (spent nullifier s))
          s'
          w
          w'
          config.w_native_token
          p.ad_recipient
          p.order_chain_token
          p.amount

  unlock_at :
      (p : OrderParams) (nullifier root proof cosig : ℕ) (config : ContractConfig)
      → unlock peers hash env p nullifier root proof cosig (s, w) ≡ ok (tt, (s', w'))
      → s.common.config ≡ some config
      → Unlocked p nullifier root proof cosig config
  unfolding unlock get_config check_unlock termination.order_timing legs.build_public_inputs
      legs.is_canonical legs.verify_proof set_nullifier_used legs.fill set_order_status
      legs.remove_claim legs.count_out set_in_flight pay_maker
  unlock_at p nullifier root proof cosig config h found = record {
    configured = found;
    cosigned = record {
      was_open = ground arith;
      unspent = ground arith;
      in_time = ground arith;
      root_valid = ground arith;
      canonical = ground arith;
      proved = ground arith;
    };
    delivered =
        pay_or_credit-Delivered peers env
          (ended (order_hash hash env config p) filled p.bridger (spent nullifier s)) s' w w'
          config.w_native_token p.ad_recipient p.order_chain_token p.amount (ground arith);
  }

  -- An unlock that succeeds: the order was open, the nullifier canonical and unused, the time not past
  -- the cutoff of the order's own clocks, the root accepted by the route's verifier for the whole
  -- envelope, and the proof valid; the order is now filled, the nullifier spent, and the deposit
  -- transferred or credited to the ad's recipient.
  pub unlock-Unlocked :
      (p : OrderParams) (nullifier root proof cosig : ℕ)
      → unlock peers hash env p nullifier root proof cosig (s, w) ≡ ok (tt, (s', w'))
      → (config : ContractConfig) × Unlocked p nullifier root proof cosig config
  unlock-Unlocked p nullifier root proof cosig h = elim (Option-cases s.common.config) [
    | inl unset ↦ absurd (unfold unlock get_config in ground arith)
    | inr (config, found) ↦ (config, unlock_at p nullifier root proof cosig config h found)
  ]
