-- ===== src/OrderPortal/Effects.antt =====
-- What the setters and the admin's entry points leave alone.
use proofbridge_contracts.Base.{
  ℕ, String, ◌≡◌, Option, none, some, nat_eq, pair_eq, Env, Host, ok, arith,
}
use proofbridge_contracts.Core.Orders.{ContractConfig, RouteTiming}
use proofbridge_contracts.Escrow.State.{
  push_route_timing, store_root_verifier, remove_root_verifier, add_wired_chain,
}
use proofbridge_contracts.Escrow.Termination as termination
use proofbridge_contracts.Escrow.Legs as legs
use proofbridge_contracts.OrderPortal.State.{State, get_config}
use proofbridge_contracts.OrderPortal.Admin.{
  pause, unpause, transfer_admin, accept_admin, activate_timelock, propose_action, cancel_action,
  gated, set_chain, remove_chain, set_root_verifier, unset_root_verifier, set_route_timing,
  set_root_anchor, set_token_route, remove_token_route,
}

-- The wrapped native token and the chain id, which are set once.
abbrev pub wiring : Option ContractConfig → Option (ℕ × ℕ)
wiring none = none
wiring (some c) = some (c.w_native_token, c.chain_id)

pub record Quiet (s s' : State) : Type 0 where
  pub orders_kept : s'.common.orders ≡ s.common.orders
  pub claimable_kept : s'.common.claimable ≡ s.common.claimable
  pub in_flight_kept : s'.common.in_flight ≡ s.common.in_flight
  pub nullifiers_kept : s'.common.nullifiers ≡ s.common.nullifiers
  pub settled_kept : s'.common.settled ≡ s.common.settled
  pub initialized_kept : s'.common.initialized ≡ s.common.initialized
  pub wiring_kept : wiring s'.common.config ≡ wiring s.common.config

module _ {World : Type 0} (host : Host) (env : Env) (s s' : State) (w w' : World) where
  pub pause-Quiet : pause env (s, w) ≡ ok (tt, (s', w')) → Quiet s s' × (w' ≡ w)
  unfolding pause get_config legs.pause
  pause-Quiet h = ground arith

  pub accept_admin-Quiet : accept_admin env (s, w) ≡ ok (tt, (s', w')) → Quiet s s' × (w' ≡ w)
  unfolding accept_admin get_config legs.pending_admin legs.accept_admin
  accept_admin-Quiet h = ground arith

  pub set_chain-Quiet :
      (chain manager : ℕ)
      → set_chain host env chain manager (s, w) ≡ ok (tt, (s', w'))
      → Quiet s s' × (w' ≡ w)
  unfolding set_chain gated get_config
  set_chain-Quiet chain manager h = ground arith

  pub set_root_verifier-Quiet :
      (chain module_at : ℕ)
      → set_root_verifier host env chain module_at (s, w) ≡ ok (tt, (s', w'))
      → Quiet s s' × (w' ≡ w)
  unfolding set_root_verifier get_config legs.set_root_verifier_gated store_root_verifier
      add_wired_chain
  set_root_verifier-Quiet chain module_at h = ground arith

  pub set_route_timing-Quiet :
      (chain : ℕ) (t : RouteTiming)
      → set_route_timing host env chain t (s, w) ≡ ok (tt, (s', w'))
      → Quiet s s' × (w' ≡ w)
  unfolding set_route_timing gated get_config termination.set_route_timing push_route_timing
  set_route_timing-Quiet chain t h = ground arith

  pub unpause-Quiet : unpause env (s, w) ≡ ok (tt, (s', w')) → Quiet s s' × (w' ≡ w)
  unfolding unpause get_config legs.unpause
  unpause-Quiet h = ground arith

  pub transfer_admin-Quiet :
      (to : ℕ) → transfer_admin env to (s, w) ≡ ok (tt, (s', w')) → Quiet s s' × (w' ≡ w)
  unfolding transfer_admin get_config legs.transfer_admin
  transfer_admin-Quiet to h = ground arith

  pub activate_timelock-Quiet :
      activate_timelock env (s, w) ≡ ok (tt, (s', w')) → Quiet s s' × (w' ≡ w)
  unfolding activate_timelock get_config
  activate_timelock-Quiet h = ground arith

  pub propose_action-Quiet :
      (fn_name : String) (args : ℕ) {id : ℕ}
      → propose_action host env fn_name args (s, w) ≡ ok (id, (s', w'))
      → Quiet s s' × (w' ≡ w)
  unfolding propose_action get_config
  propose_action-Quiet fn_name args h = ground arith

  pub cancel_action-Quiet :
      (id : ℕ) → cancel_action env id (s, w) ≡ ok (tt, (s', w')) → Quiet s s' × (w' ≡ w)
  unfolding cancel_action get_config
  cancel_action-Quiet id h = ground arith

  pub remove_chain-Quiet :
      (chain : ℕ) → remove_chain host env chain (s, w) ≡ ok (tt, (s', w')) → Quiet s s' × (w' ≡ w)
  unfolding remove_chain gated get_config
  remove_chain-Quiet chain h = ground arith

  pub unset_root_verifier-Quiet :
      (chain : ℕ)
      → unset_root_verifier host env chain (s, w) ≡ ok (tt, (s', w'))
      → Quiet s s' × (w' ≡ w)
  unfolding unset_root_verifier get_config legs.unset_root_verifier remove_root_verifier
  unset_root_verifier-Quiet chain h = ground arith

  pub set_root_anchor-Quiet :
      (anchor : ℕ)
      → set_root_anchor host env anchor (s, w) ≡ ok (tt, (s', w'))
      → Quiet s s' × (w' ≡ w)
  unfolding set_root_anchor gated get_config legs.set_root_anchor
  set_root_anchor-Quiet anchor h = ground arith

  pub set_token_route-Quiet :
      (token chain ad_token : ℕ)
      → set_token_route host env token chain ad_token (s, w) ≡ ok (tt, (s', w'))
      → Quiet s s' × (w' ≡ w)
  unfolding set_token_route gated get_config
  set_token_route-Quiet token chain ad_token h = ground arith

  pub remove_token_route-Quiet :
      (token chain : ℕ)
      → remove_token_route host env token chain (s, w) ≡ ok (tt, (s', w'))
      → Quiet s s' × (w' ≡ w)
  unfolding remove_token_route gated get_config
  remove_token_route-Quiet token chain h = ground arith
