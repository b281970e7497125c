-- ===== src/OrderPortal/Admin.antt =====
-- stellar/contracts/order-portal/src/lib.rs: initialization, the admin and the setters.
use proofbridge_contracts.Base.{
  ℕ, String, true, ◌||◌, ◌==◌, nat_eq, pair_eq, some, List, [], ◌∷◌, lookup, insert, erase, Env,
  Host, Val, word, fields, ◌>>=◌, ◌>>◌, gets, modify, fail_if, ok_or, require_auth,
}
use proofbridge_contracts.Core.Orders.{ContractConfig, RouteTiming}
use proofbridge_contracts.Core.Timelock as timelock
use proofbridge_contracts.Escrow.Payments.{stored}
use proofbridge_contracts.Escrow.Legs as legs
use proofbridge_contracts.Escrow.Termination as termination
use proofbridge_contracts.OrderPortal.State.{
  Portal, ops, get_config, already_initialized, zero_address, routes_zero_address,
  ad_chain_not_supported,
}

module _ {World : Type 0} where
  unfoldable pub initialize : Env → ℕ → ℕ → ℕ → ℕ → ℕ → Portal World (Unit {0})
  initialize env admin verifier merkle_manager w_native_token chain_id = do
    ready ← gets (λ q. q.0.common.initialized)
    fail_if ready already_initialized
    fail_if (admin == env.current_contract) zero_address
    let config : ContractConfig = record {
      admin = admin;
      verifier = verifier;
      merkle_manager = merkle_manager;
      w_native_token = w_native_token;
      chain_id = chain_id;
    }
    modify (λ q. (
      record q.0 { common = record q.0.common { config = some config; initialized = true } },
      q.1,
    ))

  -- `config.admin.require_auth()`
  abbrev require_admin : Env → Portal World (Unit {0})
  require_admin env = do config ← get_config; require_auth env config.admin

  unfoldable pub pause : Env → Portal World (Unit {0})
  unfolding get_config legs.pause
  pause env = do require_admin env; ops (stored legs.pause)

  unfoldable pub unpause : Env → Portal World (Unit {0})
  unfolding get_config legs.unpause
  unpause env = do require_admin env; ops (stored legs.unpause)

  unfoldable pub transfer_admin : Env → ℕ → Portal World (Unit {0})
  unfolding get_config legs.transfer_admin
  transfer_admin env to = do require_admin env; ops (stored (legs.transfer_admin to))

  unfoldable pub accept_admin : Env → Portal World (Unit {0})
  unfolding get_config legs.pending_admin legs.accept_admin
  accept_admin env = do
    pending ← ops (stored legs.pending_admin)
    require_auth env pending
    config ← get_config
    ops (stored (legs.accept_admin config pending))

  unfoldable pub activate_timelock : Env → Portal World (Unit {0})
  unfolding get_config
  activate_timelock env = do require_admin env; ops (stored (legs.on_timelock timelock.activate))

  unfoldable pub propose_action : Host → Env → String → ℕ → Portal World ℕ
  unfolding get_config
  propose_action host env fn_name args = do
    require_admin env
    ops (stored (legs.on_timelock (timelock.propose host env fn_name args)))

  unfoldable pub cancel_action : Env → ℕ → Portal World (Unit {0})
  unfolding get_config
  cancel_action env id = do require_admin env; ops (stored (legs.on_timelock (timelock.cancel id)))

  -- The timelock's gate for the setters.
  unfoldable pub gated : Host → Env → String → List Val → Portal World (Unit {0})
  unfolding get_config
  gated host env fn_name args = do
    config ← get_config
    ops (stored (legs.on_timelock (timelock.gate host env config.admin fn_name args)))

  unfoldable pub set_chain : Host → Env → ℕ → ℕ → Portal World (Unit {0})
  unfolding gated
  set_chain host env chain ad_manager = do
    gated host env "set_chain" (word chain ∷ word ad_manager ∷ [])
    fail_if (ad_manager == 0) zero_address
    modify (λ q. (record q.0 { chains = insert chain ad_manager q.0.chains }, q.1))

  unfoldable pub remove_chain : Host → Env → ℕ → Portal World (Unit {0})
  unfolding gated
  remove_chain host env chain = do
    gated host env "remove_chain" (word chain ∷ [])
    modify (λ q. (record q.0 { chains = erase chain q.0.chains }, q.1))

  unfoldable pub set_root_verifier : Host → Env → ℕ → ℕ → Portal World (Unit {0})
  unfolding get_config legs.set_root_verifier_gated
  set_root_verifier host env chain module_at = do
    config ← get_config
    ops (stored (legs.set_root_verifier_gated host env config.admin chain module_at))

  unfoldable pub unset_root_verifier : Host → Env → ℕ → Portal World (Unit {0})
  unfolding get_config legs.unset_root_verifier
  unset_root_verifier host env chain = do
    config ← get_config
    ops (stored (legs.unset_root_verifier host env config.admin chain))

  unfoldable pub set_route_timing : Host → Env → ℕ → RouteTiming → Portal World (Unit {0})
  unfolding gated termination.set_route_timing
  set_route_timing host env chain t = do
    gated host env "set_route_timing"
        (word chain ∷ fields (t.min_window ∷ t.buffer ∷ t.margin ∷ t.claim_stagger ∷ []) ∷ [])
    ops (stored (termination.set_route_timing chain t))

  unfoldable pub set_root_anchor : Host → Env → ℕ → Portal World (Unit {0})
  unfolding gated legs.set_root_anchor
  set_root_anchor host env anchor = do
    gated host env "set_root_anchor" (word anchor ∷ [])
    ops (stored (legs.set_root_anchor anchor))

  unfoldable pub set_token_route : Host → Env → ℕ → ℕ → ℕ → Portal World (Unit {0})
  unfolding gated
  set_token_route host env token chain ad_token = do
    gated host env "set_token_route" (word token ∷ word chain ∷ word ad_token ∷ [])
    fail_if ((token == 0) || (ad_token == 0)) routes_zero_address
    ok_or (← gets (λ q. lookup chain q.0.chains)) ad_chain_not_supported
    modify (λ q. (
      record q.0 {
        common = record q.0.common { routes = insert (token, chain) ad_token q.0.common.routes };
      },
      q.1,
    ))

  unfoldable pub remove_token_route : Host → Env → ℕ → ℕ → Portal World (Unit {0})
  unfolding gated
  remove_token_route host env token chain = do
    gated host env "remove_token_route" (word token ∷ word chain ∷ [])
    modify (λ q. (
      record q.0 { common = record q.0.common { routes = erase (token, chain) q.0.common.routes } },
      q.1,
    ))
