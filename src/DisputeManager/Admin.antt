-- ===== src/DisputeManager/Admin.antt =====
-- stellar/contracts/dispute-manager/src/lib.rs: initialization and the admin's entry points.
use proofbridge_contracts.Base.{
  ℕ, String, Bool, true, false, not, Option, none, some, List, [], ◌∷◌, insert, nat_eq, Env, Host,
  Val, word, flag, fields, ok, err, trap, Result, ◌>>=◌, ◌>>◌, gets, modify, fail_if, ok_or,
  require_auth, from_result, if◌then◌else◌, ◌==◌,
}
use proofbridge_contracts.Core.Orders.{BondConfig, DisputeParams}
use proofbridge_contracts.Core.Bonds.{validate, validate_bond}
use proofbridge_contracts.Core.Timelock.{
  bump_epoch, activate, propose, cancel, gate_unless, brake_key,
}
use proofbridge_contracts.Core.Timelock as timelock
use proofbridge_contracts.DisputeManager.State.{
  Disputing, DisputeManagerError, on_timelock, require_admin, store_bond_config,
  already_initialized, not_initialized, invalid_challenge_period, invalid_bond_floor,
  invalid_bond_config,
}

unfoldable pub initialize : ℕ → ℕ → Disputing (Unit {0})
initialize admin w_native = do
  found ← gets (λ s. s.admin)
  fail_if (elim found [ none ↦ false | some _ ↦ true ]) already_initialized
  modify (λ s. record s { admin = some admin; w_native = some w_native })

-- The timelock's gate for the setters.
unfoldable pub gate : Host → Env → String → List Val → Disputing (Unit {0})
gate host env fn_name args = do
  admin ← ok_or (← gets (λ s. s.admin)) not_initialized
  on_timelock (timelock.gate host env admin fn_name args)

unfoldable pub set_escrow : Host → Env → ℕ → Bool → Disputing (Unit {0})
set_escrow host env escrow allowed = do
  admin ← ok_or (← gets (λ s. s.admin)) not_initialized
  on_timelock (
      gate_unless host env admin (not allowed) "set_escrow" (word escrow ∷ flag allowed ∷ [])
        (brake_key host "set_escrow" (word escrow)))
  modify (λ s. record s { escrows = insert escrow allowed s.escrows })

-- One error for each field that `validate` names; another field traps.
unfoldable pub params_error : Option ℕ → Result DisputeManagerError (Unit {0})
params_error none = ok tt
params_error (some field) =
    if field == 1
    then err invalid_challenge_period
    else if field == 2
    then err invalid_bond_floor
    else trap

unfoldable pub set_dispute_params : Host → Env → ℕ → DisputeParams → Disputing (Unit {0})
unfolding gate params_error
set_dispute_params host env chain p = do
  gate host env "set_dispute_params"
      (word chain ∷ fields (p.challenge_period ∷ p.bond_floor ∷ []) ∷ [])
  from_result (params_error (validate p))
  modify (λ s. record s { params = insert chain p s.params })

unfoldable pub set_arbiter : Host → Env → ℕ → Disputing (Unit {0})
unfolding gate
set_arbiter host env arbiter = do
  gate host env "set_arbiter" (word arbiter ∷ [])
  modify (λ s. record s { arbiter = some arbiter })

unfoldable pub set_protocol_fee_pool : Host → Env → ℕ → Disputing (Unit {0})
unfolding gate
set_protocol_fee_pool host env pool = do
  gate host env "set_protocol_fee_pool" (word pool ∷ [])
  modify (λ s. record s { fee_pool = some pool })

unfoldable pub set_bond_config : Host → Env → ℕ → ℕ → BondConfig → Disputing (Unit {0})
unfolding gate
set_bond_config host env token chain c = do
  gate host env "set_bond_config"
      (word token ∷ word chain ∷ fields (c.min_bond ∷ c.bond_bps ∷ []) ∷ [])
  fail_if (not (validate_bond c)) invalid_bond_config
  modify (store_bond_config token chain c)

unfoldable pub activate_timelock : Env → Disputing (Unit {0})
unfolding require_admin
activate_timelock env = do require_admin env; on_timelock activate

unfoldable pub propose_action : Host → Env → String → ℕ → Disputing ℕ
unfolding require_admin
propose_action host env fn_name args = do
  require_admin env
  on_timelock (propose host env fn_name args)

unfoldable pub cancel_action : Env → ℕ → Disputing (Unit {0})
unfolding require_admin
cancel_action env id = do require_admin env; on_timelock (cancel id)

unfoldable pub transfer_admin : Env → ℕ → Disputing (Unit {0})
unfolding require_admin
transfer_admin env to = do require_admin env; modify (λ s. record s { pending_admin = some to })

unfoldable pub accept_admin : Env → Disputing (Unit {0})
unfolding bump_epoch
accept_admin env = do
  pending ← ok_or (← gets (λ s. s.pending_admin)) not_initialized
  require_auth env pending
  ok_or (← gets (λ s. s.admin)) not_initialized
  modify (λ s. record s { admin = some pending; pending_admin = none })
  on_timelock bump_epoch
