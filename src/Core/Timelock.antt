-- ===== src/Core/Timelock.antt =====
-- stellar/lib/proofbridge-core/src/timelock.rs: the 24-hour delay on admin setters. The instance keys
-- are fields; the persistent keys `(tleta, id)` and `(tlbrake, key)` are the two maps.
use proofbridge_contracts.Base.{
  ℕ, String, ◌*◌, ◌≡◌, Bool, true, false, not, ◌&&◌, ◌==◌, nat_eq, Option, none, some, List, [],
  ltb, leb, if◌then◌else◌, Map, lookup, insert, erase, Env, Host, Val, Action, ◌>>=◌, ◌>>◌, pure,
  unless, gets, modify, fail_if, ok_or, require_auth, add_checked, sub_checked,
}
use proofbridge_contracts.Core.Faults.{
  Fault, timelock_already_active, timelock_already_proposed, timelock_not_proposed,
  timelock_too_early, timelock_bad_args, timelock_expired, timelock_cancelled_by_brake,
}
pub mod History
pub mod Gate
pub mod Delay
pub mod Voids

-- 24 hours
abbrev pub delay : ℕ
delay = 24 * 60 * 60

-- 14 days
abbrev pub grace : ℕ
grace = 14 * 24 * 60 * 60

pub record Timelock : Type 0 where
  pub active : Bool
  pub epoch : ℕ
  pub etas : Map ℕ (ℕ × ℕ)
  pub brakes : Map ℕ ℕ

-- No key is set.
abbrev pub unset : Timelock
unset = record { active = false; epoch = 0; etas = []; brakes = [] }

abbrev pub Locked : Type 0 → Type 0
Locked A = Action Timelock Fault A

unfoldable pub bump_epoch : Locked (Unit {0})
bump_epoch = do
  e ← gets (λ t. t.epoch)
  next ← add_checked 32 e 1
  modify (λ t. record t { epoch = next })

-- The earliest execution time of a proposal that can still run; 0 for none.
unfoldable pub eta : Env → ℕ → Locked ℕ
eta env id = do
  found ← gets (λ t. lookup id t.etas)
  current ← gets (λ t. t.epoch)
  elim found [
    | none ↦ pure 0
    | some (at, e) ↦
        if e == current
        then (add_checked 64 at grace >>= λ last. pure (if leb env.timestamp last then at else 0))
        else pure 0
  ]

unfoldable pub action_id : Host → String → List Val → ℕ
action_id host fn_name args = host.sha256_call fn_name args

unfoldable pub brake_key : Host → String → Val → ℕ
brake_key host fn_name what = host.sha256_key fn_name what

set_active : Locked (Unit {0})
set_active = modify (λ t. record t { active = true })

unfoldable pub activate : Locked (Unit {0})
unfolding set_active
activate = do already ← gets (λ t. t.active); fail_if already timelock_already_active; set_active

-- The step after the arguments are decoded.
propose_call : Host → Env → String → List Val → Locked ℕ
unfolding set_active action_id
propose_call host env fn_name args = do
  already ← gets (λ t. t.active)
  unless already set_active
  let id = action_id host fn_name args
  pending ← eta env id
  fail_if (not (pending == 0)) timelock_already_proposed
  at ← add_checked 64 env.timestamp delay
  modify (λ t. record t { etas = insert id (at, t.epoch) t.etas })
  pure id

unfoldable pub propose : Host → Env → String → ℕ → Locked ℕ
unfolding propose_call
propose host env fn_name bytes = do
  args ← ok_or (host.args_from_xdr bytes) timelock_bad_args
  propose_call host env fn_name args

unfoldable pub cancel : ℕ → Locked (Unit {0})
cancel id = do
  found ← gets (λ t. lookup id t.etas)
  ok_or found timelock_not_proposed
  modify (λ t. record t { etas = erase id t.etas })

-- `if let Some(k) = key`: a brake at or after the proposal refuses it.
check_brake : ℕ → Option ℕ → Locked (Unit {0})
check_brake at none = pure tt
check_brake at (some k) = do
  found ← gets (λ t. lookup k t.brakes)
  let braked : ℕ = elim found [ none ↦ 0 | some b ↦ b ]
  if braked == 0
      then pure tt
      else (sub_checked at delay >>= λ made. fail_if (leb made braked) timelock_cancelled_by_brake)

-- The gate once the timelock is active.
gate_active : Env → ℕ → Option ℕ → Locked (Unit {0})
unfolding check_brake
gate_active env id key = do
  found ← gets (λ t. lookup id t.etas)
  proposal ← ok_or found timelock_not_proposed
  current ← gets (λ t. t.epoch)
  fail_if (not (proposal.1 == current)) timelock_not_proposed
  fail_if (ltb env.timestamp proposal.0) timelock_too_early
  last ← add_checked 64 proposal.0 grace
  fail_if (ltb last env.timestamp) timelock_expired
  check_brake proposal.0 key
  modify (λ t. record t { etas = erase id t.etas })

unfoldable pub gate_keyed : Host → Env → ℕ → String → List Val → Option ℕ → Locked (Unit {0})
unfolding gate_active action_id
gate_keyed host env admin fn_name args key = do
  already ← gets (λ t. t.active)
  if already then gate_active env (action_id host fn_name args) key else require_auth env admin

unfoldable pub gate : Host → Env → ℕ → String → List Val → Locked (Unit {0})
unfolding gate_keyed
gate host env admin fn_name args = gate_keyed host env admin fn_name args none

unfoldable pub gate_unless : Host → Env → ℕ → Bool → String → List Val → ℕ → Locked (Unit {0})
unfolding gate_keyed
gate_unless host env admin brake fn_name args key =
    if brake
    then (require_auth env admin
        >> modify (λ t. record t { brakes = insert key env.timestamp t.brakes }))
    else gate_keyed host env admin fn_name args (some key)
