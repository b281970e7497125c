-- ===== src/DisputeManager/State.antt =====
-- stellar/contracts/dispute-manager/src/storage.rs and errors.rs, and the token contracts that the
-- module calls. Instance keys are fields; each persistent prefix is a map.
use proofbridge_contracts.Base.{
  ℕ, Bool, false, Option, none, some, [], Map, lookup, insert, erase, nat_eq, pair_eq, ◌==◌,
  if◌then◌else◌, Action, ok, err, trap, Env, ◌>>=◌, ◌>>◌, pure, gets, ok_or, require_auth,
}
use proofbridge_contracts.Core.Faults.{
  Fault, timelock_already_active, timelock_already_proposed, timelock_too_early, timelock_bad_args,
  timelock_expired, timelock_cancelled_by_brake,
}
use proofbridge_contracts.Core.Orders.{BondConfig, DisputeParams, DisputeRecord}
use proofbridge_contracts.Core.Timelock.{Timelock, unset}

pub data DisputeManagerError : Type 0 where
  already_initialized not_initialized not_escrow dispute_exists not_disputed : DisputeManagerError
  no_dispute_params arbiter_cannot_settle challenge_closed invalid_challenge_period :
      DisputeManagerError
  invalid_bond_floor nothing_to_claim wrong_escrow not_responder : DisputeManagerError
  bond_transfer_failed bond_transfer_short response_window_closed : DisputeManagerError
  already_responded zero_response already_ruled invalid_bond_config : DisputeManagerError
  timelock_active timelock_proposed timelock_unproposed timelock_early : DisputeManagerError
  timelock_args timelock_past timelock_braked : DisputeManagerError

-- The token contracts, as far as the module calls them: `balance`, and `try_transfer` of a token
-- from one address to another. A refused transfer is `none` and changes nothing; otherwise the flag
-- says whether the reply decodes. The amount is the bits of an `i128`.
pub record Tokens (World : Type 0) : Type 0 where
  pub balance : World → ℕ → ℕ → ℕ
  pub try_transfer : World → ℕ → ℕ → ℕ → ℕ → Option (World × Bool)

pub record State : Type 0 where
  pub admin : Option ℕ
  pub pending_admin : Option ℕ
  pub arbiter : Option ℕ
  pub fee_pool : Option ℕ
  pub w_native : Option ℕ
  pub escrows : Map ℕ Bool
  pub params : Map ℕ DisputeParams
  pub disputes : Map ℕ DisputeRecord
  pub claims : Map ℕ ℕ
  pub bond_configs : Map (ℕ × ℕ) BondConfig
  pub token_claims : Map (ℕ × ℕ) ℕ
  pub timelock : Timelock

-- The storage of a fresh deployment.
abbrev pub fresh : State
fresh = record {
  admin = none;
  pending_admin = none;
  arbiter = none;
  fee_pool = none;
  w_native = none;
  escrows = [];
  params = [];
  disputes = [];
  claims = [];
  bond_configs = [];
  token_claims = [];
  timelock = unset;
}

abbrev pub Disputing : Type 0 → Type 0
Disputing A = Action State DisputeManagerError A

abbrev pub is_escrow : ℕ → State → Bool
is_escrow who s = elim (lookup who s.escrows) [ none ↦ false | some allowed ↦ allowed ]

-- `unwrap_or(0)`
abbrev pub or_zero : Option ℕ → ℕ
or_zero none = 0
or_zero (some n) = n

abbrev pub get_claimable : ℕ → State → ℕ
get_claimable who s = or_zero (lookup who s.claims)

abbrev pub get_token_claimable : ℕ → ℕ → State → ℕ
get_token_claimable who token s = or_zero (lookup (who, token) s.token_claims)

-- `{0, 0}` removes the entry.
abbrev pub store_bond_config : ℕ → ℕ → BondConfig → State → State
store_bond_config token chain c s =
    if c.min_bond == 0
    then record s { bond_configs = erase (token, chain) s.bond_configs }
    else record s { bond_configs = insert (token, chain) c s.bond_configs }

unfoldable pub timelock_error : Fault → DisputeManagerError
timelock_error timelock_already_active = timelock_active
timelock_error timelock_already_proposed = timelock_proposed
timelock_error timelock_too_early = timelock_early
timelock_error timelock_bad_args = timelock_args
timelock_error timelock_expired = timelock_past
timelock_error timelock_cancelled_by_brake = timelock_braked
timelock_error _ = timelock_unproposed

-- A call into the shared timelock, on this contract's keys.
abbrev pub on_timelock : {A : Type 0} → Action Timelock Fault A → Disputing A
on_timelock m s = elim (m s.timelock) [
  | ok (a, t) ↦ ok (a, record s { timelock = t })
  | err f ↦ err (timelock_error f)
  | trap ↦ trap
]

unfoldable pub require_admin : Env → Disputing ℕ
require_admin env = do
  admin ← ok_or (← gets (λ s. s.admin)) not_initialized
  require_auth env admin
  pure admin

unfoldable pub require_escrow : Env → ℕ → Disputing (Unit {0})
require_escrow env escrow = do
  require_auth env escrow
  served ← gets (is_escrow escrow)
  if served then pure tt else (λ s. err not_escrow)
