-- ===== src/RootAnchor/State.antt =====
-- stellar/contracts/root-anchor/src/storage.rs and errors.rs, and the timelock's error mapping. The
-- instance keys are fields at their defaults; each persistent prefix is a map.
use proofbridge_contracts.Base.{
  ℕ, Bool, true, false, Option, none, some, List, [], Map, lookup, nat_eq, pair_eq, Action, ok, err,
  trap, Env, ◌>>=◌, ◌>>◌, pure, fail_if, gets, unwrap, require_auth, not,
}
use proofbridge_contracts.Core.Faults.{
  Fault, timelock_already_active, timelock_already_proposed, timelock_too_early, timelock_bad_args,
  timelock_expired, timelock_cancelled_by_brake,
}
use proofbridge_contracts.Core.Timelock.{Timelock, unset}

pub data RootAnchorError : Type 0 where
  already_initialized not_initialized contract_paused not_pending_admin not_signer : RootAnchorError
  bad_threshold duplicate_signer seq_not_monotonic delay_too_long no_such_anchor : RootAnchorError
  seq_mismatch timelock_active timelock_proposed timelock_unproposed timelock_early :
      RootAnchorError
  timelock_args timelock_past timelock_braked : RootAnchorError

pub record AnchorRec : Type 0 where
  pub ledger_seq : ℕ
  pub anchored : Bool
  pub anchored_at : ℕ
  pub approvals : ℕ
  pub set_epoch : ℕ
  pub gen : ℕ

pub record State : Type 0 where
  pub initialized : Bool
  pub admin : Option ℕ
  pub pending_admin : Option ℕ
  pub paused : Bool
  pub signers : List ℕ
  pub threshold : ℕ
  pub set_epoch : ℕ
  pub monotonic : Bool
  pub delays : Map ℕ ℕ
  pub latest : Map ℕ ℕ
  pub anchors : Map (ℕ × ℕ) AnchorRec
  pub stamps : Map (ℕ × ℕ × ℕ) ℕ
  pub timelock : Timelock

-- The storage of a fresh deployment.
abbrev pub fresh : State
fresh = record {
  initialized = false;
  admin = none;
  pending_admin = none;
  paused = false;
  signers = [];
  threshold = 0;
  set_epoch = 0;
  monotonic = true;
  delays = [];
  latest = [];
  anchors = [];
  stamps = [];
  timelock = unset;
}

abbrev pub Anchoring : Type 0 → Type 0
Anchoring A = Action State RootAnchorError A

abbrev pub get_delay : ℕ → State → ℕ
get_delay chain s = elim (lookup chain s.delays) [ none ↦ 0 | some d ↦ d ]

abbrev pub get_latest_seq : ℕ → State → ℕ
get_latest_seq chain s = elim (lookup chain s.latest) [ none ↦ 0 | some n ↦ n ]

abbrev pub no_anchor : AnchorRec
no_anchor = record {
  ledger_seq = 0;
  anchored = false;
  anchored_at = 0;
  approvals = 0;
  set_epoch = 0;
  gen = 0;
}

-- `get_anchor(...).unwrap_or(...)`
abbrev pub anchor_or_none : ℕ → ℕ → State → AnchorRec
anchor_or_none chain root s = elim (lookup (chain, root) s.anchors) [
  | none ↦ no_anchor
  | some r ↦ r
]

unfoldable pub timelock_error : Fault → RootAnchorError
timelock_error timelock_already_active = timelock_active
timelock_error timelock_already_proposed = timelock_proposed
timelock_error timelock_too_early = timelock_early
timelock_error timelock_bad_args = timelock_args
timelock_error timelock_expired = timelock_past
timelock_error timelock_cancelled_by_brake = timelock_braked
timelock_error _ = timelock_unproposed

-- A call into the shared timelock, on this contract's keys.
abbrev pub on_timelock : {A : Type 0} → Action Timelock Fault A → Anchoring A
on_timelock m s = elim (m s.timelock) [
  | ok (a, t) ↦ ok (a, record s { timelock = t })
  | err f ↦ err (timelock_error f)
  | trap ↦ trap
]

unfoldable pub admin_of : Anchoring ℕ
admin_of = do
  ready ← gets (λ s. s.initialized)
  fail_if (not ready) not_initialized
  unwrap (← gets (λ s. s.admin))

unfoldable pub require_admin : Env → Anchoring ℕ
unfolding admin_of
require_admin env = do admin ← admin_of; require_auth env admin; pure admin
