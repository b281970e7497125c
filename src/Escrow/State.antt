-- ===== src/Escrow/State.antt =====
-- stellar/lib/proofbridge-core/src/escrow_storage.rs: the escrow keys that the termination core reads
-- and writes. Each persistent prefix is a map, read at its default where the key is missing.
use proofbridge_contracts.Base.{
  ℕ, Bool, true, false, Option, none, some, List, [], ◌∷◌, ◌++◌, Map, lookup, insert, erase,
  contains, ◌==◌, if◌then◌else◌, nat_eq, pair_eq, Env, Action, ◌>>=◌, ◌>>◌, pure, gets, modify,
  add_checked,
}
use proofbridge_contracts.Core.Faults.{Fault}
use proofbridge_contracts.Core.Timelock.{Timelock, unset}
use proofbridge_contracts.Core.Orders.{
  Status, absent, opened, RouteTiming, OrderRecord, ClaimRecord, ContractConfig,
}

pub record State : Type 0 where
  pub initialized : Bool
  pub config : Option ContractConfig
  pub paused : Bool
  pub pending_admin : Option ℕ
  pub routes : Map (ℕ × ℕ) ℕ
  pub orders : Map ℕ OrderRecord
  pub timing_versions : Map ℕ ℕ
  pub timings : Map (ℕ × ℕ) RouteTiming
  pub root_anchor : Option ℕ
  pub claims : Map ℕ ClaimRecord
  pub dispute_manager : Option ℕ
  pub order_dispute_managers : Map ℕ ℕ
  pub settled : Map ℕ Bool
  pub nullifiers : Map ℕ Bool
  pub root_verifiers : Map ℕ ℕ
  pub verifier_changes : Map ℕ ℕ
  pub wired_chains : List ℕ
  pub in_flight : Map ℕ ℕ
  pub claimable : Map (ℕ × ℕ) ℕ
  pub timelock : Timelock

-- No key is set.
abbrev pub fresh : State
fresh = record {
  initialized = false;
  config = none;
  paused = false;
  pending_admin = none;
  routes = [];
  orders = [];
  timing_versions = [];
  timings = [];
  root_anchor = none;
  claims = [];
  dispute_manager = none;
  order_dispute_managers = [];
  settled = [];
  nullifiers = [];
  root_verifiers = [];
  verifier_changes = [];
  wired_chains = [];
  in_flight = [];
  claimable = [];
  timelock = unset;
}

abbrev pub Escrowing : Type 0 → Type 0
Escrowing A = Action State Fault A

abbrev pub no_order : OrderRecord
no_order = record {
  status = absent;
  locked_at = 0;
  registry_epoch = 0;
  timing_version = 0;
  anchor_delay = 0;
  pinned_slot = 0;
  repinned = false;
}

abbrev pub get_order : ℕ → State → OrderRecord
get_order order s = elim (lookup order s.orders) [ none ↦ no_order | some rec ↦ rec ]

abbrev pub get_order_status : ℕ → State → Status
get_order_status order s = (get_order order s).status

-- The record of an order that opens.
abbrev pub opened_rec : Env → ℕ → ℕ → ℕ → ℕ → OrderRecord
opened_rec env timing_version registry_epoch anchor_delay pinned_slot = record {
  status = opened;
  locked_at = env.timestamp;
  registry_epoch = registry_epoch;
  timing_version = timing_version;
  anchor_delay = anchor_delay;
  pinned_slot = pinned_slot;
  repinned = false;
}

-- `None → Open`
unfoldable pub open_order : Env → ℕ → ℕ → ℕ → ℕ → ℕ → Escrowing (Unit {0})
open_order env order timing_version registry_epoch anchor_delay pinned_slot =
    let rec = opened_rec env timing_version registry_epoch anchor_delay pinned_slot in
    modify (λ s. record s { orders = insert order rec s.orders })

-- The rest of the record is kept.
unfoldable pub set_order_status : ℕ → Status → Escrowing (Unit {0})
set_order_status order status = do
  rec ← gets (get_order order)
  let flipped : OrderRecord = record rec { status = status }
  modify (λ s. record s { orders = insert order flipped s.orders })

unfoldable pub set_pinned_slot : ℕ → ℕ → Escrowing (Unit {0})
set_pinned_slot order slot = do
  rec ← gets (get_order order)
  let pinned : OrderRecord = record rec { pinned_slot = slot; repinned = true }
  modify (λ s. record s { orders = insert order pinned s.orders })

abbrev pub get_timing_version : ℕ → State → ℕ
get_timing_version chain s = elim (lookup chain s.timing_versions) [ none ↦ 0 | some v ↦ v ]

-- The route's next version; earlier versions stay readable.
unfoldable pub push_route_timing : ℕ → RouteTiming → Escrowing ℕ
push_route_timing chain timing = do
  current ← gets (get_timing_version chain)
  version ← add_checked 32 current 1
  modify (λ s. record s {
    timings = insert (chain, version) timing s.timings;
    timing_versions = insert chain version s.timing_versions;
  })
  pure version

-- A number at its default.
abbrev pub or_zero : Option ℕ → ℕ
or_zero none = 0
or_zero (some n) = n

abbrev pub is_set : Option Bool → Bool
is_set none = false
is_set (some b) = b

abbrev pub is_settled_recorded : ℕ → State → Bool
is_settled_recorded order s = is_set (lookup order s.settled)

unfoldable pub set_settled_recorded : ℕ → Escrowing (Unit {0})
set_settled_recorded order = modify (λ s. record s { settled = insert order true s.settled })

abbrev pub is_nullifier_used : ℕ → State → Bool
is_nullifier_used nullifier s = is_set (lookup nullifier s.nullifiers)

unfoldable pub set_nullifier_used : ℕ → Escrowing (Unit {0})
set_nullifier_used nullifier =
    modify (λ s. record s { nullifiers = insert nullifier true s.nullifiers })

-- A set stamps the change.
unfoldable pub store_root_verifier : Env → ℕ → ℕ → Escrowing (Unit {0})
store_root_verifier env chain module_at = modify (λ s. record s {
  root_verifiers = insert chain module_at s.root_verifiers;
  verifier_changes = insert chain env.timestamp s.verifier_changes;
})

unfoldable pub remove_root_verifier : Env → ℕ → Escrowing (Unit {0})
remove_root_verifier env chain = modify (λ s. record s {
  root_verifiers = erase chain s.root_verifiers;
  verifier_changes = insert chain env.timestamp s.verifier_changes;
})

-- Once each, in first-wired order.
unfoldable pub add_wired_chain : ℕ → Escrowing (Unit {0})
add_wired_chain chain = modify (λ s. record s {
  wired_chains =
      if contains s.wired_chains chain then s.wired_chains else s.wired_chains ++ chain ∷ [];
})

abbrev pub get_in_flight : ℕ → State → ℕ
get_in_flight account s = or_zero (lookup account s.in_flight)

-- A zero count is a missing key.
unfoldable pub set_in_flight : ℕ → ℕ → Escrowing (Unit {0})
set_in_flight account count = modify (λ s. record s {
  in_flight = if count == 0 then erase account s.in_flight else insert account count s.in_flight;
})

abbrev pub get_claimable : ℕ → ℕ → State → ℕ
get_claimable recipient token s = or_zero (lookup (recipient, token) s.claimable)

-- A zero credit is a missing key.
unfoldable pub set_claimable : ℕ → ℕ → ℕ → Escrowing (Unit {0})
set_claimable recipient token amount = modify (λ s. record s {
  claimable =
      if amount == 0
      then erase (recipient, token) s.claimable
      else insert (recipient, token) amount s.claimable;
})
