-- ===== src/Escrow/Termination.antt =====
-- stellar/lib/proofbridge-core/src/escrow_ops.rs: the pause, the route clocks and the presentation
-- window of a leg.
use proofbridge_contracts.Base.{
  ℕ, ◌+◌, ◌-◌, ◌^◌, Bool, true, false, not, none, some, lookup, insert, nat_eq, pair_eq, ltb,
  if◌then◌else◌, Env, ◌>>=◌, ◌>>◌, pure, gets, modify, fail_if, ok_or, add_checked,
}
use proofbridge_contracts.Core.Faults.{
  contract_paused, no_route_timing, deadline_too_soon, deadline_too_far, too_early, not_claimable,
  not_claimed, invalid_timing,
}
use proofbridge_contracts.Core.Orders.{Status, opened, claimed, disputed, RouteTiming, ClaimRecord}
use proofbridge_contracts.Core.Timing as timing
use proofbridge_contracts.Escrow.State.{
  State, Escrowing, get_order, get_order_status, get_timing_version, push_route_timing,
  set_order_status,
}

-- Entries only: a pause stops new trades, never exits.
unfoldable pub require_not_paused : Escrowing (Unit {0})
require_not_paused = do paused ← gets (λ s. s.paused); fail_if paused contract_paused

unfoldable pub set_route_timing : ℕ → RouteTiming → Escrowing (Unit {0})
unfolding push_route_timing
set_route_timing chain t = do
  fail_if (elim (timing.validate t) [ none ↦ false | some _ ↦ true ]) invalid_timing
  push_route_timing chain t
  pure tt

-- The route's current version and clocks.
unfoldable pub current_timing : ℕ → Escrowing (ℕ × RouteTiming)
current_timing chain = do
  version ← gets (get_timing_version chain)
  t ← ok_or (← gets (λ s. lookup (chain, version) s.timings)) no_route_timing
  pure (version, t)

-- The clocks of the version that the order opened under.
unfoldable pub order_timing : ℕ → ℕ → Escrowing RouteTiming
order_timing order chain = do
  version ← gets (λ s. (get_order order s).timing_version)
  ok_or (← gets (λ s. lookup (chain, version) s.timings)) no_route_timing

-- `now + min_window <= deadline <= now + MAX_ORDER_WINDOW`
unfoldable pub require_min_window : Env → ℕ → ℕ → Escrowing ℕ
unfolding current_timing
require_min_window env chain deadline = do
  current ← current_timing chain
  first ← add_checked 64 env.timestamp current.1.min_window
  fail_if (ltb deadline first) deadline_too_soon
  last ← add_checked 64 env.timestamp timing.max_order_window
  fail_if (ltb last deadline) deadline_too_far
  pure current.0

unfoldable pub require_reached : Env → ℕ → Escrowing (Unit {0})
require_reached env at = fail_if (ltb env.timestamp at) too_early

abbrev pub is_claimed : Status → Bool
is_claimed claimed = true
is_claimed _ = false

abbrev pub is_presentable : Status → Bool
is_presentable opened = true
is_presentable claimed = true
is_presentable disputed = true
is_presentable _ = false

-- Evidence may still settle or refund the leg.
unfoldable pub require_presentable : ℕ → Escrowing (Unit {0})
require_presentable order = do
  status ← gets (get_order_status order)
  fail_if (not (is_presentable status)) not_claimable

-- At 64 bits.
abbrev pub saturating_add : ℕ → ℕ → ℕ
saturating_add a b = if ltb (a + b) (2 ^ 64) then a + b else 2 ^ 64 - 1

-- When the leg's presentation window ends.
unfoldable pub window_end : ℕ → ℕ → ℕ → State → ℕ
window_end order deadline buffer s = elim (is_claimed (get_order_status order s)) [
  | true ↦ elim (lookup order s.claims) [
    | some claim ↦ claim.finalize_at
    | none ↦ saturating_add deadline buffer
  ]
  | false ↦ saturating_add deadline buffer
]

-- `Claimed`, and the window is over.
unfoldable pub require_finalizable : Env → ℕ → ℕ → Escrowing (Unit {0})
unfolding require_reached
require_finalizable env order buffer = do
  status ← gets (get_order_status order)
  fail_if (not (is_claimed status)) not_claimed
  end ← gets (window_end order 0 buffer)
  require_reached env end

unfoldable pub open_claim : Env → ℕ → ℕ → Escrowing (Unit {0})
unfolding set_order_status
open_claim env order finalize_at = do
  let claim : ClaimRecord = record { opened_at = env.timestamp; finalize_at = finalize_at }
  modify (λ s. record s { claims = insert order claim s.claims })
  set_order_status order claimed
