-- ===== src/Tests/Clocks.antt =====
-- An order is locked and its route is retimed; a claim opens a window.
use proofbridge_contracts.Base.{◌+◌, ◌≤◌, ◌≡◌, ◌↔◌, refl, ok, [], ◌∷◌}
use proofbridge_contracts.Core.Orders.{RouteTiming, claimed}
use proofbridge_contracts.Core.Timing as timing
use proofbridge_contracts.Core.Timing.Windows.{AreClocks}
use proofbridge_contracts.Escrow.State.{
  State, fresh, open_order, opened_rec, push_route_timing, set_order_status,
}
use proofbridge_contracts.Escrow.Termination.{
  set_route_timing, current_timing, order_timing, require_min_window, require_finalizable,
  open_claim, window_end,
}
use proofbridge_contracts.Escrow.Clocks.{retimed, locked_clocks, open_claim_window}
use proofbridge_contracts.Tests.Platform.{at}

abbrev pub slow : RouteTiming
slow = record { min_window = 3_600; buffer = 1_800; margin = 600; claim_stagger = 0 }

abbrev slower : RouteTiming
slower = record slow { min_window = 7_200 }

abbrev timed : State
timed = record fresh { timing_versions = (5, 1) ∷ []; timings = ((5, 1), slow) ∷ [] }

abbrev pub locked : State
locked = record timed { orders = (8, opened_rec (at 1_000) 1 0 0 0) ∷ [] }

timed_once : retimed ((5, slow) ∷ []) fresh ≡ timed
unfolding retimed set_route_timing push_route_timing timing.validate
timed_once = refl

window_checked : require_min_window (at 1_000) 5 10_000 timed ≡ ok (1, timed)
unfolding require_min_window current_timing
window_checked = refl

locking : open_order (at 1_000) 8 1 0 0 0 timed ≡ ok (tt, locked)
unfolding open_order
locking = refl

locked_clocks_example :
    (t : RouteTiming) × AreClocks t
    × (order_timing 8 5 (retimed ((5, slower) ∷ []) locked)
        ≡ ok (t, retimed ((5, slower) ∷ []) locked))
    × (1_000 + t.min_window ≤ 10_000)
    × (10_000 ≤ 1_000 + timing.max_order_window)
locked_clocks_example =
    locked_clocks (at 1_000) 8 5 10_000 1 0 0 0 ((5, slow) ∷ []) ((5, slower) ∷ []) fresh timed
      locked refl timed_once window_checked locking

abbrev waiting : State
waiting = record locked {
  orders = (8, record (opened_rec (at 1_000) 1 0 0 0) { status = claimed }) ∷ [];
  claims = (8, record { opened_at = 2_000; finalize_at = 12_000 }) ∷ [];
}

claiming : open_claim (at 2_000) 8 12_000 locked ≡ ok (tt, waiting)
unfolding open_claim set_order_status
claiming = refl

open_claim_window_example :
    (window_end 8 10_000 1_800 waiting ≡ 12_000)
    × ((require_finalizable (at 13_000) 8 1_800 waiting ≡ ok (tt, waiting)) ↔ (12_000 ≤ 13_000))
open_claim_window_example =
    open_claim_window (at 2_000) (at 13_000) 8 12_000 10_000 1_800 locked waiting claiming
