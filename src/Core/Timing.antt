-- ===== src/Core/Timing.antt =====
-- stellar/lib/proofbridge-core/src/timing.rs: the rules for a route's clocks, in seconds.
use proofbridge_contracts.Base.{
  ℕ, ◌*◌, ◌/◌, Bool, not, ◌&&◌, ◌||◌, ◌==◌, nat_eq, Option, none, some, ltb, leb, if◌then◌else◌,
}
use proofbridge_contracts.Core.Orders.{RouteTiming}
pub mod Windows

abbrev pub min_buffer : ℕ
min_buffer = 30 * 60

abbrev pub max_buffer : ℕ
max_buffer = 24 * 60 * 60

abbrev pub max_order_window : ℕ
max_order_window = 7 * 24 * 60 * 60

-- `none` where the clocks pass, else the number of the field that failed.
unfoldable pub validate : RouteTiming → Option ℕ
validate t =
    if ltb t.buffer min_buffer || ltb max_buffer t.buffer
    then some 1
    else if ltb (t.buffer / 2) t.margin
    then some 2
    else if not (t.claim_stagger == 0) && leb t.min_window t.claim_stagger
    then some 4
    else if ltb t.min_window t.margin || ltb (max_order_window / 2) t.min_window
    then some 5
    else none
