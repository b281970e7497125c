-- ===== src/Core/Timing/Windows.antt =====
-- What validated clocks guarantee: the windows of a route can be kept by both parties.
use proofbridge_contracts.Base.{◌*◌, ◌≤◌, ◌<◌, ◌≡◌, ◌⊎◌, ◌↔◌, none, arith}
use proofbridge_contracts.Core.Orders.{RouteTiming}
use proofbridge_contracts.Core.Timing.{validate, min_buffer, max_buffer, max_order_window}

-- The rules, as a record.
pub record AreClocks (t : RouteTiming) : Type 0 where
  pub buffer_min : min_buffer ≤ t.buffer
  pub buffer_max : t.buffer ≤ max_buffer
  pub margin_half : t.margin * 2 ≤ t.buffer
  pub stagger_off_or_short : (t.claim_stagger ≡ 0) ⊎ (t.claim_stagger < t.min_window)
  pub margin_window : t.margin ≤ t.min_window
  pub window_half : t.min_window * 2 ≤ max_order_window

-- `validate` passes exactly the clocks with a buffer of 30 minutes to 24 hours, a margin of at most
-- half the buffer and at most the minimum window, a stagger that is off or shorter than the minimum
-- window, and a minimum window of at most half the longest order window.
pub validate_iff : (t : RouteTiming) → (validate t ≡ none) ↔ AreClocks t
unfolding validate
validate_iff t = (λ h. ground arith, λ c. ground arith)
