-- ===== src/Escrow/Clocks.antt =====
-- The clocks that an order was locked under stay its clocks, and the presentation window that a claim
-- opens is the one that its finalization waits for.
use proofbridge_contracts.Base.{
  ℕ, ◌+◌, ◌≤◌, ◌≡◌, ◌↔◌, refl, subst, ◌∙◌, inl, inr, none, some, List, [], ◌∷◌, lookup, insert,
  lookup-insert, lookup-insert_self, AllAt, AllAt-insert, nat_eq, pair_eq, Env, Result, ok, err,
  trap, arith, Option-cases,
}
use proofbridge_contracts.Core.Faults.{Fault}
use proofbridge_contracts.Core.Orders.{RouteTiming, OrderRecord, ClaimRecord, claimed}
use proofbridge_contracts.Core.Timing as timing
use proofbridge_contracts.Core.Timing.Windows.{AreClocks, validate_iff}
use proofbridge_contracts.Escrow.State.{
  State, get_order, get_timing_version, open_order, opened_rec, push_route_timing, set_order_status,
}
use proofbridge_contracts.Escrow.Termination.{
  set_route_timing, current_timing, order_timing, require_min_window, require_reached, window_end,
  require_finalizable, open_claim,
}

-- A call that fails leaves the storage as it was.
abbrev settle : {A : Type 0} → State → Result Fault (A × State) → State
settle s (ok (_, s')) = s'
settle s _ = s

-- A history of retimings, of any chains.
unfoldable pub retimed : List (ℕ × RouteTiming) → State → State
retimed [] s = s
retimed ((chain, t) ∷ rest) s = retimed rest (settle s (set_route_timing chain t s))

-- A version of a chain's clocks that was set.
abbrev IsVersion : ℕ → ℕ → RouteTiming → State → Type 0
IsVersion chain version t s =
    (lookup (chain, version) s.timings ≡ some t) × (version ≤ get_timing_version chain s)

push-IsVersion :
    (chain version : ℕ) (t : RouteTiming) (at : ℕ) (new : RouteTiming) (s s' : State)
    → IsVersion chain version t s
    → set_route_timing at new s ≡ ok (tt, s')
    → IsVersion chain version t s' × (s'.orders ≡ s.orders)
unfolding set_route_timing push_route_timing
push-IsVersion chain version t at new s s' (found, le) h = ground (
  arith,
  lookup-insert (at, get_timing_version at s + 1) (chain, version) new s.timings,
  lookup-insert at chain (get_timing_version at s + 1) s.timing_versions,
)

settle-IsVersion :
    (chain version : ℕ) (t : RouteTiming) (at : ℕ) (new : RouteTiming) (s : State)
    → IsVersion chain version t s
    → (r : Result Fault (Unit {0} × State)) → set_route_timing at new s ≡ r
    → IsVersion chain version t (settle s r) × ((settle s r).orders ≡ s.orders)
settle-IsVersion chain version t at new s set (ok (_, s')) e =
    push-IsVersion chain version t at new s s' set e
settle-IsVersion chain version t at new s set (err x) e = (set, refl)
settle-IsVersion chain version t at new s set trap e = (set, refl)

retimed-IsVersion :
    (chain version : ℕ) (t : RouteTiming) (changes : List (ℕ × RouteTiming)) (s : State)
    → IsVersion chain version t s
    → IsVersion chain version t (retimed changes s) × ((retimed changes s).orders ≡ s.orders)
unfolding retimed
retimed-IsVersion chain version t [] s set = (set, refl)
retimed-IsVersion chain version t ((at, new) ∷ rest) s set =
    let (kept, same) =
      settle-IsVersion chain version t at new s set (set_route_timing at new s) refl in
    let (after, orders) =
      retimed-IsVersion chain version t rest (settle s (set_route_timing at new s)) kept in
    (after, orders ∙ same)

-- Every stored tuple of clocks passes the timing rules.
abbrev AreValid : State → Type 0
AreValid s = AllAt (λ (t : RouteTiming). timing.validate t ≡ none) s.timings

push-AreValid :
    (at : ℕ) (new : RouteTiming) (s s' : State)
    → AreValid s
    → set_route_timing at new s ≡ ok (tt, s')
    → AreValid s'
push-AreValid at new s s' valid h =
    let done : (timing.validate new ≡ none)
        × (s'.timings ≡ insert (at, get_timing_version at s + 1) new s.timings) =
      unfold set_route_timing push_route_timing in ground arith in
    rw done.1 (
      AllAt-insert (λ (t : RouteTiming). timing.validate t ≡ none) (at, get_timing_version at s + 1)
        new s.timings done.0 valid)

settle-AreValid :
    (at : ℕ) (new : RouteTiming) (s : State)
    → AreValid s
    → (r : Result Fault (Unit {0} × State)) → set_route_timing at new s ≡ r
    → AreValid (settle s r)
settle-AreValid at new s valid (ok (_, s')) e = push-AreValid at new s s' valid e
settle-AreValid at new s valid (err x) e = valid
settle-AreValid at new s valid trap e = valid

retimed-AreValid :
    (changes : List (ℕ × RouteTiming)) (s : State) → AreValid s → AreValid (retimed changes s)
unfolding retimed
retimed-AreValid [] s valid = valid
retimed-AreValid ((at, new) ∷ rest) s valid =
    retimed-AreValid rest (settle s (set_route_timing at new s))
      (settle-AreValid at new s valid (set_route_timing at new s) refl)

-- What the window check has found: the current version and its clocks.
min_window-ok :
    (env : Env) (chain deadline version : ℕ) (s s' : State)
    → require_min_window env chain deadline s ≡ ok (version, s')
    → (t : RouteTiming) × IsVersion chain version t s
      × (s' ≡ s)
      × (env.timestamp + t.min_window ≤ deadline)
      × (deadline ≤ env.timestamp + timing.max_order_window)
min_window-ok env chain deadline version s s' h =
    elim (Option-cases (lookup (chain, get_timing_version chain s) s.timings)) [
      | inl unset ↦ absurd (unfold require_min_window current_timing in ground arith)
      | inr (t, found) ↦
          let parts : (version ≡ get_timing_version chain s)
              × (s' ≡ s)
              × (env.timestamp + t.min_window ≤ deadline)
              × (deadline ≤ env.timestamp + timing.max_order_window) =
            unfold require_min_window current_timing in ground arith in
          (t, (ground arith, omega arith), parts.1, parts.2, parts.3)
    ]

-- Where a chain's clocks come from any history of retimings, an order that opens under the version
-- that the window check returned keeps that version's clocks through every later history of
-- retimings. The clocks meet the timing rules, and the order's deadline is at least their minimum
-- window and at most seven days after the lock.
pub locked_clocks :
    (env : Env) (order chain deadline version epoch anchor_delay slot : ℕ)
    (before after : List (ℕ × RouteTiming)) (s0 s s' : State)
    → s0.timings ≡ []
    → retimed before s0 ≡ s
    → require_min_window env chain deadline s ≡ ok (version, s)
    → open_order env order version epoch anchor_delay slot s ≡ ok (tt, s')
    → (t : RouteTiming) × AreClocks t
      × (order_timing order chain (retimed after s') ≡ ok (t, retimed after s'))
      × (env.timestamp + t.min_window ≤ deadline)
      × (deadline ≤ env.timestamp + timing.max_order_window)
locked_clocks env order chain deadline version epoch anchor_delay slot before after s0 s s' empty
      history checked locked =
    let none_yet : AreValid s0 = rw empty (λ k v h. absurd (cc h)) in
    let valid : AreValid s = subst AreValid history (retimed-AreValid before s0 none_yet) in
    let (t, set, _, first, last) = min_window-ok env chain deadline version s s checked in
    let opened_set : IsVersion chain version t s' = unfold open_order in ground (arith, set) in
    let named : (get_order order s').timing_version ≡ version =
      unfold open_order in
      ground (
        arith,
        lookup-insert_self order (opened_rec env version epoch anchor_delay slot) s.orders,
      ) in
    let (kept, orders) = retimed-IsVersion chain version t after s' opened_set in
    (
      t,
      (validate_iff t).0 (valid (chain, version) t set.0),
      unfold order_timing in ground (arith, kept, orders, named),
      first,
      last,
    )

-- After a claim opens its window, the window ends when the claim says, whatever the deadline and the
-- buffer, and the leg can be finalized exactly from then on.
pub open_claim_window :
    (env later : Env) (order finalize_at deadline buffer : ℕ) (s s' : State)
    → open_claim env order finalize_at s ≡ ok (tt, s')
    → (window_end order deadline buffer s' ≡ finalize_at)
      × ((require_finalizable later order buffer s' ≡ ok (tt, s'))
          ↔ (finalize_at ≤ later.timestamp))
open_claim_window env later order finalize_at deadline buffer s s' h =
    let claim : ClaimRecord = record { opened_at = env.timestamp; finalize_at = finalize_at } in
    let flipped : OrderRecord = record (get_order order s) { status = claimed } in
    let there : (lookup order s'.claims ≡ some claim) × ((get_order order s').status ≡ claimed) =
      unfold open_claim set_order_status in
      ground (
        arith,
        lookup-insert_self order claim s.claims,
        lookup-insert_self order flipped s.orders,
      ) in
    let end : (d : ℕ) → window_end order d buffer s' ≡ finalize_at =
      λ d. unfold window_end in ground (arith, there) in
    (
      end deadline,
      (
        λ e. unfold require_finalizable require_reached in ground (arith, there, end 0),
        λ e. unfold require_finalizable require_reached in ground (arith, there, end 0),
      ),
    )
