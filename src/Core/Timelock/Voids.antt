-- ===== src/Core/Timelock/Voids.antt =====
-- What voids a pending proposal: a handover of the admin role, and a brake on the call's key.
use proofbridge_contracts.Base.{
  ℕ, String, ◌+◌, ◌-◌, ◌≤◌, ◌<◌, ◌≡◌, refl, ap, true, false, nat_eq, Option, some, List, [], ◌∷◌,
  inl, inr, lookup, insert, lookup-insert, lookup-erase, lookup-insert_self, Env, Host, Val, Result,
  ok, err, trap, arith, Option-cases,
}
use proofbridge_contracts.Core.Timelock.{
  Timelock, unset, delay, bump_epoch, activate, propose, cancel, gate_keyed, gate_unless, action_id,
}
use proofbridge_contracts.Core.Timelock.History.{
  Call, activates, proposes, cancels, gates, gates_unless, hands_over, Log, step, run, settle,
  settle_proposal, Until, Since,
}
use proofbridge_contracts.Core.Faults.{Fault, timelock_not_proposed}
use proofbridge_contracts.Core.Timelock.Gate.{braked_at, gate-Ripe, gate_keyed-ok, propose-ok}
use proofbridge_contracts.Core.Timelock.Delay.{
  Effect, keeps, drops, adds, step-Effect, AreLogged, run-AreLogged, unset-AreLogged,
}

-- Every pending proposal was made by `now` and under no later epoch than the current one.
abbrev AreBounded : ℕ → Timelock × Log → Type 0
AreBounded now s =
    (id at e : ℕ) → lookup id s.0.etas ≡ some (at, e) → (at ≤ now + delay) × (e ≤ s.0.epoch)

Effect-AreBounded :
    (now time : ℕ) (s s' : Timelock × Log)
    → time ≤ now
    → Effect time s s'
    → AreBounded now s
    → AreBounded now s'
Effect-AreBounded now time s s' past (keeps e _ l) h id at ep found = ground (arith, h id at ep)
Effect-AreBounded now time s s' past (drops gone e _ l) h id at ep found =
    ground (arith, h id at ep, lookup-erase gone id s.0.etas)
Effect-AreBounded now time s s' past (adds new e _ l) h id at ep found =
    ground (arith, h id at ep, lookup-insert new id (time + delay, s.0.epoch) s.0.etas)

run-AreBounded :
    (host : Host) (now : ℕ) (calls : List (Env × Call)) (s : Timelock × Log)
    → Until now calls
    → AreBounded now s
    → AreBounded now (run host calls s)
unfolding run
run-AreBounded host now [] s u h = h
run-AreBounded host now ((env, c) ∷ cs) s (past, u) h =
    run-AreBounded host now cs (step host (env, c) s) u (
      Effect-AreBounded now env.timestamp s (step host (env, c) s) past (step-Effect host env s c)
        h)

reached-AreBounded :
    (host : Host) (now : ℕ) (calls : List (Env × Call)) (t : Timelock) (log : Log)
    → run host calls (unset, []) ≡ (t, log)
    → Until now calls
    → AreBounded now (t, log)
reached-AreBounded host now calls t log history past =
    rw history at (run-AreBounded host now calls (unset, []) past (λ id at e h. absurd (cc h)))

-- After a handover no proposal made before it can run: every gated call is refused as not proposed.
pub handover_voids :
    (host : Host) (now : ℕ) (calls : List (Env × Call)) (t t' : Timelock) (log : Log) (env : Env)
    (admin : ℕ) (fn_name : String) (args : List Val) (key : Option ℕ)
    → run host calls (unset, []) ≡ (t, log)
    → Until now calls
    → t.active ≡ true
    → bump_epoch t ≡ ok (tt, t')
    → gate_keyed host env admin fn_name args key t' ≡ err timelock_not_proposed
unfolding bump_epoch gate_keyed
handover_voids host now calls t t' log env admin fn_name args key history past active h =
    let id = action_id host fn_name args in
    let bounded = reached-AreBounded host now calls t log history past in
    elim (Option-cases (lookup id t.etas)) [
      | inl missing ↦ ground arith
      | inr ((at, e), found) ↦ ground (arith, bounded id at e found)
    ]

-- The timelock is active, and the brake on the key was pulled at the time or since.
abbrev Holds : ℕ → ℕ → Timelock → Type 0
Holds key time t = (t.active ≡ true) × (time ≤ braked_at (some key) t)

settle-Holds {ℓ} :
    {A : Type ℓ} (key time : ℕ) (s : Timelock × Log) (r : Result Fault (A × Timelock))
    → Holds key time s.0
    → ((a : A) (t' : Timelock) → r ≡ ok (a, t') → Holds key time t')
    → Holds key time (settle s r).0
settle-Holds key time s (ok (a, t')) b f = f a t' refl
settle-Holds key time s (err x) b f = b
settle-Holds key time s trap b f = b

module _ (host : Host) (key time : ℕ) where
  module _ (env : Env) (s : Timelock × Log) (b : Holds key time s.0) where
    gate_keyed-Holds :
        (admin : ℕ) (fn_name : String) (args : List Val) (on : Option ℕ)
        → Holds key time (settle s (gate_keyed host env admin fn_name args on s.0)).0
    gate_keyed-Holds admin fn_name args on =
        settle-Holds key time s (gate_keyed host env admin fn_name args on s.0) b
          λ a t' h. ground (arith, b, gate_keyed-ok host env admin fn_name args on s.0 h)

    propose-Holds :
        (fn_name : String) (bytes : ℕ)
        → Holds key time (settle_proposal env s (propose host env fn_name bytes s.0)).0
    propose-Holds fn_name bytes = go (propose host env fn_name bytes s.0) refl
      where
        go :
            (r : Result Fault (ℕ × Timelock))
            → propose host env fn_name bytes s.0 ≡ r
            → Holds key time (settle_proposal env s r).0
        go (ok (id, t')) h = ground (arith, b, propose-ok host env fn_name bytes s.0 h)
        go (err x) h = b
        go trap h = b

    -- A call that is no earlier keeps the brake, or renews it.
    step-Holds : (c : Call) → time ≤ env.timestamp → Holds key time (step host (env, c) s).0
    unfolding step activate cancel bump_epoch gate_unless
    step-Holds activates since =
        settle-Holds key time s (activate s.0) b λ a t' h. ground (arith, b)
    step-Holds (proposes fn_name bytes) since = propose-Holds fn_name bytes
    step-Holds (cancels id) since =
        settle-Holds key time s (cancel id s.0) b λ a t' h. ground (arith, b)
    step-Holds (gates admin fn_name args on) since = gate_keyed-Holds admin fn_name args on
    step-Holds (gates_unless admin true fn_name args on) since =
        settle-Holds key time s (gate_unless host env admin true fn_name args on s.0) b
          λ a t' h. ground (arith, b, lookup-insert on key env.timestamp s.0.brakes)
    step-Holds (gates_unless admin false fn_name args on) since =
        gate_keyed-Holds admin fn_name args (some on)
    step-Holds hands_over since =
        settle-Holds key time s (bump_epoch s.0) b λ a t' h. ground (arith, b)

  run-Holds :
      (calls : List (Env × Call)) (s : Timelock × Log)
      → Since time calls
      → Holds key time s.0
      → Holds key time (run host calls s).0
  unfolding run
  run-Holds [] s u b = b
  run-Holds ((env, c) ∷ cs) s (since, u) b =
      run-Holds cs (step host (env, c) s) u (step-Holds env s b c since)

-- A brake that the admin pulls on a key of an active timelock, after any history, voids every proposal
-- on the key that was made before, for good: whatever calls follow the brake, none of them earlier, a
-- gated call with the key that then passes, whoever makes it and whenever, passes on a proposal of
-- exactly that call made later than the brake, under the current epoch and at least the delay before.
pub brake_voids :
    (host : Host) (calls more : List (Env × Call)) (t t' t'' : Timelock) (log log'' : Log)
    (env later : Env) (admin anyone key : ℕ) (fn_name other_name : String)
    (args other_args : List Val) {r : Timelock}
    → run host calls (unset, []) ≡ (t, log)
    → 0 < env.timestamp
    → t.active ≡ true
    → gate_unless host env admin true fn_name args key t ≡ ok (tt, t')
    → run host more (t', log) ≡ (t'', log'')
    → Since env.timestamp more
    → gate_keyed host later anyone other_name other_args (some key) t'' ≡ ok (tt, r)
    → (proposed : ℕ) × (lookup (action_id host other_name other_args) log''
        ≡ some (proposed, t''.epoch))
      × (env.timestamp < proposed)
      × (proposed + delay ≤ later.timestamp)
brake_voids host calls more t t' t'' log log'' env later admin anyone key fn_name other_name args
      other_args history pos active h after since passed =
    let id = action_id host other_name other_args in
    let braked : t' ≡ record t { brakes = insert key env.timestamp t.brakes } =
      unfold gate_unless in ground arith in
    let logged : AreLogged (t, log) =
      rw history at (run-AreLogged host calls (unset, []) unset-AreLogged) in
    let logged_now : AreLogged (t'', log'') =
      rw after at
        (run-AreLogged host more (t', log) (rw (ap (λ (u : Timelock). u.etas) braked) logged)) in
    let held : Holds key env.timestamp t'' = rw after at (
      run-Holds host key env.timestamp more (t', log) since
        (ground (arith, braked, active, lookup-insert_self key env.timestamp t.brakes))) in
    let (at, ripe) =
      gate-Ripe host later anyone other_name other_args (some key) t'' held.0 passed in
    let known = logged_now id at t''.epoch ripe.proposed in
    (
      at - delay,
      known.1,
      ground (arith, pos, held.1, ripe.not_braked),
      omega (arith, known.0, ripe.not_early),
    )
