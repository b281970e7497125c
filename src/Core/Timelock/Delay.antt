-- ===== src/Core/Timelock/Delay.antt =====
-- The delay over a whole history: what runs after activation was proposed a day before.
use proofbridge_contracts.Base.{
  ℕ, String, ◌+◌, ◌-◌, ◌≤◌, ◌<◌, ◌≡◌, refl, ap, true, false, nat_eq, Option, none, some, List, [],
  ◌∷◌, ◌⊎◌, inl, inr, lookup, insert, erase, lookup-insert, lookup-erase, lookup-erase_self, ◌∙◌,
  Env, Host, Val, Result, ok, err, trap, arith,
}
use proofbridge_contracts.Core.Timelock.{
  Timelock, unset, delay, grace, bump_epoch, activate, propose, cancel, gate_keyed, gate_unless,
  action_id,
}
use proofbridge_contracts.Core.Timelock.History.{
  Call, activates, proposes, cancels, gates, gates_unless, hands_over, Log, step, run, settle,
  settle_proposal,
}
use proofbridge_contracts.Core.Faults.{Fault}
use proofbridge_contracts.Core.Timelock.Gate.{braked_at, gate-Ripe, gate_keyed-ok, propose-ok}

-- What one call, made at `now`, can do to the proposals and the log.
pub data Effect (now : ℕ) (s s' : Timelock × Log) : Type 0 where
  keeps : s'.0.etas ≡ s.0.etas → s'.1 ≡ s.1 → s.0.epoch ≤ s'.0.epoch → Effect now s s'
  drops :
      (id : ℕ)
      → s'.0.etas ≡ erase id s.0.etas
      → s'.1 ≡ s.1
      → s'.0.epoch ≡ s.0.epoch
      → Effect now s s'
  adds :
      (id : ℕ)
      → s'.0.etas ≡ insert id (now + delay, s.0.epoch) s.0.etas
      → s'.1 ≡ insert id (now, s.0.epoch) s.1
      → s'.0.epoch ≡ s.0.epoch
      → Effect now s s'

settle-Effect {ℓ} :
    {A : Type ℓ} (now : ℕ) (s : Timelock × Log) (r : Result Fault (A × Timelock))
    → ((a : A) (t' : Timelock) → r ≡ ok (a, t') → Effect now s (t', s.1))
    → Effect now s (settle s r)
settle-Effect now s (ok (a, t')) h = h a t' refl
settle-Effect now s (err x) h = keeps refl refl (omega arith)
settle-Effect now s trap h = keeps refl refl (omega arith)

module _ (host : Host) (env : Env) (s : Timelock × Log) where
  gate_keyed-Effect :
      (admin : ℕ) (fn_name : String) (args : List Val) (key : Option ℕ)
      → Effect env.timestamp s (settle s (gate_keyed host env admin fn_name args key s.0))
  gate_keyed-Effect admin fn_name args key = settle-Effect env.timestamp s _ λ a t' h.
      elim (gate_keyed-ok host env admin fn_name args key s.0 h) [
        | inl same ↦ keeps (ap (λ (t : Timelock). t.etas) same) refl (ground arith)
        | inr used ↦ drops (action_id host fn_name args) (ground arith) refl (ground arith)
      ]

  propose-Effect :
      (fn_name : String) (bytes : ℕ)
      → Effect env.timestamp s (settle_proposal env s (propose host env fn_name bytes s.0))
  propose-Effect fn_name bytes = go (propose host env fn_name bytes s.0) refl
    where
      go :
          (r : Result Fault (ℕ × Timelock))
          → propose host env fn_name bytes s.0 ≡ r
          → Effect env.timestamp s (settle_proposal env s r)
      go (ok (id, t')) h =
          let done = propose-ok host env fn_name bytes s.0 h in adds id done.0 refl done.1
      go (err x) h = keeps refl refl (omega arith)
      go trap h = keeps refl refl (omega arith)

  pub step-Effect : (c : Call) → Effect env.timestamp s (step host (env, c) s)
  unfolding step activate cancel bump_epoch gate_unless
  step-Effect activates =
      settle-Effect env.timestamp s (activate s.0)
        λ a t' h. keeps (ground arith) refl (ground arith)
  step-Effect (proposes fn_name bytes) = propose-Effect fn_name bytes
  step-Effect (cancels id) =
      settle-Effect env.timestamp s (cancel id s.0)
        λ a t' h. drops id (ground arith) refl (ground arith)
  step-Effect (gates admin fn_name args key) = gate_keyed-Effect admin fn_name args key
  step-Effect (gates_unless admin true fn_name args key) =
      settle-Effect env.timestamp s (gate_unless host env admin true fn_name args key s.0)
        λ a t' h. keeps (ground arith) refl (ground arith)
  step-Effect (gates_unless admin false fn_name args key) =
      gate_keyed-Effect admin fn_name args (some key)
  step-Effect hands_over =
      settle-Effect env.timestamp s (bump_epoch s.0)
        λ a t' h. keeps (ground arith) refl (ground arith)

-- Every pending proposal is the latest of its id in the log: it ripens one delay after the logged
-- time, and carries the logged epoch.
abbrev pub AreLogged : Timelock × Log → Type 0
AreLogged s =
    (id at e : ℕ)
    → lookup id s.0.etas ≡ some (at, e)
    → (delay ≤ at) × (lookup id s.1 ≡ some (at - delay, e))

Effect-AreLogged : (now : ℕ) (s s' : Timelock × Log) → Effect now s s' → AreLogged s → AreLogged s'
Effect-AreLogged now s s' (keeps e l _) h id at ep found = ground (arith, h id at ep)
Effect-AreLogged now s s' (drops gone e l _) h id at ep found =
    ground (arith, h id at ep, lookup-erase gone id s.0.etas)
Effect-AreLogged now s s' (adds new e l _) h id at ep found = ground (
  arith,
  h id at ep,
  lookup-insert new id (now + delay, s.0.epoch) s.0.etas,
  lookup-insert new id (now, s.0.epoch) s.1,
)

pub unset-AreLogged : AreLogged (unset, [])
unset-AreLogged id at e h = absurd (cc h)

pub run-AreLogged :
    (host : Host) (calls : List (Env × Call)) (s : Timelock × Log)
    → AreLogged s
    → AreLogged (run host calls s)
unfolding run
run-AreLogged host [] s h = h
run-AreLogged host ((env, c) ∷ cs) s h =
    run-AreLogged host cs (step host (env, c) s)
      (Effect-AreLogged env.timestamp s (step host (env, c) s) (step-Effect host env s c) h)

-- After any history from an unset timelock, once it is active, a gated call passes only if exactly
-- that call was proposed under the current admin epoch: its latest proposal was made at least the
-- delay and at most the delay and the grace period before, later than any brake on the call's key,
-- and passing consumes it.
pub gate_waited :
    (host : Host) (calls : List (Env × Call)) (t : Timelock) (log : Log) (env : Env) (admin : ℕ)
    (fn_name : String) (args : List Val) (key : Option ℕ) {t' : Timelock}
    → run host calls (unset, []) ≡ (t, log)
    → t.active ≡ true
    → gate_keyed host env admin fn_name args key t ≡ ok (tt, t')
    → let id = action_id host fn_name args in
      (proposed : ℕ) × (lookup id log ≡ some (proposed, t.epoch))
      × (proposed + delay ≤ env.timestamp)
      × (env.timestamp ≤ proposed + delay + grace)
      × ((braked_at key t ≡ 0) ⊎ (braked_at key t < proposed))
      × (lookup id t'.etas ≡ none)
gate_waited host calls t log env admin fn_name args key {t'} history active h =
    let id = action_id host fn_name args in
    let (at, ripe) = gate-Ripe host env admin fn_name args key t active h in
    let logged : AreLogged (t, log) =
      rw history at (run-AreLogged host calls (unset, []) unset-AreLogged) in
    let known = logged id at t.epoch ripe.proposed in
    (
      at - delay,
      known.1,
      omega (arith, known.0, ripe.not_early),
      omega (arith, known.0, ripe.not_expired),
      ripe.not_braked,
      ap (λ (u : Timelock). lookup id u.etas) ripe.consumed ∙ lookup-erase_self id t.etas,
    )
