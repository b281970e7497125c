-- ===== src/Core/Timelock/History.antt =====
-- Histories of a contract's timelock: each call with the ledger that it saw. A call that fails leaves
-- the storage as it was.
use proofbridge_contracts.Base.{
  ℕ, String, ◌≤◌, Bool, Option, List, [], ◌∷◌, Map, nat_eq, insert, Env, Host, Val, Result, ok,
}
use proofbridge_contracts.Core.Faults.{Fault}
use proofbridge_contracts.Core.Timelock.{
  Timelock, bump_epoch, activate, propose, cancel, gate_keyed, gate_unless,
}

pub data Call : Type 0 where
  activates : Call
  proposes : String → ℕ → Call
  cancels : ℕ → Call
  gates : ℕ → String → List Val → Option ℕ → Call
  gates_unless : ℕ → Bool → String → List Val → ℕ → Call
  hands_over : Call

-- The latest successful proposal of each id: its time and the admin epoch.
abbrev pub Log : Type 0
Log = Map ℕ (ℕ × ℕ)

abbrev pub settle {ℓ} : {A : Type ℓ} → Timelock × Log → Result Fault (A × Timelock) → Timelock × Log
settle (t, log) (ok (_, t')) = (t', log)
settle (t, log) _ = (t, log)

abbrev pub settle_proposal : Env → Timelock × Log → Result Fault (ℕ × Timelock) → Timelock × Log
settle_proposal env (t, log) (ok (id, t')) = (t', insert id (env.timestamp, t.epoch) log)
settle_proposal env (t, log) _ = (t, log)

unfoldable pub step : Host → Env × Call → Timelock × Log → Timelock × Log
step host (env, activates) s = settle s (activate s.0)
step host (env, proposes fn_name bytes) s =
    settle_proposal env s (propose host env fn_name bytes s.0)
step host (env, cancels id) s = settle s (cancel id s.0)
step host (env, gates admin fn_name args key) s =
    settle s (gate_keyed host env admin fn_name args key s.0)
step host (env, gates_unless admin brake fn_name args key) s =
    settle s (gate_unless host env admin brake fn_name args key s.0)
step host (env, hands_over) s = settle s (bump_epoch s.0)

unfoldable pub run : Host → List (Env × Call) → Timelock × Log → Timelock × Log
run host [] s = s
run host (c ∷ cs) s = run host cs (step host c s)

-- No call of the history is later than the time.
abbrev pub Until : ℕ → List (Env × Call) → Type 0
Until now [] = Unit {0}
Until now ((env, c) ∷ cs) = (env.timestamp ≤ now) × Until now cs

-- No call of the history is earlier than the time.
abbrev pub Since : ℕ → List (Env × Call) → Type 0
Since now [] = Unit {0}
Since now ((env, c) ∷ cs) = (now ≤ env.timestamp) × Since now cs
