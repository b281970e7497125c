-- ===== src/Tests/Delays.antt =====
-- A timelocked call through its day of delay.
use proofbridge_contracts.Base.{
  ℕ, ◌+◌, ◌≤◌, ◌<◌, ◌≡◌, refl, true, some, none, ok, err, List, [], ◌∷◌, lookup, nat_eq, Env, Val,
  word, arith,
}
use proofbridge_contracts.Core.Faults.{
  timelock_not_proposed, timelock_too_early, timelock_cancelled_by_brake,
}
use proofbridge_contracts.Core.Timelock.{
  Timelock, unset, gate_keyed, gate_unless, bump_epoch, propose, cancel, delay, action_id, eta,
}
use proofbridge_contracts.Core.Timelock.History.{Call, proposes, cancels, step, run, Log}
use proofbridge_contracts.Core.Timelock.Delay.{gate_waited}
use proofbridge_contracts.Core.Timelock.Voids.{handover_voids, brake_voids}
use proofbridge_contracts.Tests.Platform.{host, at}

abbrev history : List (Env × Call)
history = (at 1_000, proposes "set_chain" 5) ∷ []

abbrev args : List Val
args = word 5 ∷ []

abbrev pending : Timelock
pending = record { active = true; epoch = 0; etas = (76, (87_400, 0)) ∷ []; brakes = [] }

abbrev logged : Log
logged = (76, (1_000, 0)) ∷ []

reached : run host history (unset, []) ≡ (pending, logged)
unfolding run step propose eta
reached = refl

-- Three hours past the delay the call passes, and its proposal is gone.
abbrev executed : Timelock
executed = record pending { etas = [] }

executes : gate_keyed host (at 98_200) 3 "set_chain" args none pending ≡ ok (tt, executed)
unfolding gate_keyed
executes = refl

gate_waited_example : lookup (action_id host "set_chain" args) executed.etas ≡ none
gate_waited_example =
    (gate_waited host history pending logged (at 98_200) 3 "set_chain" args none reached refl
      executes).5

too_early : gate_keyed host (at 87_399) 3 "set_chain" args none pending ≡ err timelock_too_early
unfolding gate_keyed
too_early = refl

abbrev handed_over : Timelock
handed_over = record pending { epoch = 1 }

handover_voids_example :
    gate_keyed host (at 98_200) 3 "set_chain" args none handed_over ≡ err timelock_not_proposed
unfolding bump_epoch
handover_voids_example =
    handover_voids host 1_000 history pending handed_over logged (at 98_200) 3 "set_chain" args none
      reached (omega arith) refl refl

abbrev braked : Timelock
braked = record pending { brakes = (4, 2_000) ∷ [] }

-- After the brake the pending proposal is cancelled, and the same call is proposed anew.
abbrev proposed_again : List (Env × Call)
proposed_again = (at 2_500, cancels 76) ∷ (at 3_000, proposes "set_chain" 5) ∷ []

abbrev pending_again : Timelock
pending_again = record braked { etas = (76, (89_400, 0)) ∷ [] }

abbrev logged_again : Log
logged_again = (76, (3_000, 0)) ∷ []

reached_again : run host proposed_again (braked, logged) ≡ (pending_again, logged_again)
unfolding run step propose cancel eta
reached_again = refl

executes_again :
    gate_keyed host (at 98_200) 8 "set_chain" args (some 4) pending_again
    ≡ ok (tt, record pending_again { etas = [] })
unfolding gate_keyed
executes_again = refl

-- The first proposal is refused, a day after it was made.
brake_refuses :
    gate_keyed host (at 98_200) 8 "set_chain" args (some 4) braked ≡ err timelock_cancelled_by_brake
unfolding gate_keyed
brake_refuses = refl

brake_voids_example :
    (proposed : ℕ) × (lookup (action_id host "set_chain" args) logged_again ≡ some (proposed, 0))
    × (2_000 < proposed)
    × (proposed + delay ≤ 98_200)
unfolding gate_unless
brake_voids_example =
    brake_voids host history proposed_again pending braked pending_again logged logged_again
      (at 2_000) (at 98_200) 3 8 4 "set_chain" "set_chain" args args reached (omega arith) refl refl
      reached_again (omega arith, (omega arith, tt)) executes_again
