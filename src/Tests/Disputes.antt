-- ===== src/Tests/Disputes.antt =====
-- A dispute is filed, answered, ruled and closed at concrete inputs.
use proofbridge_contracts.Base.{
  ℕ, ◌+◌, ◌^◌, ◌≤◌, ◌<◌, ◌≡◌, ◌≢◌, refl, true, false, leb, none, some, ok, [], ◌∷◌, lookup, nat_eq,
  pair_eq, arith,
}
use proofbridge_contracts.Core.Orders.{
  DisputeParams, DisputeRecord, undecided, trade_proceeds, maker_forfeit, mutual_refund,
}
use proofbridge_contracts.Core.Bonds.{validate, bond_for}
use proofbridge_contracts.Core.Timelock as timelock
use proofbridge_contracts.DisputeManager.State.{State, is_escrow, fresh, require_escrow}
use proofbridge_contracts.DisputeManager.Admin.{
  initialize, gate, params_error, set_escrow, set_dispute_params, set_arbiter,
}
use proofbridge_contracts.DisputeManager.Payouts.{pay}
use proofbridge_contracts.DisputeManager.Disputes.{
  quote, max, bond_of, pull_bond, open_dispute, settle_bond, record_response, resolve_dispute,
  undecided_yet, arbiter_may_rule, outcome_of,
}
use proofbridge_contracts.DisputeManager.Histories.{
  initializes, sets_escrow, sets_params, sets_arbiter, opens, settles, step, Reachable, deployed,
  later, calls,
}
use proofbridge_contracts.DisputeManager.Solvency.{owed}
use proofbridge_contracts.DisputeManager.Backing.{reachable_solvent}
use proofbridge_contracts.DisputeManager.Soundness.{Sound, reachable-Sound}
use proofbridge_contracts.DisputeManager.Standing.{Stands, dispute-Stands}
use proofbridge_contracts.DisputeManager.Lifecycle.{
  open_dispute_exact, settle_bond_total, resolve_dispute_opens, one_answer,
}
use proofbridge_contracts.Tests.Platform.{host, at}
use proofbridge_contracts.Tests.Bank.{Table, bank, bank-IsLawful}

abbrev pub purse : Table
purse = ((50, 20), 5_000) ∷ []

-- Escrow 7 and chain 5 are set up, bonds are in token 50, and 3 is the arbiter.
abbrev pub ready : State
ready = record fresh {
  admin = some 1;
  w_native = some 50;
  escrows = (7, true) ∷ [];
  params = (5, record { challenge_period = 3_600; bond_floor = 1_000 }) ∷ [];
  arbiter = some 3;
}

set_up : Reachable host bank 99 (ready, purse)
unfolding step initialize set_escrow set_dispute_params set_arbiter gate params_error validate
    timelock.gate timelock.gate_unless timelock.gate_keyed
set_up =
    later
      (later
        (later (later (deployed purse) (calls (at 10) (initializes 1 50) (fresh, purse) refl tt))
          (calls (at 11) (sets_escrow 7 true) _ refl tt))
        (calls (at 12) (sets_params 5 (record { challenge_period = 3_600; bond_floor = 1_000 })) _
          refl tt))
      (calls (at 13) (sets_arbiter 3) _ refl tt)

abbrev pub filed : DisputeRecord
filed = record {
  initiator = 20;
  bond = 1_000;
  challenge_deadline = 10_600;
  initiator_evidence = 9;
  responder_evidence = 0;
  ruling = undecided;
  escrow = 7;
  order_deadline = 10_000;
  buffer = 600;
  bond_token = 50;
}

abbrev disputed : State
disputed = record ready { disputes = (8, filed) ∷ [] }

abbrev pub bonded : Table
bonded = ((50, 20), 4_000) ∷ ((50, 99), 1_000) ∷ []

filing :
    open_dispute bank (at 100) 7 8 5 20 9 10_000 600 60 400 (ready, purse)
    ≡ ok (1_000, (disputed, bonded))
unfolding open_dispute require_escrow bond_of pull_bond pay bond_for
filing = refl

reached : Reachable host bank 99 (disputed, bonded)
unfolding step open_dispute require_escrow bond_of pull_bond pay bond_for
reached = later set_up (calls (at 100) (opens 7 8 5 20 9 10_000 600 60 400) _ refl (omega arith))

reachable_solvent_example : owed 50 disputed ≤ 1_000
reachable_solvent_example =
    reachable_solvent host bank 99 50 (disputed, bonded) (bank-IsLawful 99) reached

reachable-Sound_example : Sound disputed
reachable-Sound_example = reachable-Sound host bank 99 (disputed, bonded) reached

open_dispute_exact_example :
    (d : DisputeRecord) × (p : DisputeParams) × (lookup 8 disputed.disputes ≡ some d)
    × (quote 5 60 400 ready ≡ ok ((d.bond_token, 1_000), ready))
    × (lookup 5 ready.params ≡ some p)
    × (1_000 < 2 ^ 127)
    × (d.bond ≡ 1_000)
    × (d.initiator ≡ 20)
    × (d.escrow ≡ 7)
    × (d.initiator_evidence ≡ 9)
    × (d.order_deadline ≡ 10_000)
    × (d.buffer ≡ 600)
    × (d.ruling ≡ undecided)
    × (d.responder_evidence ≡ 0)
    × (d.challenge_deadline ≡ max (100 + p.challenge_period) (10_000 + 600))
    × (100 + p.challenge_period ≤ d.challenge_deadline)
    × (10_000 + 600 ≤ d.challenge_deadline)
    × (bank.balance bonded d.bond_token 99 ≡ bank.balance purse d.bond_token 99 + 1_000)
    × (true ≡ true)
    × (true ≡ true)
    × (is_escrow 7 ready ≡ true)
    × (lookup 8 ready.disputes ≡ none)
open_dispute_exact_example =
    open_dispute_exact host bank (at 100) 7 8 5 20 9 10_000 600 60 400 ready disputed purse bonded
      1_000 set_up (omega arith) filing

abbrev answered : State
answered = record ready { disputes = (8, record filed { responder_evidence = 77 }) ∷ [] }

answering : record_response (at 200) 7 8 21 77 disputed ≡ ok (tt, answered)
unfolding record_response undecided_yet
answering = refl

one_answer_example : record_response (at 300) 7 8 22 78 answered ≢ ok (tt, answered)
one_answer_example =
    one_answer (at 200) (at 300) 7 8 21 77 7 22 78 disputed answered (tt, answered) answering

dispute-Stands_example :
    Stands
      (at 300)
      8
      filed
      (step host bank (at 300) (settles 7 8 mutual_refund true false) (disputed, bonded)).0
dispute-Stands_example =
    dispute-Stands host bank (at 300) (settles 7 8 mutual_refund true false) disputed bonded 8 filed
      tt refl

settle_bond_total_example :
    (s' : State) × (w' : Table) × (settle_bond bank
        (at 20_000)
        7
        8
        maker_forfeit
        false
        false
        (disputed, [])
      ≡ ok (tt, (s', w')))
    × (lookup 8 s'.disputes ≡ none)
settle_bond_total_example =
    settle_bond_total bank (at 20_000) 7 8 50 maker_forfeit false false filed disputed [] refl refl
      refl refl (λ who. omega arith) (λ who. omega arith)

abbrev ruled_state : State
ruled_state = record ready {
  disputes = (8, record filed { ruling = maker_forfeit; challenge_deadline = 10_600 }) ∷ [];
}

ruling : resolve_dispute (at 500) 8 maker_forfeit disputed ≡ ok (tt, ruled_state)
unfolding resolve_dispute arbiter_may_rule
ruling = refl

resolve_dispute_opens_example :
    (d : DisputeRecord) × (arbiter : ℕ) × (lookup 8 disputed.disputes ≡ some d)
    × (some 3 ≡ some arbiter)
    × (true ≡ true)
    × (500 < d.challenge_deadline)
    × (maker_forfeit ≢ trade_proceeds)
    × (maker_forfeit ≢ undecided)
    × (outcome_of (at 10_600) 8 ruled_state
        ≡ (maker_forfeit, leb (max 500 d.order_deadline + d.buffer) 10_600, some d.initiator))
resolve_dispute_opens_example =
    resolve_dispute_opens (at 500) (at 10_600) 8 maker_forfeit disputed ruled_state ruling
