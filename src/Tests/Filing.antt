-- ===== src/Tests/Filing.antt =====
-- A dispute is filed through an escrow whose module has address 99.
use proofbridge_contracts.Base.{
  Env, Bool, arith, ℕ, ◌+◌, ◌≤◌, ◌<◌, ◌≡◌, refl, true, none, some, ok, err, [], ◌∷◌, lookup, nat_eq,
  pair_eq,
}
use proofbridge_contracts.Core.Faults.{dispute_not_resolved}
use proofbridge_contracts.Core.Orders.{RouteTiming, DisputeRecord, disputed, mutual_refund}
use proofbridge_contracts.Core.Bonds.{bond_for}
use proofbridge_contracts.DisputeManager.State as dispute_state
use proofbridge_contracts.DisputeManager.State.{require_escrow}
use proofbridge_contracts.DisputeManager.Payouts.{pay}
use proofbridge_contracts.DisputeManager.Disputes.{open_dispute, bond_of, pull_bond}
use proofbridge_contracts.Escrow.State.{State, opened_rec, get_order_status, set_order_status}
use proofbridge_contracts.Escrow.Termination.{order_timing, window_end}
use proofbridge_contracts.Escrow.Filing.{Filing, put, is_disputable, file_dispute, dispute_outcome}
use proofbridge_contracts.Escrow.Closing.{close_dispute_by_evidence}
use proofbridge_contracts.Escrow.Evidence.{close_dispute_runs}
use proofbridge_contracts.Escrow.Verdicts.{file_dispute_opens}
use proofbridge_contracts.Tests.Platform.{at}
use proofbridge_contracts.Tests.Bank.{Table, bank}
use proofbridge_contracts.Tests.Disputes.{ready, purse, filed, bonded}
use proofbridge_contracts.Tests.Clocks.{locked}

abbrev before : State
before = record locked { dispute_manager = some 99 }

abbrev after : State
after = record before {
  orders = (8, record (opened_rec (at 1_000) 1 0 0 0) { status = disputed }) ∷ [];
  order_dispute_managers = (8, 99) ∷ [];
}

abbrev open_modules : ℕ → dispute_state.State
open_modules who = ready

abbrev held_modules : ℕ → dispute_state.State
held_modules = put open_modules 99 (record ready {
  disputes = (8, record filed { challenge_deadline = 11_800; buffer = 1_800 }) ∷ [];
})

filing_through :
    file_dispute bank (at 2_000) 7 8 5 20 9 10_000 60 400 (before, (open_modules, purse))
    ≡ ok (1_000, (after, (held_modules, bonded)))
unfolding file_dispute order_timing window_end set_order_status open_dispute require_escrow bond_of
    pull_bond pay bond_for
filing_through = refl

file_dispute_opens_example :
    (manager : ℕ) × (t : RouteTiming) × (d : DisputeRecord) × (order_timing 8 5 before
      ≡ ok (t, before))
    × (is_disputable (get_order_status 8 before) ≡ true)
    × (2_000 < window_end 8 10_000 t.buffer before)
    × (get_order_status 8 after ≡ disputed)
    × (lookup 8 after.claims ≡ none)
    × (lookup 8 after.order_dispute_managers ≡ some manager)
    × (lookup 8 (held_modules manager).disputes ≡ some d)
    × (d.escrow ≡ 7)
    × (d.bond ≡ 1_000)
    × (10_000 + t.buffer ≤ d.challenge_deadline)
    × (11_000 < d.challenge_deadline
        → dispute_outcome (at 11_000) 8 (after, (held_modules, bonded)) ≡ err dispute_not_resolved)
file_dispute_opens_example =
    file_dispute_opens bank (at 2_000) (at 11_000) 7 8 5 20 9 10_000 60 400 1_000 before after
      open_modules held_modules purse bonded filing_through

abbrev settling : Env
settling = record (at 12_000) { current_contract = 7 }

abbrev denies : ℕ → Filing Table Bool
denies maker q = ok (true, q)

close_dispute_runs_example :
    (close_dispute_by_evidence bank settling 7 8 mutual_refund none denies
        (after, (held_modules, bonded))
      ≡ ok (tt, (after, (held_modules, bonded))))
    × (modules : ℕ → dispute_state.State) × (w : Table) × (close_dispute_by_evidence bank settling 7
          8 mutual_refund
          (some 21)
          denies
          (after, (held_modules, bonded))
        ≡ ok (tt, (after, (modules, w))))
    × (lookup 8 (modules 99).disputes ≡ none)
close_dispute_runs_example =
    close_dispute_runs bank settling 8 99 50 21 mutual_refund denies true
      (record filed { challenge_deadline = 11_800; buffer = 1_800 }) after held_modules bonded refl
      refl refl refl (λ who. omega arith) (λ who. omega arith) refl
