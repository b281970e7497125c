-- ===== src/Escrow/Verdicts.antt =====
-- A filing through an escrow, from both sides.
use proofbridge_contracts.Base.{
  ℕ, ◌+◌, ◌≤◌, ◌<◌, ◌≡◌, refl, sym, ap, ◌∙◌, ◌⊎◌, inl, inr, true, none, some, lookup, insert, erase,
  lookup-insert_self, lookup-erase_self, nat_eq, pair_eq, Env, Result, ok, err, trap, arith,
  Option-cases,
}
use proofbridge_contracts.Core.Faults.{dispute_not_resolved}
use proofbridge_contracts.Core.Orders.{OrderRecord, DisputeRecord, RouteTiming, disputed}
use proofbridge_contracts.DisputeManager.State as dispute_state
use proofbridge_contracts.DisputeManager.State.{Tokens}
use proofbridge_contracts.DisputeManager.Disputes.{open_dispute, outcome_of}
use proofbridge_contracts.DisputeManager.Transfers.{filed_rec, open_dispute-Opened}
use proofbridge_contracts.Escrow.State.{State, get_order, get_order_status, set_order_status}
use proofbridge_contracts.Escrow.Termination.{order_timing, window_end}
use proofbridge_contracts.Escrow.Filing.{
  callee_env, put, is_disputable, file_dispute, dispute_outcome,
}

Result-cases :
    {E A : Type 0} (r : Result E A) → (r ≡ trap) ⊎ ((x : E) × (r ≡ err x)) ⊎ ((a : A) × (r ≡ ok a))
Result-cases (ok a) = inr (inr (a, refl))
Result-cases (err x) = inr (inl (x, refl))
Result-cases trap = inl refl

module _ {World : Type 0} (tokens : Tokens World) (env : Env)
    (escrow order chain filer evidence deadline token amount : ℕ) (s s' : State)
    (modules modules' : ℕ → dispute_state.State) (w w' : World) (bond : ℕ) where
  -- The module's half of a filing, and the escrow's.
  record Filed (manager : ℕ) (t : RouteTiming) (d : dispute_state.State) : Type 0 where
    wired : s.dispute_manager ≡ some manager
    clocks : order_timing order chain s ≡ ok (t, s)
    disputable : is_disputable (get_order_status order s) ≡ true
    in_window : env.timestamp < window_end order deadline t.buffer s
    module_filed :
        open_dispute tokens
          (callee_env env manager)
          escrow
          order
          chain
          filer
          evidence
          deadline
          t.buffer
          token
          amount
          (modules manager, w)
        ≡ ok (bond, (d, w'))
    modules_after : modules' ≡ put modules manager d
    escrow_after : s' ≡ record s {
      orders = insert order (record (get_order order s) { status = disputed }) s.orders;
      order_dispute_managers = insert order manager s.order_dispute_managers;
      claims = erase order s.claims;
    }

  file_dispute-Filed :
      file_dispute tokens env escrow order chain filer evidence deadline token amount
          (s, (modules, w))
        ≡ ok (bond, (s', (modules', w')))
      → (manager : ℕ) × (t : RouteTiming) × (d : dispute_state.State) × Filed manager t d
  file_dispute-Filed h = elim (Option-cases s.dispute_manager) [
    | inl unset ↦ absurd (unfold file_dispute order_timing in ground arith)
    | inr (manager, named) ↦
        elim (Option-cases (lookup (chain, (get_order order s).timing_version) s.timings)) [
          | inl untimed ↦ absurd (unfold file_dispute order_timing in ground arith)
          | inr (t, timed) ↦
              elim (Result-cases (
                open_dispute tokens (callee_env env manager) escrow order chain filer evidence
                  deadline t.buffer token amount (modules manager, w))) [
                    | inl trapped ↦ absurd (unfold file_dispute order_timing in ground arith)
                    | inr (inl (x, refused)) ↦
                        absurd (unfold file_dispute order_timing in ground arith)
                    | inr (inr ((b, (d, u)), done)) ↦ (
                      manager,
                      t,
                      d,
                      unfold file_dispute order_timing set_order_status in ground arith,
                    )
                  ]
        ]
  ]

-- A filing through an escrow succeeds only on an open or claimed leg before its window ends, by the
-- clocks that the order was locked under. It leaves the leg disputed, without a claim, and bound to
-- the module; the module's record names the escrow, holds the bond, and ends no earlier than the
-- order's deadline and buffer. On the storage that the filing leaves, before any later call such as a
-- ruling, which may move that deadline, the outcome cannot be read while the deadline is ahead.
pub file_dispute_opens :
    {World : Type 0} (tokens : Tokens World) (env later : Env)
    (escrow order chain filer evidence deadline token amount bond : ℕ) (s s' : State)
    (modules modules' : ℕ → dispute_state.State) (w w' : World)
    → file_dispute tokens env escrow order chain filer evidence deadline token amount
        (s, (modules, w))
      ≡ ok (bond, (s', (modules', w')))
    → (manager : ℕ) × (t : RouteTiming) × (d : DisputeRecord) × (order_timing order chain s
        ≡ ok (t, s))
      × (is_disputable (get_order_status order s) ≡ true)
      × (env.timestamp < window_end order deadline t.buffer s)
      × (get_order_status order s' ≡ disputed)
      × (lookup order s'.claims ≡ none)
      × (lookup order s'.order_dispute_managers ≡ some manager)
      × (lookup order (modules' manager).disputes ≡ some d)
      × (d.escrow ≡ escrow)
      × (d.bond ≡ bond)
      × (deadline + t.buffer ≤ d.challenge_deadline)
      × (later.timestamp < d.challenge_deadline
          → dispute_outcome later order (s', (modules', w')) ≡ err dispute_not_resolved)
file_dispute_opens tokens env later escrow order chain filer evidence deadline token amount bond s
      s' modules modules' w w' h =
    let (manager, t, after, f) =
      file_dispute-Filed tokens env escrow order chain filer evidence deadline token amount s s'
        modules modules' w w' bond h in
    let (p, bond_token, pulled, same, o) =
      open_dispute-Opened tokens (callee_env env manager) (modules manager) after w w' escrow order
        chain filer evidence deadline t.buffer token amount f.module_filed in
    let d =
      filed_rec (callee_env env manager) p escrow filer evidence deadline t.buffer bond_token
        pulled in
    let stored : lookup order after.disputes ≡ some d =
      ap (λ (x : dispute_state.State). lookup order x.disputes) o.written
      ∙ lookup-insert_self order d (modules manager).disputes in
    let there : modules' manager ≡ after =
      ap (λ (m : ℕ → dispute_state.State). m manager) f.modules_after ∙ ground arith in
    let kept : lookup order (modules' manager).disputes ≡ some d =
      ap (λ (x : dispute_state.State). lookup order x.disputes) there ∙ stored in
    let flipped : OrderRecord = record (get_order order s) { status = disputed } in
    let snapshot : lookup order s'.order_dispute_managers ≡ some manager =
      ground (arith, f.escrow_after, lookup-insert_self order manager s.order_dispute_managers) in
    (
      manager,
      t,
      d,
      f.clocks,
      f.disputable,
      f.in_window,
      ground (arith, f.escrow_after, lookup-insert_self order flipped s.orders),
      ground (arith, f.escrow_after, lookup-erase_self order s.claims),
      snapshot,
      kept,
      refl,
      sym same,
      ground arith,
      λ early. unfold dispute_outcome outcome_of in ground (arith, snapshot, kept, early),
    )
