-- ===== src/RootAnchor/Quorum.antt =====
-- What an anchored root rests on, after any history of calls.
use proofbridge_contracts.Base.{
  ℕ, ◌+◌, ◌≤◌, ◌<◌, ◌≡◌, ◌≢◌, refl, subst, inl, inr, true, false, List, [], ◌∷◌, contains,
  has_duplicate, lookup-insert_self, ◌↔◌, insert, lookup-insert, pair_eq, triple_eq, nat_eq, Env,
  Host, ok, arith,
}
use proofbridge_contracts.RootAnchor.State.{State, AnchorRec, anchor_or_none, fresh}
use proofbridge_contracts.RootAnchor.Admin.{revoke_anchor}
use proofbridge_contracts.RootAnchor.Notary.{anchor}
use proofbridge_contracts.RootAnchor.Approvals.{Inv, approvers, anchor-Inv}
use proofbridge_contracts.RootAnchor.Histories.{
  Call, initializes, pauses, unpauses, accepts_admin, activates, transfers_admin, proposes, cancels,
  sets_signers, revokes, resets_latest, sets_delay, sets_monotonic, anchors, step, run,
}
use proofbridge_contracts.RootAnchor.State.{get_delay, get_latest_seq}
use proofbridge_contracts.RootAnchor.Notary.{is_anchored}
use proofbridge_contracts.RootAnchor.Notary.Steps.{Approved, anchor-ok}
use proofbridge_contracts.RootAnchor.Reachable.{
  settle-Inv, pause-Inv, unpause-Inv, transfer_admin-Inv, accept_admin-Inv, activate_timelock-Inv,
  propose_action-Inv, cancel_action-Inv, reset_latest_seq-Inv, set_anchor_delay-Inv,
  set_monotonic-Inv, set_signers-Inv, initialize-Inv,
}
use proofbridge_contracts.RootAnchor.Revocation.{
  revoked_rec, revoke-ok, none_approve, revoke_anchor-Inv,
}

step-Inv : (host : Host) (env : Env) (c : Call) (s : State) → Inv s → Inv (step host env c s)
unfolding step
step-Inv host env (initializes admin signers threshold) s inv =
    initialize-Inv host env s inv admin signers threshold
step-Inv host env pauses s inv = pause-Inv host env s inv
step-Inv host env unpauses s inv = unpause-Inv host env s inv
step-Inv host env accepts_admin s inv = accept_admin-Inv host env s inv
step-Inv host env activates s inv = activate_timelock-Inv host env s inv
step-Inv host env (transfers_admin to) s inv = transfer_admin-Inv host env s inv to
step-Inv host env (proposes fn_name args) s inv = propose_action-Inv host env s inv fn_name args
step-Inv host env (cancels id) s inv = cancel_action-Inv host env s inv id
step-Inv host env (sets_signers signers threshold) s inv =
    set_signers-Inv host env s inv signers threshold
step-Inv host env (revokes chain root) s inv = revoke_anchor-Inv env s inv chain root
step-Inv host env (resets_latest chain seq) s inv = reset_latest_seq-Inv host env s inv chain seq
step-Inv host env (sets_delay chain delay) s inv = set_anchor_delay-Inv host env s inv chain delay
step-Inv host env (sets_monotonic monotonic) s inv = set_monotonic-Inv host env s inv monotonic
step-Inv host env (anchors signer chain root seq) s inv =
    settle-Inv s (anchor env signer chain root seq s)
      (λ a s' h. anchor-Inv env signer chain root seq s s' inv h) inv

fresh-Inv : Inv fresh
fresh-Inv = record {
  distinct = refl;
  small_gen = λ chain root. omega arith;
  counted = λ chain root. record {
    epoch_le = omega arith;
    stamp_le = λ x v e. absurd (cc e);
    approvals_counted = λ e. refl;
  };
}

run-Inv : (host : Host) (calls : List (Env × Call)) (s : State) → Inv s → Inv (run host calls s)
unfolding run
run-Inv host [] s inv = inv
run-Inv host ((env, c) ∷ cs) s inv = run-Inv host cs (step host env c s) (step-Inv host env c s inv)

reached-Inv :
    (host : Host) (calls : List (Env × Call)) (s : State) → run host calls fresh ≡ s → Inv s
reached-Inv host calls s e = subst Inv e (run-Inv host calls fresh fresh-Inv)

-- After any history from deployment, a call of `anchor` that makes a root anchored leaves at least
-- the threshold of signers of the current set, each listed once, with their approval of this root
-- under the current set and the root's current generation, and the caller is one of them.
pub anchored_quorum :
    (host : Host) (calls : List (Env × Call)) (env : Env) (signer chain root seq : ℕ) (s s' : State)
    → run host calls fresh ≡ s
    → anchor env signer chain root seq s ≡ ok (tt, s')
    → (anchor_or_none chain root s).anchored ≡ false
    → (anchor_or_none chain root s').anchored ≡ true
    → (s.threshold ≤ approvers s' chain root (anchor_or_none chain root s'))
      × (has_duplicate s'.signers ≡ false)
      × ((anchor_or_none chain root s').set_epoch ≡ s'.set_epoch)
      × (contains s'.signers signer ≡ true)
      × (env.authorized signer ≡ true)
anchored_quorum host calls env signer chain root seq s s' history h before after =
    let inv' = anchor-Inv env signer chain root seq s s' (reached-Inv host calls s history) h in
    let counted = inv'.counted chain root in
    let (authorized, member, running, done) = anchor-ok env signer chain root seq s s' h in
    elim done [
      | inl old ↦ absurd (ground arith)
      | inr (new, approval) ↦
          let a = approval.1 in
          let at : anchor_or_none chain root s' ≡ approval.0 =
            ground (arith, a.recorded, lookup-insert_self (chain, root) approval.0 s.anchors) in
          (
            ground (arith, a.outcome, counted.approvals_counted, a.epoch_current, a.epoch_kept),
            inv'.distinct,
            ground (arith, a.epoch_current, a.epoch_kept),
            ground (arith, a.signers_kept),
            authorized,
          )
    ]

pub revoke_resets :
    (host : Host) (calls : List (Env × Call)) (env later : Env) (chain root : ℕ) (s s' : State)
    → run host calls fresh ≡ s
    → revoke_anchor env chain root s ≡ ok (tt, s')
    → (is_anchored later s' chain root ≡ false)
      × ((anchor_or_none chain root s').approvals ≡ 0)
      × (approvers s' chain root (anchor_or_none chain root s') ≡ 0)
      × ((chain' root' : ℕ)
          → pair_eq.same (chain, root) (chain', root') ≡ false
          → is_anchored later s' chain' root' ≡ is_anchored later s chain' root')
unfolding is_anchored
revoke_resets host calls env later chain root s s' history h =
    let (rec, found, small, done) = revoke-ok env chain root s s' h in
    let at : anchor_or_none chain root s' ≡ revoked_rec rec =
      ground (arith, lookup-insert_self (chain, root) (revoked_rec rec) s.anchors) in
    (
      ground (arith, lookup-insert_self (chain, root) (revoked_rec rec) s.anchors),
      rw at refl,
      rw at (none_approve chain root s s' rec (reached-Inv host calls s history) found small done),
      λ chain' root' other.
          ground (arith, lookup-insert (chain, root) (chain', root') (revoked_rec rec) s.anchors),
    )

-- A root is usable exactly where it is anchored and the route's current delay has passed since.
pub is_anchored_iff :
    (env : Env) (s : State) (chain root : ℕ)
    → (is_anchored env s chain root ≡ true) ↔ (
        ((anchor_or_none chain root s).anchored ≡ true)
        × ((anchor_or_none chain root s).anchored_at + get_delay chain s ≤ env.timestamp))
unfolding is_anchored
is_anchored_iff env s chain root = (λ h. ground arith, λ h. ground arith)

rose :
    (env : Env) (signer chain root seq other : ℕ) (s s' : State) (rec rec' : AnchorRec)
    → Approved env signer chain root seq s s' rec rec'
    → s.monotonic ≡ true
    → rec'.anchored ≡ true
    → anchor_or_none chain root s' ≡ rec'
    → (get_latest_seq chain s < get_latest_seq chain s')
      × (get_latest_seq chain s' ≡ (anchor_or_none chain root s').ledger_seq)
      × (other ≢ chain → get_latest_seq other s' ≡ get_latest_seq other s)
rose env signer chain root seq other s s' rec rec' a mono reached at =
    let latest : s'.latest ≡ insert chain seq s.latest = ground (arith, a.outcome) in
    let self = lookup-insert_self chain seq s.latest in
    (
      ground (arith, a.outcome, latest, self),
      ground (arith, latest, self, at, a.seq_named),
      λ ne. ground (arith, latest, lookup-insert chain other seq s.latest, ne),
    )

pub anchored_seq_rises :
    (env : Env) (signer chain root seq other : ℕ) (s s' : State)
    → s.monotonic ≡ true
    → anchor env signer chain root seq s ≡ ok (tt, s')
    → (anchor_or_none chain root s).anchored ≡ false
    → (anchor_or_none chain root s').anchored ≡ true
    → (get_latest_seq chain s < get_latest_seq chain s')
      × (get_latest_seq chain s' ≡ (anchor_or_none chain root s').ledger_seq)
      × (other ≢ chain → get_latest_seq other s' ≡ get_latest_seq other s)
anchored_seq_rises env signer chain root seq other s s' mono h before after =
    let (authorized, member, running, done) = anchor-ok env signer chain root seq s s' h in
    elim done [
      | inl (old, same) ↦ absurd (ground arith)
      | inr (new, approval) ↦
          let a = approval.1 in
          let at : anchor_or_none chain root s' ≡ approval.0 =
            ground (arith, a.recorded, lookup-insert_self (chain, root) approval.0 s.anchors) in
          rose env signer chain root seq other s s' (anchor_or_none chain root s) approval.0 a mono
            (ground arith) at
    ]
