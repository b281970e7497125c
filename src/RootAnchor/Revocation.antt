-- ===== src/RootAnchor/Revocation.antt =====
-- A revocation: the root's approvals start again under a new generation.
use proofbridge_contracts.Base.{
  ℕ, ◌+◌, ◌^◌, ◌<◌, ◌≡◌, subst, sym, inl, inr, false, some, if◌then◌else◌, lookup, insert,
  lookup-insert, pair_eq, triple_eq, nat_eq, pair_same_iff, Env, ok, arith, Bool-cases,
  Option-cases,
}
use proofbridge_contracts.RootAnchor.State.{State, AnchorRec, anchor_or_none}
use proofbridge_contracts.RootAnchor.Admin.{revoke_anchor}
use proofbridge_contracts.RootAnchor.Approvals.{Inv, IsCounted, approvers, none_stamped}
use proofbridge_contracts.RootAnchor.Histories.{settle}
use proofbridge_contracts.RootAnchor.Reachable.{settle-Inv}

-- The record that a revocation writes.
abbrev pub revoked_rec : AnchorRec → AnchorRec
revoked_rec rec = record rec {
  gen = rec.gen + 1;
  approvals = 0;
  anchored = false;
  anchored_at = 0;
  ledger_seq = 0;
}

-- What a successful revocation does to the record.
pub revoke-ok :
    (env : Env) (chain root : ℕ) (s s' : State)
    → revoke_anchor env chain root s ≡ ok (tt, s')
    → (rec : AnchorRec) × (lookup (chain, root) s.anchors ≡ some rec)
      × (rec.gen + 1 < 2 ^ 32)
      × (s' ≡ record s { anchors = insert (chain, root) (revoked_rec rec) s.anchors })
revoke-ok env chain root s s' h = elim (Option-cases (lookup (chain, root) s.anchors)) [
  | inl missing ↦ absurd (unfold revoke_anchor in ground arith)
  | inr (rec, found) ↦
      (rec, found, unfold revoke_anchor in ground arith, unfold revoke_anchor in ground arith)
]

module _ (chain root : ℕ) (s s' : State) (rec : AnchorRec) (inv : Inv s)
    (found : lookup (chain, root) s.anchors ≡ some rec) (small : rec.gen + 1 < 2 ^ 32)
    (done : s' ≡ record s { anchors = insert (chain, root) (revoked_rec rec) s.anchors }) where
  was : IsCounted s chain root rec
  was =
      let at : anchor_or_none chain root s ≡ rec = ground arith in rw at at (inv.counted chain root)

  -- Nobody has approved the new generation.
  pub none_approve : approvers s' chain root (revoked_rec rec) ≡ 0
  none_approve =
      none_stamped s' chain root rec (revoked_rec rec) (λ x v e. was.stamp_le x v (ground arith))
        (omega arith)

  record_at :
      (chain' root' : ℕ)
      → anchor_or_none chain' root' s' ≡ (
          if pair_eq.same (chain, root) (chain', root')
          then (revoked_rec rec)
          else anchor_or_none chain' root' s)
  record_at chain' root' =
      ground (arith, lookup-insert (chain, root) (chain', root') (revoked_rec rec) s.anchors)

  revoked-IsCounted : IsCounted s' chain root (revoked_rec rec)
  revoked-IsCounted = record {
    epoch_le = ground (arith, was.epoch_le);
    stamp_le = λ x v e. ground (arith, was.stamp_le x v);
    approvals_counted = λ e. sym none_approve;
  }

  other-IsCounted :
      (chain' root' : ℕ) (other : AnchorRec)
      → IsCounted s chain' root' other
      → IsCounted s' chain' root' other
  other-IsCounted chain' root' other k = record {
    epoch_le = ground (arith, k.epoch_le);
    stamp_le = λ x v e. k.stamp_le x v (ground arith);
    approvals_counted = λ e. ground (arith, k.approvals_counted (ground arith));
  }

  revoked-Inv : Inv s'
  revoked-Inv = record {
    distinct = ground (arith, inv.distinct);
    small_gen = λ chain' root'. ground (arith, record_at chain' root', inv.small_gen chain' root');
    counted = λ chain' root'. elim (Bool-cases (pair_eq.same (chain, root) (chain', root'))) [
      | inl here ↦
          let same : ◌≡◌ {A = ℕ × ℕ} (chain, root) (chain', root') = (pair_same_iff _ _).0 here in
          let at : anchor_or_none chain' root' s' ≡ (revoked_rec rec) =
            ground (arith, record_at chain' root') in
          rw at
            (subst (λ (k : ℕ × ℕ). IsCounted s' k.0 k.1 (revoked_rec rec)) same revoked-IsCounted)
      | inr there ↦
          let at : anchor_or_none chain' root' s' ≡ anchor_or_none chain' root' s =
            ground (arith, record_at chain' root') in
          rw at (
            other-IsCounted chain' root' (anchor_or_none chain' root' s) (inv.counted chain' root'))
    ];
  }

pub revoke_anchor-Inv :
    (env : Env) (s : State)
    → Inv s
    → (chain root : ℕ) → Inv (settle s (revoke_anchor env chain root s))
revoke_anchor-Inv env s inv chain root =
    settle-Inv s (revoke_anchor env chain root s)
      (λ a s' h.
        let (rec, found, small, done) = revoke-ok env chain root s s' h in
        revoked-Inv chain root s s' rec inv found small done)
      inv
