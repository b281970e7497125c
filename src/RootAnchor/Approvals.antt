-- ===== src/RootAnchor/Approvals.antt =====
-- The count of approvals is the number of signers of the current set that approved the root's current
-- generation, in every reachable storage.
use proofbridge_contracts.Base.{
  ℕ, ◌^◌, ◌≤◌, ◌<◌, ◌≡◌, ap, subst, sym, ◌∙◌, inl, inr, true, false, ◌==◌, Option, some,
  if◌then◌else◌, nat_beq, contains, has_duplicate, count_if, count_if-eq, count_if-new,
  count_if-none, lookup, insert, lookup-insert, pair_eq, triple_eq, nat_eq, pair_same_iff, Env, ok,
  arith, Bool-cases, Option-cases,
}
use proofbridge_contracts.RootAnchor.State.{State, AnchorRec, anchor_or_none}
use proofbridge_contracts.RootAnchor.Notary.{carry_over, stamp_of, is_stamped, anchor}
use proofbridge_contracts.RootAnchor.Notary.Steps.{stamped, Approved, anchor-ok}

-- How many signers of the current set carry the record's stamp.
abbrev pub approvers : State → ℕ → ℕ → AnchorRec → ℕ
approvers s chain root rec = count_if (stamped s chain root (stamp_of rec)) s.signers

-- One root's record against the stamps.
pub record IsCounted (s : State) (chain root : ℕ) (rec : AnchorRec) : Type 0 where
  pub epoch_le : rec.set_epoch ≤ s.set_epoch
  pub stamp_le : (signer v : ℕ) → lookup (chain, root, signer) s.stamps ≡ some v → v ≤ stamp_of rec
  pub approvals_counted : rec.set_epoch ≡ s.set_epoch → rec.approvals ≡ approvers s chain root rec

pub record Inv (s : State) : Type 0 where
  pub distinct : has_duplicate s.signers ≡ false
  pub small_gen : (chain root : ℕ) → (anchor_or_none chain root s).gen < 2 ^ 32
  pub counted : (chain root : ℕ) → IsCounted s chain root (anchor_or_none chain root s)

-- No stamp of an older signer set counts for the current one.
pub none_stamped :
    (s : State) (chain root : ℕ) (rec new : AnchorRec)
    → ((signer v : ℕ) → lookup (chain, root, signer) s.stamps ≡ some v → v ≤ stamp_of rec)
    → stamp_of rec < stamp_of new
    → approvers s chain root new ≡ 0
none_stamped s chain root rec new le lt =
    count_if-none (stamped s chain root (stamp_of new)) s.signers λ signer.
      elim (Option-cases (lookup (chain, root, signer) s.stamps)) [
        | inl missing ↦ ground arith
        | inr (v, found) ↦ ground (arith, le signer v found)
      ]

-- After the carry-over the count is right for the current set.
carried_counted :
    (s : State) (chain root : ℕ) (rec : AnchorRec)
    → rec.gen < 2 ^ 32
    → IsCounted s chain root rec
    → (carry_over s.set_epoch rec).approvals ≡ approvers s chain root (carry_over s.set_epoch rec)
unfolding carry_over
carried_counted s chain root rec small c = elim (Bool-cases (rec.set_epoch == s.set_epoch)) [
  | inl same ↦ ground (arith, c.approvals_counted (ground arith))
  | inr older ↦
      let new : AnchorRec = record rec { set_epoch = s.set_epoch; approvals = 0 } in
      ground (arith, none_stamped s chain root rec new c.stamp_le (ground (arith, c.epoch_le)))
]

-- The stamps after a new one, as a test on signers.
stamped_after :
    (s s' : State) (chain root signer stamp : ℕ)
    → s'.stamps ≡ insert (chain, root, signer) stamp s.stamps
    → (x : ℕ)
    → stamped s' chain root stamp x
      ≡ (if nat_beq x signer then true else stamped s chain root stamp x)
stamped_after s s' chain root signer stamp e x =
    ground (arith, lookup-insert (chain, root, signer) (chain, root, x) stamp s.stamps)

module _ (env : Env) (signer chain root seq : ℕ) (s s' : State) (rec rec' : AnchorRec)
    (distinct : has_duplicate s.signers ≡ false) (member : contains s.signers signer ≡ true)
    (small : rec.gen < 2 ^ 32) (c : IsCounted s chain root rec)
    (a : Approved env signer chain root seq s s' rec rec') where
  carried_count : (carry_over s.set_epoch rec).approvals ≡ approvers s chain root rec'
  carried_count =
      carried_counted s chain root rec small c
      ∙ unfold carry_over in ground (arith, a.gen_kept, a.epoch_current)

  approvals_after : rec'.approvals ≡ approvers s' chain root rec'
  approvals_after = elim (Bool-cases (stamped s chain root (stamp_of rec') signer)) [
    | inl old ↦
        let same : approvers s' chain root rec' ≡ approvers s chain root rec' =
          ground (arith, a.stamps_after, a.signers_kept) in
        ground (arith, same, a.counted, carried_count)
    | inr new ↦
        let stamps : s'.stamps ≡ insert (chain, root, signer) (stamp_of rec') s.stamps =
          ground (arith, a.stamps_after) in
        let more =
          count_if-new (stamped s chain root (stamp_of rec'))
            (stamped s' chain root (stamp_of rec')) signer s.signers distinct member new
            (stamped_after s s' chain root signer (stamp_of rec') stamps) in
        ground (arith, more, a.signers_kept, a.counted, carried_count)
  ]

  stamp_after-le : (x v : ℕ) → lookup (chain, root, x) s'.stamps ≡ some v → v ≤ stamp_of rec'
  stamp_after-le x v found = ground (
    arith,
    a.stamps_after,
    a.gen_kept,
    a.epoch_current,
    c.epoch_le,
    c.stamp_le x v,
    lookup-insert (chain, root, signer) (chain, root, x) (stamp_of rec') s.stamps,
  )

  approved-IsCounted : IsCounted s' chain root rec'
  approved-IsCounted = record {
    epoch_le = omega (arith, a.epoch_current, a.epoch_kept);
    stamp_le = stamp_after-le;
    approvals_counted = λ _. approvals_after;
  }

  -- Another root's stamps and count are as before.
  other_stamp :
      (chain' root' x : ℕ)
      → pair_eq.same (chain, root) (chain', root') ≡ false
      → lookup (chain', root', x) s'.stamps ≡ lookup (chain', root', x) s.stamps
  other_stamp chain' root' x ne = ground (
    arith,
    a.stamps_after,
    lookup-insert (chain, root, signer) (chain', root', x) (stamp_of rec') s.stamps,
  )

  other-IsCounted :
      (chain' root' : ℕ) (other : AnchorRec)
      → pair_eq.same (chain, root) (chain', root') ≡ false
      → IsCounted s chain' root' other
      → IsCounted s' chain' root' other
  other-IsCounted chain' root' other ne k = record {
    epoch_le = omega (arith, a.epoch_kept, k.epoch_le);
    stamp_le = λ x v found. k.stamp_le x v (sym (other_stamp chain' root' x ne) ∙ found);
    approvals_counted = λ e.
        let stamps =
          count_if-eq (stamped s' chain' root' (stamp_of other))
            (stamped s chain' root' (stamp_of other))
            (λ x.
              ap (λ (o : Option ℕ). is_stamped o (stamp_of other)) (other_stamp chain' root' x ne))
            s.signers in
        k.approvals_counted (omega (arith, e, a.epoch_kept))
        ∙ sym stamps
        ∙ ap (count_if (stamped s' chain' root' (stamp_of other))) (sym a.signers_kept);
  }

  record_at :
      (chain' root' : ℕ)
      → anchor_or_none chain' root' s' ≡ (
          if pair_eq.same (chain, root) (chain', root')
          then rec'
          else anchor_or_none chain' root' s)
  record_at chain' root' =
      ground (arith, a.recorded, lookup-insert (chain, root) (chain', root') rec' s.anchors)

  approved-Inv : Inv s → Inv s'
  approved-Inv inv = record {
    distinct = rw a.signers_kept distinct;
    small_gen = λ chain' root'.
        ground (arith, record_at chain' root', inv.small_gen chain' root', a.gen_kept, small);
    counted = λ chain' root'. elim (Bool-cases (pair_eq.same (chain, root) (chain', root'))) [
      | inl here ↦
          let same : ◌≡◌ {A = ℕ × ℕ} (chain, root) (chain', root') = (pair_same_iff _ _).0 here in
          let at : anchor_or_none chain' root' s' ≡ rec' = ground (arith, record_at chain' root') in
          rw at (subst (λ (k : ℕ × ℕ). IsCounted s' k.0 k.1 rec') same approved-IsCounted)
      | inr there ↦
          let at : anchor_or_none chain' root' s' ≡ anchor_or_none chain' root' s =
            ground (arith, record_at chain' root') in
          rw at (
            other-IsCounted chain' root' (anchor_or_none chain' root' s) there
              (inv.counted chain' root'))
    ];
  }

-- `anchor` keeps the invariant.
pub anchor-Inv :
    (env : Env) (signer chain root seq : ℕ) (s s' : State)
    → Inv s
    → anchor env signer chain root seq s ≡ ok (tt, s')
    → Inv s'
anchor-Inv env signer chain root seq s s' inv h =
    let (authorized, member, running, done) = anchor-ok env signer chain root seq s s' h in
    elim done [
      | inl (old, same) ↦ subst Inv (sym same) inv
      | inr (new, approval) ↦
          approved-Inv env signer chain root seq s s' (anchor_or_none chain root s) approval.0
            inv.distinct member (inv.small_gen chain root) (inv.counted chain root) approval.1 inv
    ]
