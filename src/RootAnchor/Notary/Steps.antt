-- ===== src/RootAnchor/Notary/Steps.antt =====
-- What each step of `anchor` does once it succeeds.
use proofbridge_contracts.Base.{
  ℕ, ◌+◌, ◌≤◌, ◌<◌, ◌≡◌, subst, ◌⊎◌, inl, inr, Bool, true, false, ltb, if◌then◌else◌, contains,
  lookup, insert, pair_eq, triple_eq, nat_eq, Env, ok, arith, Bool-cases, >>=-eq-ok, from_result,
  from_result-ok,
}
use proofbridge_contracts.RootAnchor.State.{State, AnchorRec, get_latest_seq, anchor_or_none}
use proofbridge_contracts.RootAnchor.Notary.{
  carry_over, name_seq, stamp_of, is_stamped, approve, reach_threshold, anchor_pending, anchor,
}

name_seq-ok :
    (monotonic : Bool) (latest seq : ℕ) (rec rec' : AnchorRec)
    → name_seq monotonic latest seq rec ≡ ok rec'
    → rec' ≡ record rec { ledger_seq = seq }
unfolding name_seq
name_seq-ok monotonic latest seq rec rec' h = ground arith

-- Whether the signer's stamp is the record's.
abbrev pub stamped : State → ℕ → ℕ → ℕ → ℕ → Bool
stamped s chain root stamp signer = is_stamped (lookup (chain, root, signer) s.stamps) stamp

approve-ok :
    (chain root signer : ℕ) (rec rec' : AnchorRec) (s s' : State)
    → approve chain root signer rec s ≡ ok (rec', s')
    → ((stamped s chain root (stamp_of rec) signer ≡ true) × (rec' ≡ rec) × (s' ≡ s))
      ⊎ ((stamped s chain root (stamp_of rec) signer ≡ false)
          × (rec' ≡ record rec { approvals = rec.approvals + 1 })
          × (s' ≡ record s { stamps = insert (chain, root, signer) (stamp_of rec) s.stamps }))
unfolding approve
approve-ok chain root signer rec rec' s s' h = ground arith

reach-ok :
    (env : Env) (chain latest : ℕ) (rec rec' : AnchorRec) (s s' : State)
    → reach_threshold env chain latest rec s ≡ ok (rec', s')
    → ((rec.approvals < s.threshold) × (rec' ≡ rec) × (s' ≡ s))
      ⊎ ((s.threshold ≤ rec.approvals)
          × (rec' ≡ record rec { anchored = true; anchored_at = env.timestamp })
          × (s' ≡ (
              if ltb latest rec.ledger_seq
              then record s { latest = insert chain rec.ledger_seq s.latest }
              else s))
          × ((s.monotonic ≡ true) → latest < rec.ledger_seq))
unfolding reach_threshold
reach-ok env chain latest rec rec' s s' h = ground arith

-- What `anchor` has checked and done when it counts an approval of a root that is not anchored: `rec`
-- is the record before, `rec'` the one that it writes.
pub record Approved (env : Env) (signer chain root seq : ℕ) (s s' : State) (rec rec' : AnchorRec)
    : Type 0 where
  pub gen_kept : rec'.gen ≡ rec.gen
  pub epoch_current : rec'.set_epoch ≡ s.set_epoch
  pub seq_named : rec'.ledger_seq ≡ seq
  pub counted :
      rec'.approvals
      ≡ (carry_over s.set_epoch rec).approvals
        + (if stamped s chain root (stamp_of rec') signer then 0 else 1)
  pub stamps_after : s'.stamps ≡ (
      if stamped s chain root (stamp_of rec') signer
      then s.stamps
      else insert (chain, root, signer) (stamp_of rec') s.stamps)
  pub recorded : s'.anchors ≡ insert (chain, root) rec' s.anchors
  pub signers_kept : s'.signers ≡ s.signers
  pub epoch_kept : s'.set_epoch ≡ s.set_epoch
  pub threshold_kept : s'.threshold ≡ s.threshold
  pub monotonic_kept : s'.monotonic ≡ s.monotonic
  pub outcome :
      ((rec'.anchored ≡ false) × (rec'.approvals < s.threshold) × (s'.latest ≡ s.latest))
      ⊎ ((rec'.anchored ≡ true)
          × (s.threshold ≤ rec'.approvals)
          × (rec'.anchored_at ≡ env.timestamp)
          × ((s.monotonic ≡ true) → get_latest_seq chain s < seq)
          × (s'.latest
              ≡ (if ltb (get_latest_seq chain s) seq then insert chain seq s.latest else s.latest)))

module _ (env : Env) (signer chain root seq : ℕ) (s : State) (rec : AnchorRec)
    (pending : rec.anchored ≡ false) where
  step-Approved :
      (named approved reached : AnchorRec) (s1 s2 : State)
      → named ≡ record (carry_over s.set_epoch rec) { ledger_seq = seq }
      → approve chain root signer named s ≡ ok (approved, s1)
      → reach_threshold env chain (get_latest_seq chain s) approved s1 ≡ ok (reached, s2)
      → Approved env signer chain root seq s
          (record s2 { anchors = insert (chain, root) reached s2.anchors })
          rec
          reached
  unfolding carry_over
  step-Approved named approved reached s1 s2 n a r = ground (
    arith,
    approve-ok chain root signer named approved s s1 a,
    reach-ok env chain (get_latest_seq chain s) approved reached s1 s2 r,
  )

  anchor_pending-ok :
      (s' : State)
      → anchor_pending env signer chain root seq rec s ≡ ok (tt, s')
      → (rec' : AnchorRec) × Approved env signer chain root seq s s' rec rec'
  unfolding anchor_pending
  anchor_pending-ok s' h =
      let named_r =
        name_seq s.monotonic (get_latest_seq chain s) seq (carry_over s.set_epoch rec) in
      let (named, s0, n, h1) = >>=-eq-ok (from_result named_r) _ s h in
      let (nr, s0e) = from_result-ok named_r s n in
      let (approved, s1, a, h2) = >>=-eq-ok (approve chain root signer named) _ s0 h1 in
      let (reached, s2, r, h3) =
        >>=-eq-ok (reach_threshold env chain (get_latest_seq chain s) approved) _ s1 h2 in
      let named_seq =
        name_seq-ok s.monotonic (get_latest_seq chain s) seq (carry_over s.set_epoch rec) named
          nr in
      let at_s =
        subst (λ (u : State). approve chain root signer named u ≡ ok (approved, s1)) s0e a in
      let written : record s2 { anchors = insert (chain, root) reached s2.anchors } ≡ s' =
        ground arith in
      (
        reached,
        subst (λ (u : State). Approved env signer chain root seq s u rec reached) written
            (step-Approved named approved reached s1 s2 named_seq at_s r),
      )

-- A successful call of `anchor` was authorized by its signer, who is in the signer set; it changes
-- nothing where the root is anchored, and else counts an approval.
pub anchor-ok :
    (env : Env) (signer chain root seq : ℕ) (s s' : State)
    → anchor env signer chain root seq s ≡ ok (tt, s')
    → (env.authorized signer ≡ true)
      × (contains s.signers signer ≡ true)
      × (s.paused ≡ false)
      × (((((anchor_or_none chain root s).anchored ≡ true)) × (s' ≡ s))
          ⊎ (((anchor_or_none chain root s).anchored ≡ false)
              × ((rec' : AnchorRec) × Approved env signer chain root seq s s'
                    (anchor_or_none chain root s)
                    rec')))
anchor-ok env signer chain root seq s s' h =
    let checks : (env.authorized signer ≡ true)
        × (contains s.signers signer ≡ true)
        × (s.paused ≡ false) =
      unfold anchor in ground arith in
    (
      checks.0,
      checks.1,
      checks.2,
      elim (Bool-cases (anchor_or_none chain root s).anchored) [
        | inl old ↦ inl (old, unfold anchor in ground arith)
        | inr new ↦ inr (
          new,
          anchor_pending-ok env signer chain root seq s (anchor_or_none chain root s) new s'
              (unfold anchor in ground arith),
        )
      ],
    )
