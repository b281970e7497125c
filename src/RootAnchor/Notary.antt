-- ===== src/RootAnchor/Notary.antt =====
-- stellar/contracts/root-anchor/src/lib.rs: `anchor`, in its steps, and the query.
pub mod Steps
use proofbridge_contracts.Base.{
  ℕ, ◌+◌, ◌-◌, ◌*◌, ◌^◌, Bool, true, false, not, ◌&&◌, ◌||◌, ◌==◌, nat_eq, pair_eq, triple_eq,
  Option, none, some, ltb, leb, if◌then◌else◌, contains, Map, lookup, insert, Env, Action, Result,
  ok, err, ◌>>=◌, ◌>>◌, pure, gets, modify, fail_if, require_auth, add_checked, from_result,
}
use proofbridge_contracts.RootAnchor.State.{
  State, Anchoring, AnchorRec, RootAnchorError, get_delay, get_latest_seq, anchor_or_none,
  not_initialized, contract_paused, not_signer, seq_not_monotonic, seq_mismatch,
}

-- Approvals from an earlier signer set do not carry over.
unfoldable pub carry_over : ℕ → AnchorRec → AnchorRec
carry_over set_epoch rec =
    if rec.set_epoch == set_epoch then rec else record rec { set_epoch = set_epoch; approvals = 0 }

-- The first approval sets the ledger sequence, and a later one must name it.
unfoldable pub name_seq : Bool → ℕ → ℕ → AnchorRec → Result RootAnchorError AnchorRec
name_seq monotonic latest seq rec =
    if rec.approvals == 0
    then (if monotonic && leb seq latest
        then err seq_not_monotonic
        else ok (record rec { ledger_seq = seq }))
    else (if seq == rec.ledger_seq then ok rec else err seq_mismatch)

-- `((rec.set_epoch as u64) << 32) | rec.gen as u64`, both below 2 ^ 32.
abbrev pub stamp_of : AnchorRec → ℕ
stamp_of rec = rec.set_epoch * 2 ^ 32 + rec.gen

abbrev pub is_stamped : Option ℕ → ℕ → Bool
is_stamped none stamp = false
is_stamped (some v) stamp = v == stamp

-- Count the signer once for each signer set and generation.
unfoldable pub approve : ℕ → ℕ → ℕ → AnchorRec → Anchoring AnchorRec
approve chain root signer rec = do
  found ← gets (λ s. lookup (chain, root, signer) s.stamps)
  elim (is_stamped found (stamp_of rec)) [
    | true ↦ pure rec
    | false ↦
        (modify (λ s. record s { stamps = insert (chain, root, signer) (stamp_of rec) s.stamps })
          >> (add_checked 32 rec.approvals 1 >>= λ n. pure (record rec { approvals = n })))
  ]

-- At the threshold the root anchors, and the chain's latest sequence follows.
unfoldable pub reach_threshold : Env → ℕ → ℕ → AnchorRec → Anchoring AnchorRec
reach_threshold env chain latest rec = do
  threshold ← gets (λ s. s.threshold)
  monotonic ← gets (λ s. s.monotonic)
  elim (leb threshold rec.approvals) [
    | false ↦ pure rec
    | true ↦
        (fail_if (monotonic && leb rec.ledger_seq latest) seq_not_monotonic
          >> (modify (λ s.
                if ltb latest rec.ledger_seq
                then record s { latest = insert chain rec.ledger_seq s.latest }
                else s)
              >> pure (record rec { anchored = true; anchored_at = env.timestamp })))
  ]

-- A root that is not anchored yet.
unfoldable pub anchor_pending : Env → ℕ → ℕ → ℕ → ℕ → AnchorRec → Anchoring (Unit {0})
anchor_pending env signer chain root seq rec = do
  set_epoch ← gets (λ s. s.set_epoch)
  latest ← gets (get_latest_seq chain)
  monotonic ← gets (λ s. s.monotonic)
  named ← from_result (name_seq monotonic latest seq (carry_over set_epoch rec))
  approved ← approve chain root signer named
  reached ← reach_threshold env chain latest approved
  modify (λ s. record s { anchors = insert (chain, root) reached s.anchors })

unfoldable pub anchor : Env → ℕ → ℕ → ℕ → ℕ → Anchoring (Unit {0})
anchor env signer chain root seq = do
  ready ← gets (λ s. s.initialized)
  fail_if (not ready) not_initialized
  paused ← gets (λ s. s.paused)
  fail_if paused contract_paused
  require_auth env signer
  signers ← gets (λ s. s.signers)
  fail_if (not (contains signers signer)) not_signer
  rec ← gets (anchor_or_none chain root)
  elim rec.anchored [ true ↦ pure tt | false ↦ anchor_pending env signer chain root seq rec ]

-- `is_anchored`, the one view that the escrows read.
unfoldable pub is_anchored : Env → State → ℕ → ℕ → Bool
is_anchored env s chain root = elim (lookup (chain, root) s.anchors) [
  | none ↦ false
  | some rec ↦
      rec.anchored
      && leb rec.anchored_at env.timestamp
      && leb (get_delay chain s) (env.timestamp - rec.anchored_at)
]
