-- ===== src/RootAnchor/Reachable.antt =====
-- Every entry point keeps the count of approvals right.
use proofbridge_contracts.Base.{
  ℕ, String, ◌+◌, ◌≡◌, refl, Bool, false, List, has_duplicate, pair_eq, triple_eq, nat_eq, Env,
  Host, Result, ok, err, trap, arith,
}
use proofbridge_contracts.RootAnchor.State.{State, RootAnchorError, anchor_or_none}
use proofbridge_contracts.RootAnchor.Admin.{
  initialize, pause, unpause, transfer_admin, accept_admin, activate_timelock, propose_action,
  cancel_action, set_signers, reset_latest_seq, set_anchor_delay, set_monotonic,
}
use proofbridge_contracts.RootAnchor.Approvals.{Inv}
use proofbridge_contracts.RootAnchor.Histories.{settle}

-- What the invariant reads is left alone.
record Keeps (s s' : State) : Type 0 where
  signers_kept : s'.signers ≡ s.signers
  epoch_kept : s'.set_epoch ≡ s.set_epoch
  anchors_kept : s'.anchors ≡ s.anchors
  stamps_kept : s'.stamps ≡ s.stamps

Keeps-Inv : (s s' : State) → Keeps s s' → Inv s → Inv s'
Keeps-Inv s s' k inv = record {
  distinct = rw k.signers_kept inv.distinct;
  small_gen = λ chain root. ground (arith, inv.small_gen chain root, k.anchors_kept);
  counted = λ chain root.
      let rec_kept : anchor_or_none chain root s' ≡ anchor_or_none chain root s =
        ground (arith, k.anchors_kept) in
      let c = inv.counted chain root in
      rw rec_kept (record {
        epoch_le = omega (arith, k.epoch_kept, c.epoch_le);
        stamp_le = λ x v found. c.stamp_le x v (ground (arith, k.stamps_kept));
        approvals_counted = λ e. ground (
          arith,
          c.approvals_counted (omega (arith, e, k.epoch_kept)),
          k.stamps_kept,
          k.signers_kept,
        );
      });
}

pub settle-Inv :
    {A : Type 0} (s : State) (r : Result RootAnchorError (A × State))
    → ((a : A) (s' : State) → r ≡ ok (a, s') → Inv s')
    → Inv s
    → Inv (settle s r)
settle-Inv s (ok (a, s')) h inv = h a s' refl
settle-Inv s (err x) h inv = inv
settle-Inv s trap h inv = inv

module _ (host : Host) (env : Env) (s : State) (inv : Inv s) where
  keeps :
      {A : Type 0} (r : Result RootAnchorError (A × State))
      → ((a : A) (s' : State) → r ≡ ok (a, s') → Keeps s s')
      → Inv (settle s r)
  keeps r h = settle-Inv s r (λ a s' e. Keeps-Inv s s' (h a s' e) inv) inv

  pub pause-Inv : Inv (settle s (pause env s))
  pause-Inv = keeps (pause env s) λ a s' h. unfold pause in ground arith

  pub unpause-Inv : Inv (settle s (unpause env s))
  unpause-Inv = keeps (unpause env s) λ a s' h. unfold unpause in ground arith

  pub transfer_admin-Inv : (to : ℕ) → Inv (settle s (transfer_admin env to s))
  transfer_admin-Inv to =
      keeps (transfer_admin env to s) λ a s' h. unfold transfer_admin in ground arith

  pub accept_admin-Inv : Inv (settle s (accept_admin env s))
  accept_admin-Inv = keeps (accept_admin env s) λ a s' h. unfold accept_admin in ground arith

  pub activate_timelock-Inv : Inv (settle s (activate_timelock env s))
  activate_timelock-Inv =
      keeps (activate_timelock env s) λ a s' h. unfold activate_timelock in ground arith

  pub propose_action-Inv :
      (fn_name : String) (args : ℕ) → Inv (settle s (propose_action host env fn_name args s))
  propose_action-Inv fn_name args =
      keeps (propose_action host env fn_name args s) λ a s' h. unfold propose_action in ground arith

  pub cancel_action-Inv : (id : ℕ) → Inv (settle s (cancel_action env id s))
  cancel_action-Inv id =
      keeps (cancel_action env id s) λ a s' h. unfold cancel_action in ground arith

  pub reset_latest_seq-Inv :
      (chain seq : ℕ) → Inv (settle s (reset_latest_seq host env chain seq s))
  reset_latest_seq-Inv chain seq =
      keeps (reset_latest_seq host env chain seq s)
        λ a s' h. unfold reset_latest_seq in ground arith

  pub set_anchor_delay-Inv :
      (chain delay : ℕ) → Inv (settle s (set_anchor_delay host env chain delay s))
  set_anchor_delay-Inv chain delay =
      keeps (set_anchor_delay host env chain delay s)
        λ a s' h. unfold set_anchor_delay in ground arith

  pub set_monotonic-Inv : (monotonic : Bool) → Inv (settle s (set_monotonic host env monotonic s))
  set_monotonic-Inv monotonic =
      keeps (set_monotonic host env monotonic s) λ a s' h. unfold set_monotonic in ground arith

  -- A new signer set starts with no counted approval.
  rotated :
      (signers : List ℕ) (s' : State)
      → has_duplicate signers ≡ false
      → s'.signers ≡ signers
      → s'.set_epoch ≡ s.set_epoch + 1
      → s'.anchors ≡ s.anchors
      → s'.stamps ≡ s.stamps
      → Inv s'
  rotated signers s' d es ee ea et = record {
    distinct = rw es d;
    small_gen = λ chain root. ground (arith, inv.small_gen chain root);
    counted = λ chain root.
        let rec_kept : anchor_or_none chain root s' ≡ anchor_or_none chain root s = ground arith in
        let c = inv.counted chain root in
        rw rec_kept (record {
          epoch_le = omega (arith, ee, c.epoch_le);
          stamp_le = λ x v found. c.stamp_le x v (ground arith);
          approvals_counted = λ e. absurd (omega (arith, e, ee, c.epoch_le));
        });
  }

  pub set_signers-Inv :
      (signers : List ℕ) (threshold : ℕ) → Inv (settle s (set_signers host env signers threshold s))
  set_signers-Inv signers threshold =
      settle-Inv s (set_signers host env signers threshold s)
        (λ a s' h.
          let parts : (has_duplicate signers ≡ false)
              × (s'.signers ≡ signers)
              × (s'.set_epoch ≡ s.set_epoch + 1)
              × (s'.anchors ≡ s.anchors)
              × (s'.stamps ≡ s.stamps) =
            unfold set_signers in ground arith in
          rotated signers s' parts.0 parts.1 parts.2 parts.3 parts.4)
        inv

  pub initialize-Inv :
      (admin : ℕ) (signers : List ℕ) (threshold : ℕ)
      → Inv (settle s (initialize admin signers threshold s))
  initialize-Inv admin signers threshold =
      settle-Inv s (initialize admin signers threshold s)
        (λ a s' h.
          let parts : (has_duplicate signers ≡ false)
              × (s'.signers ≡ signers)
              × (s'.set_epoch ≡ s.set_epoch + 1)
              × (s'.anchors ≡ s.anchors)
              × (s'.stamps ≡ s.stamps) =
            unfold initialize in ground arith in
          rotated signers s' parts.0 parts.1 parts.2 parts.3 parts.4)
        inv
