-- ===== src/RootAnchor/Authorization.antt =====
-- Whose call an approval rests on.
use proofbridge_contracts.Base.{
  ℕ, ◌≡◌, refl, inl, inr, false, lookup, lookup-insert, pair_eq, triple_eq, nat_eq, Env, Host,
  Result, ok, err, trap, arith,
}
use proofbridge_contracts.RootAnchor.State.{State, RootAnchorError}
use proofbridge_contracts.RootAnchor.Admin.{
  initialize, pause, unpause, transfer_admin, accept_admin, activate_timelock, propose_action,
  cancel_action, set_signers, revoke_anchor, reset_latest_seq, set_anchor_delay, set_monotonic,
}
use proofbridge_contracts.RootAnchor.Notary.{stamp_of, anchor}
use proofbridge_contracts.RootAnchor.Histories.{
  Call, initializes, pauses, unpauses, accepts_admin, activates, transfers_admin, proposes, cancels,
  sets_signers, revokes, resets_latest, sets_delay, sets_monotonic, anchors, settle, step,
}
use proofbridge_contracts.RootAnchor.Notary.Steps.{anchor-ok}

unsigned_anchor :
    (env : Env) (caller c r seq chain root signer : ℕ) (s : State)
    → env.authorized signer ≡ false
    → (result : Result RootAnchorError (Unit {0} × State)) → anchor env caller c r seq s ≡ result
    → lookup (chain, root, signer) (settle s result).stamps ≡ lookup (chain, root, signer) s.stamps
unsigned_anchor env caller c r seq chain root signer s unsigned (err x) e = refl
unsigned_anchor env caller c r seq chain root signer s unsigned trap e = refl
unsigned_anchor env caller c r seq chain root signer s unsigned (ok (_, s')) e =
    let (authorized, member, running, done) = anchor-ok env caller c r seq s s' e in
    elim done [
      | inl (old, same) ↦ ground arith
      | inr (new, approval) ↦ ground (
        arith,
        approval.1.stamps_after,
        lookup-insert (c, r, caller) (chain, root, signer) (stamp_of approval.0) s.stamps,
      )
    ]

-- An approval is only ever written under its signer's own authorization: no call of another signer,
-- and no admin call, changes it.
pub approval_authorized :
    (host : Host) (env : Env) (c : Call) (chain root signer : ℕ) (s : State)
    → env.authorized signer ≡ false
    → lookup (chain, root, signer) (step host env c s).stamps
      ≡ lookup (chain, root, signer) s.stamps
unfolding step
approval_authorized host env (initializes admin signers threshold) chain root signer s unsigned =
    unfold initialize in ground arith
approval_authorized host env pauses chain root signer s unsigned = unfold pause in ground arith
approval_authorized host env unpauses chain root signer s unsigned = unfold unpause in ground arith
approval_authorized host env accepts_admin chain root signer s unsigned =
    unfold accept_admin in ground arith
approval_authorized host env activates chain root signer s unsigned =
    unfold activate_timelock in ground arith
approval_authorized host env (transfers_admin to) chain root signer s unsigned =
    unfold transfer_admin in ground arith
approval_authorized host env (proposes fn_name args) chain root signer s unsigned =
    unfold propose_action in ground arith
approval_authorized host env (cancels id) chain root signer s unsigned =
    unfold cancel_action in ground arith
approval_authorized host env (sets_signers signers threshold) chain root signer s unsigned =
    unfold set_signers in ground arith
approval_authorized host env (revokes c r) chain root signer s unsigned =
    unfold revoke_anchor in ground arith
approval_authorized host env (resets_latest c seq) chain root signer s unsigned =
    unfold reset_latest_seq in ground arith
approval_authorized host env (sets_delay c delay) chain root signer s unsigned =
    unfold set_anchor_delay in ground arith
approval_authorized host env (sets_monotonic monotonic) chain root signer s unsigned =
    unfold set_monotonic in ground arith
approval_authorized host env (anchors caller c r seq) chain root signer s unsigned =
    unsigned_anchor env caller c r seq chain root signer s unsigned (anchor env caller c r seq s)
      refl
