-- ===== src/RootAnchor/Admin.antt =====
-- stellar/contracts/root-anchor/src/lib.rs: initialization and the admin's entry points.
use proofbridge_contracts.Base.{
  ℕ, String, ◌*◌, Bool, true, false, not, ◌&&◌, ◌||◌, ◌==◌, nat_eq, pair_eq, none, some, List, [],
  ◌∷◌, ltb, leb, length, has_duplicate, lookup, insert, Env, Host, word, flag, fields, ◌>>=◌, ◌>>◌,
  gets, modify, fail_if, ok_or, unwrap, require_auth, add_checked,
}
use proofbridge_contracts.Core.Timelock.{
  bump_epoch, activate, propose, cancel, gate, gate_unless, brake_key,
}
use proofbridge_contracts.RootAnchor.State.{
  Anchoring, AnchorRec, get_delay, get_latest_seq, on_timelock, admin_of, require_admin,
  already_initialized, not_pending_admin, bad_threshold, duplicate_signer, delay_too_long,
  no_such_anchor,
}

abbrev pub max_anchor_delay : ℕ
max_anchor_delay = 7 * 24 * 60 * 60

unfoldable pub apply_signers : List ℕ → ℕ → Anchoring (Unit {0})
apply_signers signers threshold = do
  fail_if (threshold == 0 || ltb (length signers) threshold) bad_threshold
  fail_if (has_duplicate signers) duplicate_signer
  modify (λ s. record s { signers = signers; threshold = threshold })
  current ← gets (λ s. s.set_epoch)
  next ← add_checked 32 current 1
  modify (λ s. record s { set_epoch = next })

unfoldable pub initialize : ℕ → List ℕ → ℕ → Anchoring (Unit {0})
unfolding apply_signers
initialize admin signers threshold = do
  ready ← gets (λ s. s.initialized)
  fail_if ready already_initialized
  apply_signers signers threshold
  modify (λ s. record s { admin = some admin; monotonic = true; initialized = true })

unfoldable pub pause : Env → Anchoring (Unit {0})
unfolding require_admin
pause env = do require_admin env; modify (λ s. record s { paused = true })

unfoldable pub unpause : Env → Anchoring (Unit {0})
unfolding require_admin
unpause env = do require_admin env; modify (λ s. record s { paused = false })

unfoldable pub transfer_admin : Env → ℕ → Anchoring (Unit {0})
unfolding require_admin
transfer_admin env to = do require_admin env; modify (λ s. record s { pending_admin = some to })

unfoldable pub accept_admin : Env → Anchoring (Unit {0})
unfolding bump_epoch
accept_admin env = do
  pending ← ok_or (← gets (λ s. s.pending_admin)) not_pending_admin
  require_auth env pending
  unwrap (← gets (λ s. s.admin))
  modify (λ s. record s { admin = some pending; pending_admin = none })
  on_timelock bump_epoch

unfoldable pub activate_timelock : Env → Anchoring (Unit {0})
unfolding require_admin
activate_timelock env = do require_admin env; on_timelock activate

unfoldable pub propose_action : Host → Env → String → ℕ → Anchoring ℕ
unfolding require_admin
propose_action host env fn_name args = do
  require_admin env
  on_timelock (propose host env fn_name args)

unfoldable pub cancel_action : Env → ℕ → Anchoring (Unit {0})
unfolding require_admin
cancel_action env id = do require_admin env; on_timelock (cancel id)

unfoldable pub set_signers : Host → Env → List ℕ → ℕ → Anchoring (Unit {0})
unfolding admin_of apply_signers
set_signers host env signers threshold = do
  admin ← admin_of
  on_timelock (gate host env admin "set_signers" (fields signers ∷ word threshold ∷ []))
  apply_signers signers threshold

unfoldable pub revoke_anchor : Env → ℕ → ℕ → Anchoring (Unit {0})
unfolding require_admin
revoke_anchor env chain root = do
  require_admin env
  rec ← ok_or (← gets (λ s. lookup (chain, root) s.anchors)) no_such_anchor
  fail_if (not rec.anchored && (rec.approvals == 0)) no_such_anchor
  gen ← add_checked 32 rec.gen 1
  let revoked : AnchorRec = record rec {
    gen = gen;
    approvals = 0;
    anchored = false;
    anchored_at = 0;
    ledger_seq = 0;
  }
  modify (λ s. record s { anchors = insert (chain, root) revoked s.anchors })

unfoldable pub reset_latest_seq : Host → Env → ℕ → ℕ → Anchoring (Unit {0})
unfolding admin_of
reset_latest_seq host env chain seq = do
  admin ← admin_of
  latest ← gets (get_latest_seq chain)
  on_timelock (
      gate_unless host env admin (leb latest seq) "reset_latest_seq" (word chain ∷ word seq ∷ [])
        (brake_key host "reset_latest_seq" (word chain)))
  modify (λ s. record s { latest = insert chain seq s.latest })

unfoldable pub set_anchor_delay : Host → Env → ℕ → ℕ → Anchoring (Unit {0})
unfolding admin_of
set_anchor_delay host env chain delay = do
  admin ← admin_of
  current ← gets (get_delay chain)
  on_timelock (
      gate_unless host env admin (leb current delay) "set_anchor_delay"
        (word chain ∷ word delay ∷ []) (brake_key host "set_anchor_delay" (word chain)))
  fail_if (ltb max_anchor_delay delay) delay_too_long
  modify (λ s. record s { delays = insert chain delay s.delays })

unfoldable pub set_monotonic : Host → Env → Bool → Anchoring (Unit {0})
unfolding admin_of
set_monotonic host env monotonic = do
  admin ← admin_of
  on_timelock (
      gate_unless host env admin monotonic "set_monotonic" (flag monotonic ∷ [])
        (brake_key host "set_monotonic" (fields [])))
  modify (λ s. record s { monotonic = monotonic })
