-- ===== src/RootAnchor/Histories.antt =====
-- Histories of the notary: each call with the ledger that it saw. A call that fails leaves the storage
-- as it was.
use proofbridge_contracts.Base.{ℕ, String, Bool, List, [], ◌∷◌, Env, Host, Result, ok}
use proofbridge_contracts.RootAnchor.State.{State, RootAnchorError}
use proofbridge_contracts.RootAnchor.Admin.{
  initialize, pause, unpause, transfer_admin, accept_admin, activate_timelock, propose_action,
  cancel_action, set_signers, revoke_anchor, reset_latest_seq, set_anchor_delay, set_monotonic,
}
use proofbridge_contracts.RootAnchor.Notary.{anchor}

pub data Call : Type 0 where
  initializes : ℕ → List ℕ → ℕ → Call
  pauses unpauses accepts_admin activates : Call
  transfers_admin : ℕ → Call
  proposes : String → ℕ → Call
  cancels : ℕ → Call
  sets_signers : List ℕ → ℕ → Call
  revokes : ℕ → ℕ → Call
  resets_latest : ℕ → ℕ → Call
  sets_delay : ℕ → ℕ → Call
  sets_monotonic : Bool → Call
  anchors : ℕ → ℕ → ℕ → ℕ → Call

abbrev pub settle : {A : Type 0} → State → Result RootAnchorError (A × State) → State
settle s (ok (_, s')) = s'
settle s _ = s

unfoldable pub step : Host → Env → Call → State → State
step host env (initializes admin signers threshold) s =
    settle s (initialize admin signers threshold s)
step host env pauses s = settle s (pause env s)
step host env unpauses s = settle s (unpause env s)
step host env accepts_admin s = settle s (accept_admin env s)
step host env activates s = settle s (activate_timelock env s)
step host env (transfers_admin to) s = settle s (transfer_admin env to s)
step host env (proposes fn_name args) s = settle s (propose_action host env fn_name args s)
step host env (cancels id) s = settle s (cancel_action env id s)
step host env (sets_signers signers threshold) s =
    settle s (set_signers host env signers threshold s)
step host env (revokes chain root) s = settle s (revoke_anchor env chain root s)
step host env (resets_latest chain seq) s = settle s (reset_latest_seq host env chain seq s)
step host env (sets_delay chain delay) s = settle s (set_anchor_delay host env chain delay s)
step host env (sets_monotonic monotonic) s = settle s (set_monotonic host env monotonic s)
step host env (anchors signer chain root seq) s = settle s (anchor env signer chain root seq s)

unfoldable pub run : Host → List (Env × Call) → State → State
run host [] s = s
run host ((env, c) ∷ cs) s = run host cs (step host env c s)
