-- ===== src/Escrow/Filing.antt =====
-- stellar/lib/proofbridge-core/src/escrow_ops.rs: an escrow's calls into the dispute modules. A joint
-- state is the escrow's storage, the storage of the module at each address, and the token contracts'
-- world.
use proofbridge_contracts.Base.{
  ℕ, Bool, true, false, not, ◌||◌, ◌==◌, nat_eq, Option, lookup, insert, erase, leb, if◌then◌else◌,
  Env, Action, ok, err, trap, ◌>>=◌, ◌>>◌, pure, fail_if, ok_or, gets, modify,
}
use proofbridge_contracts.Core.Faults.{
  Fault, no_dispute_manager, not_disputable, dispute_not_resolved, dispute_window_closed,
  dispute_module_rejected, dispute_no_params, dispute_not_escrow, dispute_exists,
  dispute_wrong_escrow, dispute_not_responder, dispute_bond_transfer_failed,
  dispute_response_window_closed, dispute_already_responded, dispute_zero_response,
  dispute_already_ruled,
}
use proofbridge_contracts.Core.Orders.{
  Status, opened, claimed, disputed, DisputeOutcome, mutual_refund,
}
use proofbridge_contracts.DisputeManager.State as dispute_state
use proofbridge_contracts.DisputeManager.State.{DisputeManagerError, Tokens}
use proofbridge_contracts.DisputeManager.Payouts.{Paying, reads}
use proofbridge_contracts.DisputeManager.Disputes as dispute_calls
use proofbridge_contracts.Escrow.State.{State, Escrowing, get_order_status, set_order_status}
use proofbridge_contracts.Escrow.Termination.{order_timing, window_end}

abbrev pub Joint : Type 0 → Type 0
Joint World = State × ((ℕ → dispute_state.State) × World)

abbrev pub Filing : Type 0 → Type 0 → Type 0
Filing World A = Action (Joint World) Fault A

-- The module's own refusals, by their code; another failure is a rejection.
unfoldable pub dispute_module_fault : DisputeManagerError → Fault
dispute_module_fault dispute_state.not_escrow = dispute_not_escrow
dispute_module_fault dispute_state.dispute_exists = dispute_exists
dispute_module_fault dispute_state.not_responder = dispute_not_responder
dispute_module_fault dispute_state.no_dispute_params = dispute_no_params
dispute_module_fault dispute_state.wrong_escrow = dispute_wrong_escrow
dispute_module_fault dispute_state.bond_transfer_failed = dispute_bond_transfer_failed
dispute_module_fault dispute_state.response_window_closed = dispute_response_window_closed
dispute_module_fault dispute_state.already_responded = dispute_already_responded
dispute_module_fault dispute_state.zero_response = dispute_zero_response
dispute_module_fault dispute_state.already_ruled = dispute_already_ruled
dispute_module_fault _ = dispute_module_rejected

abbrev pub put : (ℕ → dispute_state.State) → ℕ → dispute_state.State → ℕ → dispute_state.State
put modules at d who = if at == who then d else modules who

-- What a callee sees: its own address, and its caller as an authorizer.
abbrev pub callee_env : Env → ℕ → Env
callee_env env callee = record env {
  current_contract = callee;
  authorized = λ who. env.authorized who || (who == env.current_contract);
}

abbrev pub on_escrow : {World A : Type 0} → Escrowing A → Filing World A
on_escrow m q = elim (m q.0) [ ok (a, s) ↦ ok (a, (s, q.1)) | err x ↦ err x | trap ↦ trap ]

-- `try_*` of a module: a trap in it is a failure that the caller sees.
abbrev pub call : {World A : Type 0} → ℕ → Paying World A → Filing World A
call callee m q = elim (m (q.1.0 callee, q.1.1)) [
  | ok (a, (d, w)) ↦ ok (a, (q.0, (put q.1.0 callee d, w)))
  | err x ↦ err (dispute_module_fault x)
  | trap ↦ err dispute_module_rejected
]

abbrev pub is_disputable : Status → Bool
is_disputable opened = true
is_disputable claimed = true
is_disputable _ = false

-- `Open | Claimed → Disputed`
unfoldable pub file_dispute :
    {World : Type 0} → Tokens World → Env → ℕ → ℕ → ℕ → ℕ → ℕ → ℕ → ℕ → ℕ → Filing World ℕ
unfolding set_order_status order_timing window_end dispute_module_fault
file_dispute tokens env escrow order chain filer evidence deadline token amount = do
  status ← gets (λ q. get_order_status order q.0)
  fail_if (not (is_disputable status)) not_disputable
  t ← on_escrow (order_timing order chain)
  end ← gets (λ q. window_end order deadline t.buffer q.0)
  fail_if (leb end env.timestamp) dispute_window_closed
  manager ← ok_or (← gets (λ q. q.0.dispute_manager)) no_dispute_manager
  bond ← call manager (
      dispute_calls.open_dispute tokens (callee_env env manager) escrow order chain filer evidence
        deadline t.buffer token amount)
  modify (λ q. (
    record q.0 { order_dispute_managers = insert order manager q.0.order_dispute_managers },
    q.1,
  ))
  on_escrow (set_order_status order disputed)
  modify (λ q. (record q.0 { claims = erase order q.0.claims }, q.1))
  pure bond

-- The module's verdict, once its window has closed; none becomes a mutual refund.
unfoldable pub dispute_outcome :
    {World : Type 0} → Env → ℕ → Filing World (DisputeOutcome × Option ℕ)
dispute_outcome env order = do
  found ← gets (λ q. lookup order q.0.order_dispute_managers)
  manager ← ok_or found no_dispute_manager
  verdict ← call manager (reads (dispute_calls.outcome_of (callee_env env manager) order))
  fail_if (not verdict.1) dispute_not_resolved
  pure ((if dispute_calls.undecided_yet verdict.0 then mutual_refund else verdict.0), verdict.2)
