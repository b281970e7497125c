-- ===== src/Escrow/Closing.antt =====
-- stellar/lib/proofbridge-core/src/escrow_ops.rs: the answer to a dispute, its views, and its close.
use proofbridge_contracts.Base.{
  ℕ, Bool, true, false, not, ◌==◌, nat_eq, Option, none, some, lookup, Env, ◌>>=◌, pure, gets,
  ok_or,
}
use proofbridge_contracts.Core.Faults.{no_dispute_manager}
use proofbridge_contracts.Core.Orders.{DisputeOutcome}
use proofbridge_contracts.DisputeManager.State.{Tokens, Disputing}
use proofbridge_contracts.DisputeManager.Payouts.{reads}
use proofbridge_contracts.DisputeManager.Disputes as dispute_calls
use proofbridge_contracts.Escrow.Filing.{Filing, callee_env, call, dispute_module_fault}

module _ {World : Type 0} where
  -- The module that the order's dispute was filed into.
  unfoldable pub order_dispute_manager : ℕ → Filing World ℕ
  order_dispute_manager order = do
    found ← gets (λ q. lookup order q.0.order_dispute_managers)
    ok_or found no_dispute_manager

  -- The ruling as it stands, whether or not its window is over.
  unfoldable pub dispute_ruling : Env → ℕ → Filing World DisputeOutcome
  unfolding order_dispute_manager dispute_module_fault
  dispute_ruling env order = do
    manager ← order_dispute_manager order
    verdict ← call manager (reads (dispute_calls.outcome_of (callee_env env manager) order))
    pure verdict.0

  unfoldable pub dispute_challenge_deadline : ℕ → Filing World ℕ
  unfolding order_dispute_manager dispute_module_fault
  dispute_challenge_deadline order = do
    manager ← order_dispute_manager order
    call manager (reads (dispute_calls.effective_challenge_deadline order))

  -- Who filed, or `none` where nothing is disputed.
  unfoldable pub dispute_filer : ℕ → Filing World (Option ℕ)
  unfolding dispute_module_fault
  dispute_filer order = do
    found ← gets (λ q. lookup order q.0.order_dispute_managers)
    elim found [
      | none ↦ pure none
      | some manager ↦ call manager (reads (dispute_calls.initiator_of order))
    ]

  -- The dispute is over: the module routes the bond and closes its record.
  unfoldable pub settle_bond :
      Tokens World → Env → ℕ → ℕ → DisputeOutcome → Bool → Filing World (Unit {0})
  unfolding order_dispute_manager dispute_module_fault
  settle_bond tokens env escrow order outcome filer_is_bridger = do
    manager ← order_dispute_manager order
    call manager (
        dispute_calls.settle_bond tokens (callee_env env manager) escrow order outcome
          filer_is_bridger false)

  -- A call of the module on its storage alone.
  abbrev on_module : {A : Type 0} → ℕ → Disputing A → Filing World A
  on_module manager m = call manager (dispute_calls.on_store m)

  unfoldable pub record_response : Env → ℕ → ℕ → ℕ → ℕ → Filing World (Unit {0})
  unfolding order_dispute_manager dispute_module_fault
  record_response env escrow order responder evidence = do
    manager ← order_dispute_manager order
    on_module manager
        (dispute_calls.record_response (callee_env env manager) escrow order responder evidence)

  -- Evidence has ended a disputed order, whatever was ruled. The caller says who the maker is and
  -- whether the maker denied the payout, which is asked for a bridger's filing only.
  unfoldable pub close_dispute_by_evidence :
      Tokens World
      → Env
      → ℕ
      → ℕ
      → DisputeOutcome
      → Option ℕ
      → (ℕ → Filing World Bool)
      → Filing World (Unit {0})
  unfolding dispute_filer order_dispute_manager dispute_module_fault
  close_dispute_by_evidence tokens env escrow order outcome maker_of denied = do
    found ← dispute_filer order
    elim found [
      | none ↦ pure tt
      | some filer ↦ elim maker_of [
        | none ↦ pure tt
        | some maker ↦
            let filer_is_bridger = not (filer == maker) in
            (elim filer_is_bridger [ true ↦ denied maker | false ↦ pure false ]
              >>= λ return_to_filer. order_dispute_manager order >>= λ manager. call manager (
                  dispute_calls.settle_bond tokens (callee_env env manager) escrow order outcome
                    filer_is_bridger return_to_filer))
      ]
    ]
