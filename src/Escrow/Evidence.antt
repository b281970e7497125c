-- ===== src/Escrow/Evidence.antt =====
-- Evidence that ends a disputed order also ends its dispute.
use proofbridge_contracts.Base.{
  ℕ, ◌+◌, ◌<◌, ◌^◌, ◌≡◌, ◌∙◌, ap, Bool, true, false, not, ◌==◌, nat_eq, pair_eq, none, some, lookup,
  Env, if◌then◌else◌, ok, arith, Bool-cases, inl, inr,
}
use proofbridge_contracts.Core.Orders.{DisputeRecord, DisputeOutcome}
use proofbridge_contracts.DisputeManager.State as dispute_state
use proofbridge_contracts.DisputeManager.State.{Tokens}
use proofbridge_contracts.DisputeManager.Disputes as dispute_calls
use proofbridge_contracts.DisputeManager.Lifecycle.{settle_bond_total}
use proofbridge_contracts.Escrow.State.{State}
use proofbridge_contracts.Escrow.Filing.{Filing, callee_env, put}
use proofbridge_contracts.Escrow.Closing.{
  dispute_filer, order_dispute_manager, close_dispute_by_evidence,
}

put_self : (modules : ℕ → dispute_state.State) (at : ℕ) → put modules at (modules at) ≡ modules
put_self modules at = λ i who. point who i
  where
    point : (who : ℕ) → put modules at (modules at) who ≡ modules who
    point who = ground arith

filer_found :
    {World : Type 0} (order manager : ℕ) (d : DisputeRecord) (s : State)
    (modules : ℕ → dispute_state.State) (w : World)
    → lookup order s.order_dispute_managers ≡ some manager
    → lookup order (modules manager).disputes ≡ some d
    → dispute_filer order (s, (modules, w)) ≡ ok (some d.initiator, (s, (modules, w)))
unfolding dispute_filer dispute_calls.initiator_of
filer_found order manager d s modules w snapshot found =
    let asked : dispute_filer order (s, (modules, w))
        ≡ ok (some d.initiator, (s, (put modules manager (modules manager), w))) =
      ground (arith, snapshot, found) in
    asked
    ∙ ap (λ (m : ℕ → dispute_state.State). ok (some d.initiator, (s, (m, w))))
        (put_self modules manager)

-- A disputed order's record is open in its module under the escrow that closes, the module knows its
-- wrapped native token and no credit overflows, and the question whether the maker denied the payout
-- only reads: then a close by evidence succeeds, whatever was ruled and whatever the token does, and
-- the escrow's own storage is as it was. Where the caller knows the maker, it leaves no record of the
-- order in the module; where the maker is unknown, it closes nothing: the modules and the tokens are
-- as they were too.
pub close_dispute_runs :
    {World : Type 0} (tokens : Tokens World) (env : Env) (order manager native maker : ℕ)
    (outcome : DisputeOutcome) (denied : ℕ → Filing World Bool) (answer : Bool) (d : DisputeRecord)
    (s : State) (modules : ℕ → dispute_state.State) (w : World)
    → lookup order s.order_dispute_managers ≡ some manager
    → lookup order (modules manager).disputes ≡ some d
    → d.escrow ≡ env.current_contract
    → (modules manager).w_native ≡ some native
    → ((who : ℕ) → dispute_state.get_claimable who (modules manager) + d.bond < 2 ^ 128)
    → ((who : ℕ)
        → dispute_state.get_token_claimable who d.bond_token (modules manager) + d.bond < 2 ^ 128)
    → denied maker (s, (modules, w)) ≡ ok (answer, (s, (modules, w)))
    → (close_dispute_by_evidence tokens env env.current_contract order outcome none denied
          (s, (modules, w))
        ≡ ok (tt, (s, (modules, w))))
      × (modules' : ℕ → dispute_state.State) × (w' : World) × (close_dispute_by_evidence tokens env
            env.current_contract order outcome
            (some maker)
            denied
            (s, (modules, w))
          ≡ ok (tt, (s, (modules', w'))))
      × (lookup order (modules' manager).disputes ≡ none)
close_dispute_runs tokens env order manager native maker outcome denied answer d s modules w
      snapshot found same named fits token_fits asked =
    let by_bridger = not (d.initiator == maker) in
    let returns = if by_bridger then answer else false in
    let signed : (callee_env env manager).authorized env.current_contract ≡ true = ground arith in
    let (m, w', closed, gone) =
      settle_bond_total tokens (callee_env env manager) env.current_contract order native outcome
        by_bridger returns d (modules manager) w signed found same named fits token_fits in
    let filed = filer_found order manager d s modules w snapshot found in
    let there : put modules manager m manager ≡ m = ground arith in
    (
      unfold close_dispute_by_evidence in ground (arith, filed),
      put modules manager m,
      w',
      unfold close_dispute_by_evidence order_dispute_manager in
          elim (Bool-cases (d.initiator == maker)) [
            | inl self ↦ ground (arith, filed, snapshot, closed)
            | inr other ↦ ground (arith, filed, snapshot, asked, closed)
          ],
      ap (λ (x : dispute_state.State). lookup order x.disputes) there ∙ gone,
    )
