-- ===== src/DisputeManager/Changes.antt =====
-- Every call of the dispute module has one of these effects.
use proofbridge_contracts.Base.{
  ℕ, ◌<◌, ◌^◌, ◌≡◌, refl, Bool, true, none, some, insert, nat_eq, Env, Host, Result, ok, err, trap,
  arith, Option-cases, inl, inr,
}
use proofbridge_contracts.Core.Orders.{BondConfig, DisputeParams, DisputeRecord, DisputeOutcome}
use proofbridge_contracts.Core.Bonds.{validate, validate_bond}
use proofbridge_contracts.DisputeManager.State.{
  State, DisputeManagerError, Tokens, store_bond_config,
}
use proofbridge_contracts.DisputeManager.Admin.{initialize}
use proofbridge_contracts.DisputeManager.Histories.{
  Call, initializes, sets_escrow, sets_params, sets_arbiter, sets_fee_pool, sets_bond_config,
  activates, accepts_admin, proposes, cancels, transfers_admin, opens, settles, responds, rules,
  claims, claims_token, IsTyped, settle, step,
}
use proofbridge_contracts.DisputeManager.Effects.{
  Quiet, Answered, Ruled, set_escrow-Quiet, accept_admin-Quiet, set_arbiter-Quiet,
  set_protocol_fee_pool-Quiet, activate_timelock-Quiet, propose_action-Quiet, cancel_action-Quiet,
  transfer_admin-Quiet, set_dispute_params-ok, set_bond_config-ok, record_response-Answered,
  resolve_dispute-Ruled,
}
use proofbridge_contracts.DisputeManager.Transfers.{Opened, open_dispute-Opened}
use proofbridge_contracts.DisputeManager.Deliveries.{
  Closed, Withdrawn, settle_bond-Closed, claim-Withdrawn, claim_token-Withdrawn,
}

pub data Effect {World : Type 0} (tokens : Tokens World) (env : Env) (s s' : State) (w w' : World)
    : Type 0 where
  quiet : Quiet s s' → w' ≡ w → Effect tokens env s s' w w'
  wired :
      (admin native : ℕ)
      → s.admin ≡ none
      → s' ≡ record s { admin = some admin; w_native = some native }
      → w' ≡ w
      → Effect tokens env s s' w w'
  new_params :
      (chain : ℕ) (p : DisputeParams)
      → validate p ≡ none
      → Quiet s (record s' { params = s.params })
      → s'.params ≡ insert chain p s.params
      → w' ≡ w
      → Effect tokens env s s' w w'
  new_config :
      (token chain : ℕ) (c : BondConfig)
      → validate_bond c ≡ true
      → Quiet s (record s' { bond_configs = s.bond_configs })
      → s'.bond_configs ≡ (store_bond_config token chain c s).bond_configs
      → w' ≡ w
      → Effect tokens env s s' w w'
  opened :
      (escrow order chain filer evidence deadline buffer token amount : ℕ) (p : DisputeParams)
      (bond_token bond : ℕ)
      → amount < 2 ^ 128
      → Opened tokens env s s' w w' escrow order chain filer evidence deadline buffer token amount p
          bond_token bond
      → Effect tokens env s s' w w'
  closes :
      (escrow order : ℕ) (outcome : DisputeOutcome) (is_bridger returns : Bool) (d : DisputeRecord)
      → Closed tokens env s s' w w' escrow order outcome is_bridger returns d
      → Effect tokens env s s' w w'
  answered :
      (escrow order responder evidence : ℕ) (d : DisputeRecord)
      → Answered env escrow order responder evidence s s' d
      → w' ≡ w
      → Effect tokens env s s' w w'
  ruled :
      (order : ℕ) (outcome : DisputeOutcome) (d : DisputeRecord) (arbiter : ℕ)
      → Ruled env order outcome s s' d arbiter
      → w' ≡ w
      → Effect tokens env s s' w w'
  withdrawn :
      (recipient token : ℕ)
      → Withdrawn tokens env s s' w w' recipient token
      → Effect tokens env s s' w w'

Quiet-self : (s : State) → Quiet s s
Quiet-self s = ground arith

module _ {World : Type 0} (tokens : Tokens World) (env : Env) (s : State) (w : World) where
  on-Effect :
      {A : Type 0} (r : Result DisputeManagerError (A × State))
      → ((a : A) (s' : State) → r ≡ ok (a, s') → Effect tokens env s s' w w)
      → Effect tokens env s (settle s r) w w
  on-Effect (ok (a, s')) f = f a s' refl
  on-Effect (err x) f = quiet (Quiet-self s) refl
  on-Effect trap f = quiet (Quiet-self s) refl

  paying-Effect :
      {A : Type 0} (r : Result DisputeManagerError (A × (State × World)))
      → ((a : A) (s' : State) (w' : World) → r ≡ ok (a, (s', w')) → Effect tokens env s s' w w')
      → Effect tokens env s (settle (s, w) r).0 w (settle (s, w) r).1
  paying-Effect (ok (a, (s', w'))) f = f a s' w' refl
  paying-Effect (err x) f = quiet (Quiet-self s) refl
  paying-Effect trap f = quiet (Quiet-self s) refl

  initialize-Effect :
      (admin native : ℕ) (s' : State)
      → initialize admin native s ≡ ok (tt, s')
      → Effect tokens env s s' w w
  unfolding initialize
  initialize-Effect admin native s' h = elim (Option-cases s.admin) [
    | inl unset ↦ wired admin native unset (ground arith) refl
    | inr (a, found) ↦ absurd (ground arith)
  ]

module _ {World : Type 0} (host : Host) (tokens : Tokens World) (env : Env) (s : State)
    (w : World) where
  pub step-Effect :
      (c : Call)
      → IsTyped c
      → Effect tokens env s (step host tokens env c (s, w)).0 w (step host tokens env c (s, w)).1
  unfolding step
  step-Effect (initializes admin native) _ =
      on-Effect tokens env s w _ λ a s' h. initialize-Effect tokens env s w admin native s' h
  step-Effect (sets_escrow escrow allowed) _ =
      on-Effect tokens env s w _
        λ a s' h. quiet (set_escrow-Quiet host env s s' escrow allowed h) refl
  step-Effect (sets_params chain p) _ = on-Effect tokens env s w _ λ a s' h.
      let (valid, q, written) = set_dispute_params-ok host env s s' chain p h in
      new_params chain p valid q written refl
  step-Effect (sets_arbiter arbiter) _ =
      on-Effect tokens env s w _ λ a s' h. quiet (set_arbiter-Quiet host env s s' arbiter h) refl
  step-Effect (sets_fee_pool pool) _ =
      on-Effect tokens env s w _
        λ a s' h. quiet (set_protocol_fee_pool-Quiet host env s s' pool h) refl
  step-Effect (sets_bond_config token chain c) _ = on-Effect tokens env s w _ λ a s' h.
      let (valid, q, written) = set_bond_config-ok host env s s' token chain c h in
      new_config token chain c valid q written refl
  step-Effect activates _ =
      on-Effect tokens env s w _ λ a s' h. quiet (activate_timelock-Quiet host env s s' h) refl
  step-Effect accepts_admin _ =
      on-Effect tokens env s w _ λ a s' h. quiet (accept_admin-Quiet host env s s' h) refl
  step-Effect (proposes fn_name args) _ =
      on-Effect tokens env s w _
        λ a s' h. quiet (propose_action-Quiet host env s s' fn_name args h) refl
  step-Effect (cancels id) _ =
      on-Effect tokens env s w _ λ a s' h. quiet (cancel_action-Quiet host env s s' id h) refl
  step-Effect (transfers_admin to) _ =
      on-Effect tokens env s w _ λ a s' h. quiet (transfer_admin-Quiet host env s s' to h) refl
  step-Effect (opens escrow order chain filer evidence deadline buffer token amount) typed =
      paying-Effect tokens env s w _ λ a s' w' h.
        let (p, bond_token, bond, _, done) =
          open_dispute-Opened tokens env s s' w w' escrow order chain filer evidence deadline buffer
            token amount h in
        opened escrow order chain filer evidence deadline buffer token amount p bond_token bond
          typed done
  step-Effect (settles escrow order outcome is_bridger returns) _ =
      paying-Effect tokens env s w _ λ a s' w' h.
        let (d, done) =
          settle_bond-Closed tokens env s s' w w' escrow order outcome is_bridger returns h in
        closes escrow order outcome is_bridger returns d done
  step-Effect (responds escrow order responder evidence) _ = on-Effect tokens env s w _ λ a s' h.
      let (d, done) = record_response-Answered env s s' escrow order responder evidence h in
      answered escrow order responder evidence d done refl
  step-Effect (rules order outcome) _ = on-Effect tokens env s w _ λ a s' h.
      let (d, arbiter, done) = resolve_dispute-Ruled env s s' order outcome h in
      ruled order outcome d arbiter done refl
  step-Effect (claims recipient) _ = paying-Effect tokens env s w _ λ a s' w' h.
      let (token, done) = claim-Withdrawn tokens env s s' w w' recipient h in
      withdrawn recipient token done
  step-Effect (claims_token recipient token) _ = paying-Effect tokens env s w _ λ a s' w' h.
      withdrawn recipient token (claim_token-Withdrawn tokens env s s' w w' recipient token h)
