-- ===== src/DisputeManager/Effects.antt =====
-- What each entry point does to the disputes, the rules and the credits once it succeeds.
use proofbridge_contracts.Base.{
  ℕ, String, ◌+◌, ◌<◌, ◌≡◌, ◌≢◌, inl, inr, Bool, true, none, some, List, lookup, insert, nat_eq,
  pair_eq, Env, Host, Val, ok, arith, Option-cases,
}
use proofbridge_contracts.Core.Orders.{
  BondConfig, DisputeParams, DisputeRecord, DisputeOutcome, undecided,
}
use proofbridge_contracts.Core.Bonds.{validate, validate_bond}
use proofbridge_contracts.DisputeManager.State.{State, store_bond_config, require_admin}
use proofbridge_contracts.DisputeManager.Admin.{
  gate, params_error, set_escrow, set_dispute_params, set_arbiter, set_protocol_fee_pool,
  set_bond_config, activate_timelock, propose_action, cancel_action, transfer_admin, accept_admin,
}
use proofbridge_contracts.DisputeManager.Disputes.{
  record_response, resolve_dispute, max, arbiter_may_rule, undecided_yet,
}

-- Disputes, rules and credits are left alone, and an admin stays.
pub record Quiet (s s' : State) : Type 0 where
  pub disputes_kept : s'.disputes ≡ s.disputes
  pub params_kept : s'.params ≡ s.params
  pub configs_kept : s'.bond_configs ≡ s.bond_configs
  pub claims_kept : s'.claims ≡ s.claims
  pub token_claims_kept : s'.token_claims ≡ s.token_claims
  pub w_native_kept : s'.w_native ≡ s.w_native
  pub admin_stays : s'.admin ≡ none → s.admin ≡ none

-- An answer to an open dispute of that escrow, by another than its filer, before the deadline and
-- the ruling, and the first one.
pub record Answered (env : Env) (escrow order responder evidence : ℕ) (s s' : State)
    (d : DisputeRecord) : Type 0 where
  pub open_before : lookup order s.disputes ≡ some d
  pub escrow_signed : env.authorized escrow ≡ true
  pub responder_signed : env.authorized responder ≡ true
  pub same_escrow : d.escrow ≡ escrow
  pub not_filer : d.initiator ≢ responder
  pub nonzero : evidence ≢ 0
  pub first : d.responder_evidence ≡ 0
  pub unruled : d.ruling ≡ undecided
  pub in_time : env.timestamp < d.challenge_deadline
  pub written :
      s'
      ≡ record s { disputes = insert order (record d { responder_evidence = evidence }) s.disputes }

-- The record that a ruling writes.
abbrev pub ruled_rec : Env → DisputeOutcome → DisputeRecord → DisputeRecord
ruled_rec env outcome d = record d {
  ruling = outcome;
  challenge_deadline = max env.timestamp d.order_deadline + d.buffer;
}

-- A ruling by the arbiter of an open dispute before its deadline.
pub record Ruled (env : Env) (order : ℕ) (outcome : DisputeOutcome) (s s' : State)
    (d : DisputeRecord) (arbiter : ℕ) : Type 0 where
  pub open_before : lookup order s.disputes ≡ some d
  pub named : s.arbiter ≡ some arbiter
  pub arbiter_signed : env.authorized arbiter ≡ true
  pub may_rule : arbiter_may_rule outcome ≡ true
  pub in_time : env.timestamp < d.challenge_deadline
  pub written : s' ≡ record s { disputes = insert order (ruled_rec env outcome d) s.disputes }

module _ (host : Host) (env : Env) (s s' : State) where
  gate-Quiet :
      (fn_name : String) (args : List Val) → gate host env fn_name args s ≡ ok (tt, s') → Quiet s s'
  unfolding gate
  gate-Quiet fn_name args h = ground arith

  pub set_escrow-Quiet :
      (escrow : ℕ) (allowed : Bool)
      → set_escrow host env escrow allowed s ≡ ok (tt, s')
      → Quiet s s'
  unfolding set_escrow
  set_escrow-Quiet escrow allowed h = ground arith

  pub accept_admin-Quiet : accept_admin env s ≡ ok (tt, s') → Quiet s s'
  unfolding accept_admin
  accept_admin-Quiet h = ground arith

  pub set_arbiter-Quiet : (arbiter : ℕ) → set_arbiter host env arbiter s ≡ ok (tt, s') → Quiet s s'
  unfolding set_arbiter gate
  set_arbiter-Quiet arbiter h = ground arith

  pub set_protocol_fee_pool-Quiet :
      (pool : ℕ) → set_protocol_fee_pool host env pool s ≡ ok (tt, s') → Quiet s s'
  unfolding set_protocol_fee_pool gate
  set_protocol_fee_pool-Quiet pool h = ground arith

  pub activate_timelock-Quiet : activate_timelock env s ≡ ok (tt, s') → Quiet s s'
  unfolding activate_timelock require_admin
  activate_timelock-Quiet h = ground arith

  pub propose_action-Quiet :
      (fn_name : String) (args : ℕ) {id : ℕ}
      → propose_action host env fn_name args s ≡ ok (id, s')
      → Quiet s s'
  unfolding propose_action require_admin
  propose_action-Quiet fn_name args h = ground arith

  pub cancel_action-Quiet : (id : ℕ) → cancel_action env id s ≡ ok (tt, s') → Quiet s s'
  unfolding cancel_action require_admin
  cancel_action-Quiet id h = ground arith

  pub transfer_admin-Quiet : (to : ℕ) → transfer_admin env to s ≡ ok (tt, s') → Quiet s s'
  unfolding transfer_admin require_admin
  transfer_admin-Quiet to h = ground arith

  -- New parameters are valid ones, and nothing else moves but the timelock.
  pub set_dispute_params-ok :
      (chain : ℕ) (p : DisputeParams)
      → set_dispute_params host env chain p s ≡ ok (tt, s')
      → (validate p ≡ none)
        × Quiet s (record s' { params = s.params })
        × (s'.params ≡ insert chain p s.params)
  unfolding set_dispute_params gate params_error
  set_dispute_params-ok chain p h = ground arith

  pub set_bond_config-ok :
      (token chain : ℕ) (c : BondConfig)
      → set_bond_config host env token chain c s ≡ ok (tt, s')
      → (validate_bond c ≡ true)
        × Quiet s (record s' { bond_configs = s.bond_configs })
        × (s'.bond_configs ≡ (store_bond_config token chain c s).bond_configs)
  unfolding set_bond_config gate
  set_bond_config-ok token chain c h = ground arith

module _ (env : Env) (s s' : State) where
  pub record_response-Answered :
      (escrow order responder evidence : ℕ)
      → record_response env escrow order responder evidence s ≡ ok (tt, s')
      → (d : DisputeRecord) × Answered env escrow order responder evidence s s' d
  record_response-Answered escrow order responder evidence h =
      elim (Option-cases (lookup order s.disputes)) [
        | inl missing ↦ absurd (unfold record_response in ground arith)
        | inr (d, found) ↦ (d, unfold record_response undecided_yet in ground arith)
      ]

  pub resolve_dispute-Ruled :
      (order : ℕ) (outcome : DisputeOutcome)
      → resolve_dispute env order outcome s ≡ ok (tt, s')
      → (d : DisputeRecord) × (arbiter : ℕ) × Ruled env order outcome s s' d arbiter
  resolve_dispute-Ruled order outcome h = elim (Option-cases (lookup order s.disputes)) [
    | inl missing ↦ absurd (unfold resolve_dispute in ground arith)
    | inr (d, found) ↦ elim (Option-cases s.arbiter) [
      | inl nobody ↦ absurd (unfold resolve_dispute in ground arith)
      | inr (arbiter, named) ↦ (d, arbiter, unfold resolve_dispute in ground arith)
    ]
  ]
