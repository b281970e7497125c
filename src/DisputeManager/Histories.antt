-- ===== src/DisputeManager/Histories.antt =====
-- Histories of the dispute module: each call with the ledger that it saw, on the storage and the
-- token contracts' world. A call that fails leaves both as they were.
use proofbridge_contracts.Base.{ℕ, String, ◌≤◌, ◌<◌, ◌^◌, ◌≡◌, Bool, Env, Host, Result, ok}
use proofbridge_contracts.Core.Orders.{BondConfig, DisputeParams, DisputeOutcome}
use proofbridge_contracts.DisputeManager.State.{State, Tokens, fresh, Disputing}
use proofbridge_contracts.DisputeManager.Admin.{
  initialize, set_escrow, set_dispute_params, set_arbiter, set_protocol_fee_pool, set_bond_config,
  activate_timelock, propose_action, cancel_action, transfer_admin, accept_admin,
}
use proofbridge_contracts.DisputeManager.Payouts.{claim, claim_token}
use proofbridge_contracts.DisputeManager.Disputes.{
  open_dispute, settle_bond, record_response, resolve_dispute,
}

pub data Call : Type 0 where
  initializes : ℕ → ℕ → Call
  sets_escrow : ℕ → Bool → Call
  sets_params : ℕ → DisputeParams → Call
  sets_arbiter sets_fee_pool : ℕ → Call
  sets_bond_config : ℕ → ℕ → BondConfig → Call
  activates accepts_admin : Call
  proposes : String → ℕ → Call
  cancels transfers_admin : ℕ → Call
  opens : ℕ → ℕ → ℕ → ℕ → ℕ → ℕ → ℕ → ℕ → ℕ → Call
  settles : ℕ → ℕ → DisputeOutcome → Bool → Bool → Call
  responds : ℕ → ℕ → ℕ → ℕ → Call
  rules : ℕ → DisputeOutcome → Call
  claims : ℕ → Call
  claims_token : ℕ → ℕ → Call

-- The amount of a filing is a 128-bit number.
abbrev pub IsTyped : Call → Type 0
IsTyped (opens _ _ _ _ _ _ _ _ amount) = amount < 2 ^ 128
IsTyped _ = Unit {0}

abbrev pub settle {ℓ} : {S E : Type 0} {A : Type ℓ} → S → Result E (A × S) → S
settle s (ok (_, s')) = s'
settle s _ = s

module _ {World : Type 0} (host : Host) (tokens : Tokens World) (env : Env) where
  -- A call on the storage alone.
  abbrev pub on : {A : Type 0} → Disputing A → State × World → State × World
  on m q = (settle q.0 (m q.0), q.1)

  unfoldable pub step : Call → State × World → State × World
  step (initializes admin w_native) q = on (initialize admin w_native) q
  step (sets_escrow escrow allowed) q = on (set_escrow host env escrow allowed) q
  step (sets_params chain p) q = on (set_dispute_params host env chain p) q
  step (sets_arbiter arbiter) q = on (set_arbiter host env arbiter) q
  step (sets_fee_pool pool) q = on (set_protocol_fee_pool host env pool) q
  step (sets_bond_config token chain c) q = on (set_bond_config host env token chain c) q
  step activates q = on (activate_timelock env) q
  step accepts_admin q = on (accept_admin env) q
  step (proposes fn_name args) q = on (propose_action host env fn_name args) q
  step (cancels id) q = on (cancel_action env id) q
  step (transfers_admin to) q = on (transfer_admin env to) q
  step (opens escrow order chain filer evidence deadline buffer token amount) q =
      settle q
        (open_dispute tokens env escrow order chain filer evidence deadline buffer token amount q)
  step (settles escrow order outcome is_bridger returns) q =
      settle q (settle_bond tokens env escrow order outcome is_bridger returns q)
  step (responds escrow order responder evidence) q =
      on (record_response env escrow order responder evidence) q
  step (rules order outcome) q = on (resolve_dispute env order outcome) q
  step (claims recipient) q = settle q (claim tokens env recipient q)
  step (claims_token recipient token) q = settle q (claim_token tokens env recipient token q)

-- What can follow what on the ledger: a call of the module, or a transaction elsewhere that does not
-- take the module's tokens.
pub data Next {World : Type 0} (host : Host) (tokens : Tokens World) (here : ℕ)
    : State × World → State × World → Type 0 where
  calls :
      (env : Env) (c : Call) (q : State × World)
      → env.current_contract ≡ here
      → IsTyped c
      → Next host tokens here q (step host tokens env c q)
  elsewhere :
      (s : State) (w w' : World)
      → ((token : ℕ) → tokens.balance w token here ≤ tokens.balance w' token here)
      → Next host tokens here (s, w) (s, w')

-- What a fresh deployment can come to, from any world.
pub data Reachable {World : Type 0} (host : Host) (tokens : Tokens World) (here : ℕ)
    : State × World → Type 0 where
  deployed : (w : World) → Reachable host tokens here (fresh, w)
  later :
      {q q' : State × World}
      → Reachable host tokens here q
      → Next host tokens here q q'
      → Reachable host tokens here q'
