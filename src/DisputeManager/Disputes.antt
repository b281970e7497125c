-- ===== src/DisputeManager/Disputes.antt =====
-- stellar/contracts/dispute-manager/src/lib.rs: opening, answering, ruling and closing a dispute, and
-- the views that the escrows read.
use proofbridge_contracts.Base.{
  ℕ, ◌+◌, ◌^◌, Bool, true, false, not, ◌==◌, nat_eq, pair_eq, Option, none, some, lookup, insert,
  erase, ltb, leb, Env, ok, err, trap, ◌>>=◌, ◌>>◌, pure, fail_if, gets, modify, ok_or, unwrap,
  require_auth, add_checked, if◌then◌else◌,
}
use proofbridge_contracts.Core.Orders.{
  DisputeParams, DisputeRecord, DisputeOutcome, undecided, trade_proceeds,
}
use proofbridge_contracts.Core.Bonds.{bond_for, route_bond, bond_returns_to_filer}
use proofbridge_contracts.DisputeManager.State.{
  State, Disputing, Tokens, require_escrow, not_initialized, dispute_exists, not_disputed,
  no_dispute_params, arbiter_cannot_settle, challenge_closed, wrong_escrow, not_responder,
  bond_transfer_short, response_window_closed, already_responded, zero_response, already_ruled,
}
use proofbridge_contracts.DisputeManager.Payouts.{Paying, reads, writes, pay, pay_or_credit}

-- The bond's token and amount.
unfoldable pub bond_of : DisputeParams → ℕ → ℕ → ℕ → Disputing (ℕ × ℕ)
bond_of p token chain amount = do
  config ← gets (λ s. lookup (token, chain) s.bond_configs)
  elim config [
    | some c ↦ (unwrap (route_bond c amount) >>= λ bond. pure (token, bond))
    | none ↦
        (gets (λ s. s.w_native) >>= λ found.
        ok_or found not_initialized >>= λ w. pure (w, bond_for p))
  ]

-- `route_bond`, the quote.
unfoldable pub quote : ℕ → ℕ → ℕ → Disputing (ℕ × ℕ)
unfolding bond_of
quote chain token amount = do
  p ← ok_or (← gets (λ s. lookup chain s.params)) no_dispute_params
  bond_of p token chain amount

abbrev pub max : ℕ → ℕ → ℕ
max a b = if ltb a b then b else a

-- `balance(here) - before == bond as i128`: the cast is negative from 2 ^ 127 on.
abbrev pub is_exact : ℕ → ℕ → ℕ → Bool
is_exact before after bond =
    if ltb bond (2 ^ 127) then after == before + bond else after + 2 ^ 128 == before + bond

-- A call on the storage alone.
abbrev pub on_store : {World A : Type 0} → Disputing A → Paying World A
on_store m q = elim (m q.0) [ ok (a, s) ↦ ok (a, (s, q.1)) | err x ↦ err x | trap ↦ trap ]

unfoldable pub undecided_yet : DisputeOutcome → Bool
undecided_yet undecided = true
undecided_yet _ = false

-- `TradeProceeds` and `None` are not the arbiter's.
unfoldable pub arbiter_may_rule : DisputeOutcome → Bool
arbiter_may_rule undecided = false
arbiter_may_rule trade_proceeds = false
arbiter_may_rule _ = true

-- Where a bond goes: back to the filer, or to the fee pool if there is one.
abbrev pub bond_recipient : DisputeRecord → Bool → Option ℕ → ℕ
bond_recipient d true pool = d.initiator
bond_recipient d false none = d.initiator
bond_recipient d false (some pool) = pool

module _ {World : Type 0} (tokens : Tokens World) where
  -- The filer funds the bond, and the pull is exact.
  unfoldable pub pull_bond : Env → ℕ → ℕ → ℕ → Paying World (Unit {0})
  unfolding pay
  pull_bond env filer bond_token bond = do
    before ← gets (λ q. tokens.balance q.1 bond_token env.current_contract)
    pay tokens bond_token filer env.current_contract bond
    after ← gets (λ q. tokens.balance q.1 bond_token env.current_contract)
    fail_if (not (is_exact before after bond)) bond_transfer_short

  unfoldable pub open_dispute : Env → ℕ → ℕ → ℕ → ℕ → ℕ → ℕ → ℕ → ℕ → ℕ → Paying World ℕ
  unfolding require_escrow bond_of pull_bond
  open_dispute env escrow order chain filer evidence deadline buffer token amount = do
    on_store (require_escrow env escrow)
    found ← reads (λ s. lookup order s.disputes)
    fail_if (elim found [ none ↦ false | some _ ↦ true ]) dispute_exists
    p ← ok_or (← reads (λ s. lookup chain s.params)) no_dispute_params
    bond ← on_store (bond_of p token chain amount)
    require_auth env filer
    pull_bond env filer bond.0 bond.1
    period_end ← add_checked 64 env.timestamp p.challenge_period
    order_end ← add_checked 64 deadline buffer
    let filed : DisputeRecord = record {
      initiator = filer;
      bond = bond.1;
      challenge_deadline = max period_end order_end;
      initiator_evidence = evidence;
      responder_evidence = 0;
      ruling = undecided;
      escrow = escrow;
      order_deadline = deadline;
      buffer = buffer;
      bond_token = bond.0;
    }
    writes (λ s. record s { disputes = insert order filed s.disputes })
    pure bond.1

  unfoldable pub settle_bond : Env → ℕ → ℕ → DisputeOutcome → Bool → Bool → Paying World (Unit {0})
  unfolding pay_or_credit
  settle_bond env escrow order outcome filer_is_bridger return_to_filer = do
    require_auth env escrow
    d ← ok_or (← reads (λ s. lookup order s.disputes)) not_disputed
    fail_if (not (d.escrow == escrow)) wrong_escrow
    writes (λ s. record s { disputes = erase order s.disputes })
    pool ← reads (λ s. s.fee_pool)
    let to_filer = bond_returns_to_filer outcome filer_is_bridger return_to_filer
    elim (d.bond == 0) [
      | true ↦ pure tt
      | false ↦ pay_or_credit tokens env (bond_recipient d to_filer pool) d.bond_token d.bond
    ]

unfoldable pub record_response : Env → ℕ → ℕ → ℕ → ℕ → Disputing (Unit {0})
unfolding undecided_yet
record_response env escrow order responder evidence = do
  require_auth env escrow
  require_auth env responder
  d ← ok_or (← gets (λ s. lookup order s.disputes)) not_disputed
  fail_if (not (d.escrow == escrow)) wrong_escrow
  fail_if (d.initiator == responder) not_responder
  fail_if (evidence == 0) zero_response
  fail_if (not (d.responder_evidence == 0)) already_responded
  fail_if (not (undecided_yet d.ruling)) already_ruled
  fail_if (leb d.challenge_deadline env.timestamp) response_window_closed
  let answered : DisputeRecord = record d { responder_evidence = evidence }
  modify (λ s. record s { disputes = insert order answered s.disputes })

unfoldable pub resolve_dispute : Env → ℕ → DisputeOutcome → Disputing (Unit {0})
unfolding arbiter_may_rule
resolve_dispute env order outcome = do
  arbiter ← ok_or (← gets (λ s. s.arbiter)) not_initialized
  require_auth env arbiter
  fail_if (not (arbiter_may_rule outcome)) arbiter_cannot_settle
  d ← ok_or (← gets (λ s. lookup order s.disputes)) not_disputed
  fail_if (leb d.challenge_deadline env.timestamp) challenge_closed
  finalize_at ← add_checked 64 (max env.timestamp d.order_deadline) d.buffer
  let ruled : DisputeRecord = record d { ruling = outcome; challenge_deadline = finalize_at }
  modify (λ s. record s { disputes = insert order ruled s.disputes })

unfoldable pub outcome_of : Env → ℕ → State → DisputeOutcome × Bool × Option ℕ
outcome_of env order s = elim (lookup order s.disputes) [
  | none ↦ (undecided, false, none)
  | some d ↦ (d.ruling, leb d.challenge_deadline env.timestamp, some d.initiator)
]

unfoldable pub is_disputed : ℕ → State → Bool
is_disputed order s = elim (lookup order s.disputes) [ none ↦ false | some _ ↦ true ]

unfoldable pub initiator_of : ℕ → State → Option ℕ
initiator_of order s = elim (lookup order s.disputes) [ none ↦ none | some d ↦ some d.initiator ]

unfoldable pub effective_challenge_deadline : ℕ → State → ℕ
effective_challenge_deadline order s = elim (lookup order s.disputes) [
  | none ↦ 0
  | some d ↦ d.challenge_deadline
]
