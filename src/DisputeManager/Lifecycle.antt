-- ===== src/DisputeManager/Lifecycle.antt =====
-- The life of one dispute: what opens it, what a ruling and an answer need, and that it closes.
use proofbridge_contracts.Base.{
  ℕ, ◌+◌, ◌^◌, ◌≤◌, ◌<◌, ◌≡◌, ◌≢◌, refl, sym, ap, ◌∙◌, inl, inr, Bool, true, none, some, insert,
  leb, lookup, lookup-insert_self, lookup-erase_self, nat_eq, pair_eq, ◌==◌, Env, Host, ok, arith,
  Bool-cases, Option-cases,
}
use proofbridge_contracts.Core.Orders.{
  DisputeParams, DisputeRecord, DisputeOutcome, undecided, trade_proceeds,
}
use proofbridge_contracts.Core.Bonds.{bond_returns_to_filer}
use proofbridge_contracts.DisputeManager.State.{
  State, Tokens, is_escrow, get_claimable, get_token_claimable,
}
use proofbridge_contracts.DisputeManager.Payouts.{credit, pay_or_credit}
use proofbridge_contracts.DisputeManager.Disputes.{
  quote, max, open_dispute, bond_recipient, settle_bond, record_response, resolve_dispute,
  arbiter_may_rule, outcome_of,
}
use proofbridge_contracts.DisputeManager.Effects.{
  ruled_rec, record_response-Answered, resolve_dispute-Ruled,
}
use proofbridge_contracts.DisputeManager.Histories.{Reachable}
use proofbridge_contracts.DisputeManager.Soundness.{bond_of-fits, reachable-Sound}
use proofbridge_contracts.DisputeManager.Deliveries.{closed}
use proofbridge_contracts.DisputeManager.Transfers.{filed_rec, open_dispute-Opened}

-- In every state that a fresh deployment can come to, a successful filing charges exactly what the
-- quote says for the order: the module's balance in the quoted token grows by the quoted amount,
-- which is below 2 ^ 127. The new record holds that token and amount, the filer, its evidence, the
-- escrow, the order's deadline and buffer, and no ruling or answer; its challenge deadline is the later
-- of the end of the challenge period and the order's deadline and buffer.
-- The escrow is allowed and signed, the filer signed, and there was no dispute on the order.
pub open_dispute_exact :
    {World : Type 0} (host : Host) (tokens : Tokens World) (env : Env)
    (escrow order chain filer evidence deadline buffer token amount : ℕ) (s s' : State)
    (w w' : World) (charged : ℕ)
    → Reachable host tokens env.current_contract (s, w)
    → amount < 2 ^ 128
    → open_dispute tokens env escrow order chain filer evidence deadline buffer token amount (s, w)
      ≡ ok (charged, (s', w'))
    → (d : DisputeRecord) × (p : DisputeParams) × (lookup order s'.disputes ≡ some d)
      × (quote chain token amount s ≡ ok ((d.bond_token, charged), s))
      × (lookup chain s.params ≡ some p)
      × (charged < 2 ^ 127)
      × (d.bond ≡ charged)
      × (d.initiator ≡ filer)
      × (d.escrow ≡ escrow)
      × (d.initiator_evidence ≡ evidence)
      × (d.order_deadline ≡ deadline)
      × (d.buffer ≡ buffer)
      × (d.ruling ≡ undecided)
      × (d.responder_evidence ≡ 0)
      × (d.challenge_deadline ≡ max (env.timestamp + p.challenge_period) (deadline + buffer))
      × (env.timestamp + p.challenge_period ≤ d.challenge_deadline)
      × (deadline + buffer ≤ d.challenge_deadline)
      × (tokens.balance w' d.bond_token env.current_contract
          ≡ tokens.balance w d.bond_token env.current_contract + charged)
      × (env.authorized escrow ≡ true)
      × (env.authorized filer ≡ true)
      × (is_escrow escrow s ≡ true)
      × (lookup order s.disputes ≡ none)
open_dispute_exact host tokens env escrow order chain filer evidence deadline buffer token amount s
      s' w w' charged r typed h =
    let (p, bond_token, bond, same, o) =
      open_dispute-Opened tokens env s s' w w' escrow order chain filer evidence deadline buffer
        token amount h in
    let d = filed_rec env p escrow filer evidence deadline buffer bond_token bond in
    let small =
      bond_of-fits s p token chain amount bond_token bond
        (reachable-Sound host tokens env.current_contract (s, w) r) typed o.ruled_by o.priced in
    let stored : lookup order s'.disputes ≡ some d =
      ap (λ (t : State). lookup order t.disputes) o.written
      ∙ lookup-insert_self order d s.disputes in
    let quoted : quote chain token amount s ≡ ok ((bond_token, charged), s) =
      unfold quote in ground (arith, o.ruled_by, o.priced) in
    let exact : tokens.balance w' bond_token env.current_contract
        ≡ tokens.balance w bond_token env.current_contract + charged =
      ground (arith, o.exact) in
    (
      d,
      p,
      stored,
      quoted,
      o.ruled_by,
      rw same small,
      sym same,
      refl,
      refl,
      refl,
      refl,
      refl,
      refl,
      refl,
      refl,
      ground arith,
      ground arith,
      exact,
      o.escrow_signed,
      o.filer_signed,
      o.served,
      o.new,
    )

pay_or_credit_total :
    {World : Type 0} (tokens : Tokens World) (env : Env) (to token amount native : ℕ) (s : State)
    (w : World)
    → s.w_native ≡ some native
    → get_claimable to s + amount < 2 ^ 128
    → get_token_claimable to token s + amount < 2 ^ 128
    → (s' : State) × (w' : World) × (pay_or_credit tokens env to token amount (s, w)
        ≡ ok (tt, (s', w')))
      × (s'.disputes ≡ s.disputes)
pay_or_credit_total tokens env to token amount native s w named fits token_fits =
    elim (Option-cases (tokens.try_transfer w token env.current_contract to amount)) [
      | inr ((after, decoded), done) ↦ (s, after, unfold pay_or_credit in ground arith, refl)
      | inl refused ↦ elim (Bool-cases (token == native)) [
        | inl same ↦ (
          record s { claims = insert to (get_claimable to s + amount) s.claims },
          w,
          unfold pay_or_credit credit in ground arith,
          refl,
        )
        | inr other ↦ (
          record s {
            token_claims =
                insert (to, token) (get_token_claimable to token s + amount) s.token_claims;
          },
          w,
          unfold pay_or_credit credit in ground arith,
          refl,
        )
      ]
    ]

-- Whether a dispute can be closed does not depend on the ruling, the deadline or the time: when the
-- escrow that opened it calls `settle_bond` with any outcome, the wrapped native token is set and no
-- credit overflows, the call succeeds, even if the token refuses the payment or the escrow was
-- disallowed since, and the dispute is gone.
pub settle_bond_total :
    {World : Type 0} (tokens : Tokens World) (env : Env) (escrow order native : ℕ)
    (outcome : DisputeOutcome) (is_bridger returns : Bool) (d : DisputeRecord) (s : State)
    (w : World)
    → env.authorized escrow ≡ true
    → lookup order s.disputes ≡ some d
    → d.escrow ≡ escrow
    → s.w_native ≡ some native
    → ((who : ℕ) → get_claimable who s + d.bond < 2 ^ 128)
    → ((who : ℕ) → get_token_claimable who d.bond_token s + d.bond < 2 ^ 128)
    → (s' : State) × (w' : World) × (settle_bond tokens env escrow order outcome is_bridger returns
          (s, w)
        ≡ ok (tt, (s', w')))
      × (lookup order s'.disputes ≡ none)
settle_bond_total tokens env escrow order native outcome is_bridger returns d s w signed found same
      named fits token_fits =
    let to = bond_recipient d (bond_returns_to_filer outcome is_bridger returns) s.fee_pool in
    let (s', w', paid, kept) =
      pay_or_credit_total tokens env to d.bond_token d.bond native (closed order s) w named
        (fits to) (token_fits to) in
    let gone : lookup order (closed order s).disputes ≡ none = lookup-erase_self order s.disputes in
    elim (Bool-cases (d.bond == 0)) [
      | inl free ↦ (closed order s, w, unfold settle_bond in ground arith, gone)
      | inr owed ↦ (s', w', unfold settle_bond in ground (arith, paid), rw kept gone)
    ]

-- A successful ruling was authorized by the arbiter before the challenge deadline and is neither
-- `TradeProceeds` nor `None`; afterwards the escrow reads that ruling and the filer, and reads it as
-- over exactly from the later of the ruling and the order's deadline, plus the buffer, on.
pub resolve_dispute_opens :
    (env later : Env) (order : ℕ) (outcome : DisputeOutcome) (s s' : State)
    → resolve_dispute env order outcome s ≡ ok (tt, s')
    → (d : DisputeRecord) × (arbiter : ℕ) × (lookup order s.disputes ≡ some d)
      × (s.arbiter ≡ some arbiter)
      × (env.authorized arbiter ≡ true)
      × (env.timestamp < d.challenge_deadline)
      × (outcome ≢ trade_proceeds)
      × (outcome ≢ undecided)
      × (outcome_of later order s' ≡ (
        outcome,
        leb (max env.timestamp d.order_deadline + d.buffer) later.timestamp,
        some d.initiator,
      ))
resolve_dispute_opens env later order outcome s s' h =
    let (d, arbiter, r) = resolve_dispute-Ruled env s s' order outcome h in
    (
      d,
      arbiter,
      r.open_before,
      r.named,
      r.arbiter_signed,
      r.in_time,
      unfold arbiter_may_rule in ground (arith, r.may_rule),
      unfold arbiter_may_rule in ground (arith, r.may_rule),
      unfold outcome_of in
          ground (arith, r.written, lookup-insert_self order (ruled_rec env outcome d) s.disputes),
    )

-- The answer slot takes one answer: after a successful answer to a dispute, no other answer to it
-- succeeds on that storage, by whomever, through whichever escrow and whenever.
pub one_answer :
    (env later : Env) (escrow order responder evidence escrow2 responder2 evidence2 : ℕ)
    (s s' : State) (r : Unit {0} × State)
    → record_response env escrow order responder evidence s ≡ ok (tt, s')
    → record_response later escrow2 order responder2 evidence2 s' ≢ ok r
one_answer env later escrow order responder evidence escrow2 responder2 evidence2 s s' r h again =
    let (d, a) = record_response-Answered env s s' escrow order responder evidence h in
    let (d2, a2) = record_response-Answered later s' r.1 escrow2 order responder2 evidence2 again in
    ground (
      arith,
      a.written,
      a.nonzero,
      a2.first,
      a2.open_before,
      lookup-insert_self order (record d { responder_evidence = evidence }) s.disputes,
    )
