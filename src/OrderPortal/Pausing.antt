-- ===== src/OrderPortal/Pausing.antt =====
-- A pause stops no exit.
use proofbridge_contracts.Base.{
  ℕ, ◌≡◌, refl, Bool, true, nat_eq, pair_eq, Env, ok, err, trap, ◌>>=◌, arith, ap, ◌∙◌, Result,
}
use proofbridge_contracts.Core.Faults.{contract_paused}
use proofbridge_contracts.Escrow.Peers.{Peers}
use proofbridge_contracts.Escrow.Payments as payments
use proofbridge_contracts.Escrow.Payments.{stored}
use proofbridge_contracts.Core.Orders.{ContractConfig}
use proofbridge_contracts.Escrow.Legs as legs
use proofbridge_contracts.Escrow.Termination as termination
use proofbridge_contracts.Escrow.State.{
  set_order_status, set_in_flight, set_claimable, set_nullifier_used, set_settled_recorded,
}
use proofbridge_contracts.OrderPortal.State.{
  State, OrderParams, OrderPortalError, Portal, ops, get_config, shared,
}
use proofbridge_contracts.OrderPortal.Checks.{
  check_unlock, check_evidence, pay_maker, refund_bridger, claim,
}
use proofbridge_contracts.OrderPortal.Orders.{
  order_hash, create_order, unlock, refund_by_cancel, present_settled, pay_maker_by_forfeit,
}

-- The storage under a pause or without one.
abbrev pub with_paused : Bool → State → State
with_paused b s = record s { common = record s.common { paused = b } }

abbrev pub carry :
    {World A : Type 0}
    → Bool
    → Result OrderPortalError (A × (State × World))
    → Result OrderPortalError (A × (State × World))
carry b (ok (a, (s, w))) = ok (a, (with_paused b s, w))
carry b (err x) = err x
carry b trap = trap

-- The same answer and the same changes, whatever the pause.
pub record Carries {World A : Type 0} (b : Bool) (m : Portal World A) : Type 0 where
  pub carried : (s : State) (w : World) → m (with_paused b s, w) ≡ carry b (m (s, w))

module _ {World : Type 0} (b : Bool) where
  abbrev then_run :
      {A B : Type 0}
      → (A → Portal World B)
      → Result OrderPortalError (A × (State × World))
      → Result OrderPortalError (B × (State × World))
  then_run f r = elim r [ ok (a, q) ↦ f a q | err x ↦ err x | trap ↦ trap ]

  then_run-carry :
      {A B : Type 0} (f : A → Portal World B) (r : Result OrderPortalError (A × (State × World)))
      → ((a : A) → Carries b (f a))
      → then_run f (carry b r) ≡ carry b (then_run f r)
  then_run-carry f (ok (a, (s, w))) next = (next a).carried s w
  then_run-carry f (err x) next = refl
  then_run-carry f trap next = refl

  pub Carries->>= :
      {A B : Type 0} {m : Portal World A} {f : A → Portal World B}
      → Carries b m
      → ((a : A) → Carries b (f a))
      → Carries b (m >>= f)
  Carries->>= {m = m} {f = f} first next = record {
    carried = λ s w. ap (then_run f) (first.carried s w) ∙ then_run-carry f (m (s, w)) next;
  }

  config-Carries : Carries b (get_config {World = World})
  unfolding get_config
  config-Carries = record { carried = λ s w. ground arith }

module _ {World : Type 0} (peers : Peers World) (env : Env) (config : ContractConfig)
    (b : Bool) where
  evidence-Carries :
      (order : ℕ) (p : OrderParams) (domain root proof : ℕ)
      → Carries b (check_evidence peers config order p domain root proof)
  unfolding check_evidence termination.require_presentable legs.require_anchored legs.verify_proof
  evidence-Carries order p domain root proof = record { carried = λ s w. ground arith }

  cancel-Carries :
      (order account : ℕ) → Carries b (ops {World = World} (stored (legs.cancel order account)))
  unfolding legs.cancel set_order_status legs.remove_claim legs.count_out set_in_flight
  cancel-Carries order account = record { carried = λ s w. ground arith }

  fill-Carries :
      (order account : ℕ) → Carries b (ops {World = World} (stored (legs.fill order account)))
  unfolding legs.fill set_order_status legs.remove_claim legs.count_out set_in_flight
  fill-Carries order account = record { carried = λ s w. ground arith }

  delivery-Carries :
      (native recipient token amount : ℕ)
      → Carries b (ops (payments.pay_or_credit peers env native recipient token amount))
  unfolding payments.pay_or_credit payments.try_transfer_to_recipient set_claimable
  delivery-Carries native recipient token amount = record { carried = λ s w. ground arith }

  unlock_check-Carries :
      (order : ℕ) (p : OrderParams) (nullifier root proof cosig : ℕ)
      → Carries b (check_unlock peers env config order p nullifier root proof cosig)
  unfolding check_unlock termination.order_timing legs.build_public_inputs legs.is_canonical
      legs.verify_proof
  unlock_check-Carries order p nullifier root proof cosig = record { carried = λ s w. ground arith }

  spend-Carries : (n : ℕ) → Carries b (ops {World = World} (stored (set_nullifier_used n)))
  unfolding set_nullifier_used
  spend-Carries n = record { carried = λ s w. ground arith }

  settle-Carries :
      (order : ℕ) → Carries b (ops {World = World} (stored (set_settled_recorded order)))
  unfolding set_settled_recorded
  settle-Carries order = record { carried = λ s w. ground arith }

module _ {World : Type 0} (peers : Peers World) (hash : ℕ → ℕ → OrderParams → ℕ) (env : Env)
    (b : Bool) where
  unlock-Carries :
      (p : OrderParams) (nullifier root proof cosig : ℕ)
      → Carries b (unlock peers hash env p nullifier root proof cosig)
  unfolding unlock pay_maker
  unlock-Carries p nullifier root proof cosig = Carries->>= b (config-Carries b) λ c.
      let order = order_hash hash env c p in
      Carries->>= b (unlock_check-Carries peers env c b order p nullifier root proof cosig) λ _.
        Carries->>= b (spend-Carries peers env c b nullifier) λ _.
          Carries->>= b (fill-Carries peers env c b order p.bridger) λ _.
            delivery-Carries peers env c b c.w_native_token p.ad_recipient p.order_chain_token
              p.amount

  refund-Carries :
      (p : OrderParams) (root proof : ℕ) → Carries b (refund_by_cancel peers hash env p root proof)
  unfolding refund_by_cancel refund_bridger
  refund-Carries p root proof = Carries->>= b (config-Carries b) λ c.
      let order = order_hash hash env c p in
      Carries->>= b (evidence-Carries peers env c b order p legs.leaf_domain_cancel root proof) λ _.
        Carries->>= b (cancel-Carries peers env c b order p.bridger) λ _.
          delivery-Carries peers env c b c.w_native_token p.bridger p.order_chain_token p.amount

  present-Carries :
      (p : OrderParams) (root proof : ℕ) → Carries b (present_settled peers hash env p root proof)
  unfolding present_settled pay_maker
  present-Carries p root proof = Carries->>= b (config-Carries b) λ c.
      let order = order_hash hash env c p in
      Carries->>= b (evidence-Carries peers env c b order p legs.leaf_domain_settled root proof)
        λ _. Carries->>= b (fill-Carries peers env c b order p.bridger) λ _.
          delivery-Carries peers env c b c.w_native_token p.ad_recipient p.order_chain_token
            p.amount

  forfeit-Carries :
      (p : OrderParams) (root proof : ℕ)
      → Carries b (pay_maker_by_forfeit peers hash env p root proof)
  unfolding pay_maker_by_forfeit pay_maker
  forfeit-Carries p root proof = Carries->>= b (config-Carries b) λ c.
      let order = order_hash hash env c p in
      Carries->>= b (evidence-Carries peers env c b order p legs.leaf_domain_forfeit root proof)
        λ _. Carries->>= b (fill-Carries peers env c b order p.bridger) λ _.
          Carries->>= b (settle-Carries peers env c b order) λ _.
            delivery-Carries peers env c b c.w_native_token p.ad_recipient p.order_chain_token
              p.amount

  claim-Carries : (recipient token : ℕ) → Carries b (claim peers env recipient token)
  unfolding claim get_config payments.claim payments.bytes32_to_account_address payments.transfer
      set_claimable
  claim-Carries recipient token = record { carried = λ s w. ground arith }

  -- A pause refuses every creation, and changes neither the answer nor the effect of an unlock, of an
  -- ending by evidence, or of a claim.
  pub pause_spares_exits :
      (s : State) (w : World) (p : OrderParams) (nullifier root proof cosig recipient token : ℕ)
      → (create_order peers hash env p (with_paused true s, w) ≡ err (shared contract_paused))
        × (unlock peers hash env p nullifier root proof cosig (with_paused b s, w)
            ≡ carry b (unlock peers hash env p nullifier root proof cosig (s, w)))
        × (refund_by_cancel peers hash env p root proof (with_paused b s, w)
            ≡ carry b (refund_by_cancel peers hash env p root proof (s, w)))
        × (present_settled peers hash env p root proof (with_paused b s, w)
            ≡ carry b (present_settled peers hash env p root proof (s, w)))
        × (pay_maker_by_forfeit peers hash env p root proof (with_paused b s, w)
            ≡ carry b (pay_maker_by_forfeit peers hash env p root proof (s, w)))
        × (claim peers env recipient token (with_paused b s, w)
            ≡ carry b (claim peers env recipient token (s, w)))
  pause_spares_exits s w p nullifier root proof cosig recipient token = (
    unfold create_order in refl,
    (unlock-Carries p nullifier root proof cosig).carried s w,
    (refund-Carries p root proof).carried s w,
    (present-Carries p root proof).carried s w,
    (forfeit-Carries p root proof).carried s w,
    (claim-Carries recipient token).carried s w,
  )
