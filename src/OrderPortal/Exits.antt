-- ===== src/OrderPortal/Exits.antt =====
-- Every deposit that is held can leave: the counts of open positions never stop an ending.
use proofbridge_contracts.Base.{
  ℕ, ◌+◌, ◌<◌, ◌≤◌, ◌^◌, ◌≡◌, true, some, lookup, total, total-insert, total-erase, nat_eq, pair_eq,
  ◌==◌, if◌then◌else◌, lookup-insert, lookup-insert_self, subst, refl, Env, Host, ok, arith,
  Bool-cases, Option-cases, inl, inr,
}
use proofbridge_contracts.Core.Orders.{ContractConfig, OrderRecord, cancelled}
use proofbridge_contracts.Escrow.State.{
  get_order, get_order_status, get_in_flight, get_claimable, set_order_status, set_in_flight,
  set_claimable,
}
use proofbridge_contracts.Escrow.Peers.{Peers}
use proofbridge_contracts.Escrow.Payments as payments
use proofbridge_contracts.Escrow.Payments.{token_contract}
use proofbridge_contracts.Escrow.Termination as termination
use proofbridge_contracts.Escrow.Legs as legs
use proofbridge_contracts.OrderPortal.State.{State, OrderParams, get_config, ops}
use proofbridge_contracts.OrderPortal.Checks.{check_evidence, refund_bridger}
use proofbridge_contracts.OrderPortal.Orders.{order_hash, refund_by_cancel}
use proofbridge_contracts.OrderPortal.Payouts.{
  with_credit, Received, Delivered-Received, Delivered, direct, credited,
}
use proofbridge_contracts.OrderPortal.Endings.{
  Evidenced, is_notarized, ended, refund_by_cancel-Presented,
}
use proofbridge_contracts.OrderPortal.Histories.{
  Book, Call, Portfolio, Deployment, After, now, later, calls, elsewhere, deployed,
}
use proofbridge_contracts.OrderPortal.Changes.{
  Effect, quiet, recorded, initialized, created, ends, claimed, step-Effect,
}
use proofbridge_contracts.OrderPortal.Solvency.{IsHonest}
use proofbridge_contracts.OrderPortal.Holding.{Delivered-keeps, Matches, held_params}
use proofbridge_contracts.OrderPortal.Backing.{After-IsSound, deployed-IsSound}

-- One for each held deposit of the account.
abbrev pub one_of : ℕ → ℕ → OrderParams → ℕ
one_of account _ p = if account == p.bridger then 1 else 0

-- No account has more held deposits than its count of open positions.
abbrev pub Counted : Book → State → Type 0
Counted book s = (account : ℕ) → total (one_of account) book ≤ get_in_flight account s.common

Delivered-counts :
    {World : Type 0} (peers : Peers World) (env : Env) (s s' : State) (w w' : World)
    (native recipient token amount : ℕ)
    → Delivered peers env s s' w w' native recipient token amount
    → s'.common.in_flight ≡ s.common.in_flight
Delivered-counts peers env s s' w w' native recipient token amount (direct _ _ e) = ground arith
Delivered-counts peers env s s' w w' native recipient token amount (credited _ _ e) = ground arith

module _ {World : Type 0} (peers : Peers World) (hash : ℕ → ℕ → OrderParams → ℕ) (d : Deployment)
    (law : IsHonest peers hash d) (env : Env) (at : env.current_contract ≡ d.here)
    (book book' : Book) (s s' : State) (w w' : World) (m : Matches hash d book s)
    (n : Counted book s) where
  Effect-Counted : {c : Call} → Effect peers hash env d c book book' s s' w w' → Counted book' s'
  Effect-Counted (quiet q _ same _) = λ a. ground (arith, n a, q.in_flight_kept)
  Effect-Counted (recorded _ _ _ _ _ _ _ _ _ stored _ same) = λ a. ground (arith, n a, stored)
  Effect-Counted (initialized _ _ _ e _ same _) = λ a. ground (arith, n a)
  Effect-Counted (created p config known small _ c same) = λ a.
      let h = order_hash hash env config p in
      let (version, e) = c.written in
      ground (
        arith,
        n a,
        total-insert (one_of a) h p book,
        lookup-insert p.bridger a (get_in_flight p.bridger s.common + 1) s.common.in_flight,
      )
  Effect-Counted (ends p recipient e known _ same) = λ a.
      let (named, found, native) =
        held_params peers hash d law env at book book' s s' w w' m p recipient e known in
      ground (
        arith,
        n a,
        found,
        total-erase (one_of a) (order_hash hash env e.config p) book,
        e.leaves.count_left a,
        Delivered-counts peers env e.left s' w w' _ _ _ _ e.delivered,
      )
  Effect-Counted (claimed _ _ _ _ c same) = λ a. ground (arith, n a, c.written)

module _ {World : Type 0} (host : Host) (peers : Peers World) (hash : ℕ → ℕ → OrderParams → ℕ)
    (d : Deployment) (law : IsHonest peers hash d) where
  After-Counted :
      (w : World) {b : Portfolio World} → After host peers hash d (deployed w) b → Counted b.0 b.1.0
  After-Counted w now a = ground arith
  After-Counted w (later past (calls env c (book, (s, w')) at typed)) a =
      let m =
        (After-IsSound host peers hash d law past (deployed-IsSound host peers hash d law w)).0 in
      Effect-Counted peers hash d law env at book _ s _ w' _ m (After-Counted w past)
        (step-Effect host peers hash env d book s w' c typed) a
  After-Counted w (later past (elsewhere book s w' w'' kept)) a = After-Counted w past a

module _ {World : Type 0} (peers : Peers World) (env : Env) (s : State) (w : World) where
  -- Unless the credit overflows, a delivery never fails.
  delivery_runs :
      (native recipient token amount : ℕ)
      → get_claimable recipient token s.common + amount < 2 ^ 128
      → (q : State × World) × (ops
            (payments.pay_or_credit peers env native recipient token amount)
            (s, w)
          ≡ ok (tt, q))
  unfolding payments.pay_or_credit payments.try_transfer_to_recipient set_claimable
  delivery_runs native recipient token amount small =
      let credit =
        with_credit recipient token (get_claimable recipient token s.common + amount) s in
      elim (Bool-cases (recipient == 0)) [
        | inl nobody ↦ ((credit, w), ground arith)
        | inr somebody ↦
            let contract = token_contract peers native token in
            let to = peers.account_address recipient in
            elim (Option-cases
              (peers.tokens.try_transfer w contract env.current_contract to amount)) [
                | inl refused ↦ ((credit, w), ground arith)
                | inr ((after, decoded), moved) ↦ ((s, after), ground arith)
              ]
      ]

module _ {World : Type 0} (peers : Peers World) (hash : ℕ → ℕ → OrderParams → ℕ) (env : Env)
    (s : State) (w : World) where
  refund_runs :
      (p : OrderParams) (root proof : ℕ) (config : ContractConfig)
      → s.common.config ≡ some config
      → Evidenced peers s w config
          (order_hash hash env config p)
          p
          legs.leaf_domain_cancel
          root
          proof
      → 1 ≤ get_in_flight p.bridger s.common
      → get_claimable p.bridger p.order_chain_token s.common + p.amount < 2 ^ 128
      → (q : State × World) × (refund_by_cancel peers hash env p root proof (s, w) ≡ ok (tt, q))
  refund_runs p root proof config found e counted small =
      let left = ended (order_hash hash env config p) cancelled p.bridger s in
      let (q, runs) =
        delivery_runs peers env left w config.w_native_token p.bridger p.order_chain_token p.amount
          small in
      (
        q,
        unfold refund_by_cancel get_config check_evidence legs.cancel refund_bridger
              termination.require_presentable legs.require_anchored legs.verify_proof
              set_order_status legs.remove_claim legs.count_out set_in_flight in
            ground (arith, runs, e.presentable, e.anchored, e.proved),
      )

-- At any portfolio that a fresh deployment comes to: evidence of the cancellation of a held order,
-- under a notarized root, refunds it whatever the token contract does, unless the bridger's credit
-- overflows. The order is then cancelled, and its amount has gone to the bridger: by a transfer to the
-- bridger's account, or, where the bridger's bytes name no account or the token contract refuses,
-- whole onto the bridger's credit.
pub refund_live :
    {World : Type 0} (host : Host) (peers : Peers World) (hash : ℕ → ℕ → OrderParams → ℕ)
    (d : Deployment) (env : Env) (w : World) {b : Portfolio World} (p : OrderParams)
    (root proof : ℕ) (config : ContractConfig)
    → IsHonest peers hash d
    → After host peers hash d (deployed w) b
    → b.1.0.common.config ≡ some config
    → lookup (order_hash hash env config p) b.0 ≡ some p
    → is_notarized peers b.1.0 b.1.1 p.ad_chain_id root ≡ true
    → peers.verify_proof b.1.1 config.verifier
        (legs.build_event_public_inputs peers root
          (order_hash hash env config p)
          legs.leaf_domain_cancel)
        proof
      ≡ true
    → get_claimable p.bridger p.order_chain_token b.1.0.common + p.amount < 2 ^ 128
    → (q : State × World) × (refund_by_cancel peers hash env p root proof b.1 ≡ ok (tt, q))
      × (get_order_status (order_hash hash env config p) q.0.common ≡ cancelled)
      × Received peers env b.1.0 q.0 b.1.1 q.1 config.w_native_token p.bridger p.order_chain_token
          p.amount
refund_live host peers hash d env w {b = (book, (s, w'))} p root proof config law past found held
      anchored proved small =
    let order = order_hash hash env config p in
    let (m, b) =
      After-IsSound host peers hash d law past (deployed-IsSound host peers hash d law w) in
    let live = (m.entered order p held).0 in
    let counted : 1 ≤ get_in_flight p.bridger s.common = ground (
      arith,
      held,
      After-Counted host peers hash d law w past p.bridger,
      total-erase (one_of p.bridger) order book,
    ) in
    let evidence : Evidenced peers s w' config order p legs.leaf_domain_cancel root proof = record {
      presentable = live;
      anchored = anchored;
      proved = proved;
    } in
    let (q, runs) =
      refund_runs peers hash env s w' p root proof config found evidence counted small in
    let (config', e) = refund_by_cancel-Presented peers hash env s q.0 w' q.1 p root proof runs in
    let kept = (Delivered-keeps peers env _ q.0 w' q.1 _ _ _ _ e.delivered).0 in
    let rec : OrderRecord = record (get_order order s.common) { status = cancelled } in
    (
      q,
      runs,
      ground (arith, kept, found, e.configured, lookup-insert_self order rec s.common.orders),
      subst (λ n. Received peers env s q.0 w' q.1 n p.bridger p.order_chain_token p.amount)
          (ground (arith, found, e.configured))
          (Delivered-Received peers env s q.0 w' q.1 _ _ _ _ _ refl e.delivered),
    )
