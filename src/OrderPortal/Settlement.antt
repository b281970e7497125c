-- ===== src/OrderPortal/Settlement.antt =====
-- An order's SETTLED leaf is appended once at most, and never for an order that was refunded or whose
-- maker was paid by forfeit.
use proofbridge_contracts.Base.{
  ℕ, ◌≡◌, ◌≢◌, ◌⊎◌, inl, inr, true, false, some, nat_eq, lookup-insert, lookup-insert_self, Env,
  Host, ok, arith,
}
use proofbridge_contracts.Core.Orders.{ContractConfig, OrderRecord, filled, cancelled}
use proofbridge_contracts.Escrow.State.{
  get_order, get_order_status, is_settled_recorded, set_settled_recorded,
}
use proofbridge_contracts.Escrow.Legs as legs
use proofbridge_contracts.Escrow.Peers.{Peers}
use proofbridge_contracts.OrderPortal.State.{State, OrderParams, get_config}
use proofbridge_contracts.OrderPortal.Orders.{
  order_hash, refund_by_cancel, pay_maker_by_forfeit, record_settled,
}
use proofbridge_contracts.OrderPortal.Payouts.{Delivered, direct, credited}
use proofbridge_contracts.OrderPortal.Endings.{
  no_settlement, refund_by_cancel-Presented, pay_maker_by_forfeit-Presented,
}
use proofbridge_contracts.OrderPortal.Holding.{Delivered-keeps}
use proofbridge_contracts.OrderPortal.Finality.{terminal_stays}
use proofbridge_contracts.OrderPortal.Histories.{
  Book, Call, Portfolio, Deployment, After, now, later, calls, elsewhere,
}
use proofbridge_contracts.OrderPortal.Changes.{
  Effect, quiet, recorded, initialized, created, ends, claimed, step-Effect,
}

Delivered-settled :
    {World : Type 0} (peers : Peers World) (env : Env) (s s' : State) (w w' : World)
    (native recipient token amount : ℕ)
    → Delivered peers env s s' w w' native recipient token amount
    → s'.common.settled ≡ s.common.settled
Delivered-settled peers env s s' w w' native recipient token amount (direct _ _ e) = ground arith
Delivered-settled peers env s s' w w' native recipient token amount (credited _ _ e) = ground arith

module _ {World : Type 0} (peers : Peers World) (hash : ℕ → ℕ → OrderParams → ℕ) (env : Env)
    (d : Deployment) (book book' : Book) (s s' : State) (w w' : World) where
  Effect-settled :
      {c : Call} (order : ℕ)
      → is_settled_recorded order s.common ≡ true
      → Effect peers hash env d c book book' s s' w w'
      → is_settled_recorded order s'.common ≡ true
  Effect-settled order done (quiet q _ _ _) = ground (arith, q.settled_kept)
  Effect-settled order done (recorded _ _ _ o _ _ _ _ _ e _ _) =
      ground (arith, lookup-insert o order true s.common.settled)
  Effect-settled order done (initialized _ _ _ e _ _ _) = ground arith
  Effect-settled order done (created _ _ _ _ _ c _) = let (version, e) = c.written in ground arith
  Effect-settled order done (ends p _ e _ _ _) = ground (
    arith,
    Delivered-settled peers env e.left s' w w' _ _ _ _ e.delivered,
    e.leaves.settled_stays order,
  )
  Effect-settled order done (claimed _ _ _ _ c _) = ground (arith, c.written)

module _ {World : Type 0} (peers : Peers World) (hash : ℕ → ℕ → OrderParams → ℕ) (env : Env)
    (s s' : State) (w w' : World) where
  -- What recording a settlement has checked and written.
  record_settled-ok :
      (p : OrderParams) (config : ContractConfig)
      → record_settled peers hash env p (s, w) ≡ ok (tt, (s', w'))
      → s.common.config ≡ some config
      → (get_order_status (order_hash hash env config p) s.common ≡ filled)
        × (is_settled_recorded (order_hash hash env config p) s.common ≡ false)
        × (s' ≡ no_settlement (order_hash hash env config p) s)
  unfolding record_settled get_config legs.record_settled set_settled_recorded legs.append_to_merkle
  record_settled-ok p config h found = ground arith

module _ {World : Type 0} (host : Host) (peers : Peers World) (hash : ℕ → ℕ → OrderParams → ℕ)
    (d : Deployment) where
  settled_stays :
      (order : ℕ) {b b' : Portfolio World}
      → After host peers hash d b b'
      → is_settled_recorded order b.1.0.common ≡ true
      → is_settled_recorded order b'.1.0.common ≡ true
  settled_stays order now done = done
  settled_stays order (later past (calls env c (book, (s, w)) at typed)) done =
      Effect-settled peers hash env d book _ s _ w _ order (settled_stays order past done)
        (step-Effect host peers hash env d book s w c typed)
  settled_stays order (later past (elsewhere book s w w' kept)) done = settled_stays order past done

  After-barred :
      (order : ℕ) {b b' : Portfolio World}
      → After host peers hash d b b'
      → (is_settled_recorded order b.1.0.common ≡ true)
        ⊎ (get_order_status order b.1.0.common ≡ cancelled)
      → (env : Env) (p : OrderParams) (config : ContractConfig) (q : State × World)
      → b'.1.0.common.config ≡ some config
      → order_hash hash env config p ≡ order
      → record_settled peers hash env p b'.1 ≢ ok (tt, q)
  After-barred order {b' = (book, (s, w))} past (inl done) env p config q found named h = ground (
    arith,
    settled_stays order past done,
    record_settled-ok peers hash env s q.0 w q.1 p config h found,
  )
  After-barred order {b' = (book, (s, w))} past (inr over) env p config q found named h = ground (
    arith,
    terminal_stays host peers hash d order past,
    record_settled-ok peers hash env s q.0 w q.1 p config h found,
  )

  -- Once an order's settlement is recorded, or its maker is paid by forfeit, or its bridger is
  -- refunded, no later call records a settlement of an order with its hash.
  pub settlement_barred :
      (env env' : Env) (p p' : OrderParams) (root proof : ℕ) (config config' : ContractConfig)
      (book : Book) (q q' r : State × World) (b : Portfolio World)
      → (record_settled peers hash env p q ≡ ok (tt, q'))
        ⊎ (pay_maker_by_forfeit peers hash env p root proof q ≡ ok (tt, q'))
        ⊎ (refund_by_cancel peers hash env p root proof q ≡ ok (tt, q'))
      → q.0.common.config ≡ some config
      → After host peers hash d (book, q') b
      → b.1.0.common.config ≡ some config'
      → order_hash hash env' config' p' ≡ order_hash hash env config p
      → record_settled peers hash env' p' b.1 ≢ ok (tt, r)
  settlement_barred env env' p p' root proof config config' book (s, w) (s', w') r b (inl h) found
        past found' named =
      let order = order_hash hash env config p in
      let done = (record_settled-ok peers hash env s s' w w' p config h found).2 in
      After-barred order past
        (inl (ground (arith, done, lookup-insert_self order true s.common.settled))) env' p' config'
        r found' named
  settlement_barred env env' p p' root proof config config' book (s, w) (s', w') r b (inr (inl h))
        found past found' named =
      let order = order_hash hash env config p in
      let (named_config, e) =
        pay_maker_by_forfeit-Presented peers hash env s s' w w' p root proof h in
      let kept = Delivered-settled peers env _ s' w w' _ _ _ _ e.delivered in
      After-barred order past
        (inl (
          ground
            (arith, kept, found, e.configured, lookup-insert_self order true s.common.settled)))
        env' p' config' r found' named
  settlement_barred env env' p p' root proof config config' book (s, w) (s', w') r b (inr (inr h))
        found past found' named =
      let order = order_hash hash env config p in
      let (named_config, e) = refund_by_cancel-Presented peers hash env s s' w w' p root proof h in
      let kept = (Delivered-keeps peers env _ s' w w' _ _ _ _ e.delivered).0 in
      let rec : OrderRecord = record (get_order order s.common) { status = cancelled } in
      After-barred order past
        (inr
          (ground (arith, kept, found, e.configured, lookup-insert_self order rec s.common.orders)))
        env' p' config' r found' named
