-- ===== src/OrderPortal/Finality.antt =====
-- An order that has ended stays ended, and a nullifier that is used stays used.
use proofbridge_contracts.Base.{
  ℕ, ◌≡◌, ◌≢◌, refl, ap, ◌∙◌, true, some, nat_eq, lookup-insert, Env, Host, ok, arith,
}
use proofbridge_contracts.Core.Orders.{ContractConfig, OrderRecord}
use proofbridge_contracts.Escrow.State.{opened_rec, get_order, get_order_status, is_nullifier_used}
use proofbridge_contracts.Escrow.Peers.{Peers}
use proofbridge_contracts.OrderPortal.State.{State, OrderParams}
use proofbridge_contracts.OrderPortal.Orders.{
  order_hash, create_order, unlock, refund_by_cancel, present_settled, pay_maker_by_forfeit,
}
use proofbridge_contracts.OrderPortal.Deposits.{create_order-ok}
use proofbridge_contracts.OrderPortal.Payouts.{Delivered, direct, credited}
use proofbridge_contracts.OrderPortal.Endings.{
  refund_by_cancel-Presented, present_settled-Presented, pay_maker_by_forfeit-Presented,
}
use proofbridge_contracts.OrderPortal.Unlocking.{unlock-Unlocked}
use proofbridge_contracts.OrderPortal.Leaving.{is_terminal}
use proofbridge_contracts.OrderPortal.Histories.{
  Book, Call, Portfolio, Deployment, After, now, later, calls, elsewhere,
}
use proofbridge_contracts.OrderPortal.Changes.{
  Effect, quiet, recorded, initialized, created, ends, claimed, step-Effect,
}

module _ {World : Type 0} (peers : Peers World) (env : Env) (s s' : State) (w w' : World) where
  -- A delivery touches no order and no nullifier.
  Delivered-kept :
      (native recipient token amount : ℕ)
      → Delivered peers env s s' w w' native recipient token amount
      → (s'.common.orders ≡ s.common.orders) × (s'.common.nullifiers ≡ s.common.nullifiers)
  Delivered-kept native recipient token amount (direct _ _ e) = ground arith
  Delivered-kept native recipient token amount (credited _ _ e) = ground arith

module _ {World : Type 0} (peers : Peers World) (hash : ℕ → ℕ → OrderParams → ℕ) (env : Env)
    (d : Deployment) (book book' : Book) (s s' : State) (w w' : World) where
  Effect-terminal :
      {c : Call} (order : ℕ)
      → is_terminal (get_order_status order s.common) ≡ true
      → Effect peers hash env d c book book' s s' w w'
      → get_order_status order s'.common ≡ get_order_status order s.common
  Effect-terminal order over (quiet q _ _ _) = ground (arith, q.orders_kept)
  Effect-terminal order over (recorded _ _ _ _ _ _ _ _ _ stored _ _) = ground (arith, stored)
  Effect-terminal order over (initialized _ _ _ e _ _ _) = ground arith
  Effect-terminal order over (created p config _ _ _ c _) =
      let (version, e) = c.written in
      ground (
        arith,
        c.new,
        lookup-insert (order_hash hash env config p) order (opened_rec env version 0 0 0)
            s.common.orders,
      )
  Effect-terminal order over (ends p _ e _ _ _) =
      let h = order_hash hash env e.config p in
      let rec : OrderRecord = record (get_order h s.common) { status = e.status } in
      ground (
        arith,
        (Delivered-kept peers env e.left s' w w' _ _ _ _ e.delivered).0,
        e.leaves.orders_now,
        e.leaves.was_presentable,
        lookup-insert h order rec s.common.orders,
      )
  Effect-terminal order over (claimed _ _ _ _ c _) = ground (arith, c.written)

  Effect-spent :
      {c : Call} (n : ℕ)
      → is_nullifier_used n s.common ≡ true
      → Effect peers hash env d c book book' s s' w w'
      → is_nullifier_used n s'.common ≡ true
  Effect-spent n used (quiet q _ _ _) = ground (arith, q.nullifiers_kept)
  Effect-spent n used (recorded _ _ _ _ _ _ _ _ _ stored _ _) = ground (arith, stored)
  Effect-spent n used (initialized _ _ _ e _ _ _) = ground arith
  Effect-spent n used (created p config _ _ _ c _) = let (version, e) = c.written in ground arith
  Effect-spent n used (ends p _ e _ _ _) = ground (
    arith,
    (Delivered-kept peers env e.left s' w w' _ _ _ _ e.delivered).1,
    e.leaves.nullifiers_stay n,
  )
  Effect-spent n used (claimed _ _ _ _ c _) = ground (arith, c.written)

module _ {World : Type 0} (host : Host) (peers : Peers World) (hash : ℕ → ℕ → OrderParams → ℕ)
    (d : Deployment) where
  pub terminal_stays :
      (order : ℕ) {b b' : Portfolio World}
      → After host peers hash d b b'
      → is_terminal (get_order_status order b.1.0.common) ≡ true
      → get_order_status order b'.1.0.common ≡ get_order_status order b.1.0.common
  terminal_stays order now over = refl
  terminal_stays order (later past (calls env c (book, (s, w)) at typed)) over =
      let before = terminal_stays order past over in
      Effect-terminal peers hash env d book _ s _ w _ order (ap is_terminal before ∙ over)
        (step-Effect host peers hash env d book s w c typed)
      ∙ before
  terminal_stays order (later past (elsewhere book s w w' kept)) over =
      terminal_stays order past over

  spent_stays :
      (n : ℕ) {b b' : Portfolio World}
      → After host peers hash d b b'
      → is_nullifier_used n b.1.0.common ≡ true
      → is_nullifier_used n b'.1.0.common ≡ true
  spent_stays n now used = used
  spent_stays n (later past (calls env c (book, (s, w)) at typed)) used =
      Effect-spent peers hash env d book _ s _ w _ n (spent_stays n past used)
        (step-Effect host peers hash env d book s w c typed)
  spent_stays n (later past (elsewhere book s w w' kept)) used = spent_stays n past used

  -- An order with a terminal status refuses every call that would pay its deposit again, and cannot
  -- be created again.
  pub ended_for_good :
      (env : Env) (p : OrderParams) (config : ContractConfig) {b b' : Portfolio World}
      → After host peers hash d b b'
      → is_terminal (get_order_status (order_hash hash env config p) b.1.0.common) ≡ true
      → b'.1.0.common.config ≡ some config
      → ((q : ℕ × (State × World)) → create_order peers hash env p b'.1 ≢ ok q)
        × ((n root proof cosig : ℕ) (q : Unit {0} × (State × World))
            → unlock peers hash env p n root proof cosig b'.1 ≢ ok q)
        × ((root proof : ℕ) (q : Unit {0} × (State × World))
            → refund_by_cancel peers hash env p root proof b'.1 ≢ ok q)
        × ((root proof : ℕ) (q : Unit {0} × (State × World))
            → present_settled peers hash env p root proof b'.1 ≢ ok q)
        × ((root proof : ℕ) (q : Unit {0} × (State × World))
            → pay_maker_by_forfeit peers hash env p root proof b'.1 ≢ ok q)
  ended_for_good env p config {b' = (book, (s, w))} past over named =
      let stays = terminal_stays (order_hash hash env config p) past over in
      (
        λ q h.
            let (config', _, c) = create_order-ok peers hash env s q.1.0 w q.1.1 p h in
            ground (arith, c.configured, c.new),
        λ n root proof cosig q h.
            let (config', u) =
              unlock-Unlocked peers hash env s q.1.0 w q.1.1 p n root proof cosig h in
            ground (arith, u.configured, u.cosigned.was_open),
        λ root proof q h.
            let (config', e) =
              refund_by_cancel-Presented peers hash env s q.1.0 w q.1.1 p root proof h in
            ground (arith, e.configured, e.evidenced.presentable),
        λ root proof q h.
            let (config', e) =
              present_settled-Presented peers hash env s q.1.0 w q.1.1 p root proof h in
            ground (arith, e.configured, e.evidenced.presentable),
        λ root proof q h.
            let (config', e) =
              pay_maker_by_forfeit-Presented peers hash env s q.1.0 w q.1.1 p root proof h in
            ground (arith, e.configured, e.evidenced.presentable),
      )

  -- A nullifier that an unlock has used unlocks nothing later.
  pub nullifier_once :
      (env env' : Env) (p p' : OrderParams) (n root proof cosig root' proof' cosig' : ℕ)
      (book : Book) (q : State × World) {q' : State × World} {b : Portfolio World}
      → unlock peers hash env p n root proof cosig q ≡ ok (tt, q')
      → After host peers hash d (book, q') b
      → (r : Unit {0} × (State × World))
      → unlock peers hash env' p' n root' proof' cosig' b.1 ≢ ok r
  nullifier_once env env' p p' n root proof cosig root' proof' cosig' book (s, w) {q'}
        {b = (_, (s'', w''))} h past r h' =
      let (config, u) = unlock-Unlocked peers hash env s q'.0 w q'.1 p n root proof cosig h in
      let kept = (Delivered-kept peers env _ q'.0 w q'.1 _ _ _ _ u.delivered).1 in
      let used =
        spent_stays n past (ground (arith, kept, lookup-insert n n true s.common.nullifiers)) in
      let (config', u') =
        unlock-Unlocked peers hash env' s'' r.1.0 w'' r.1.1 p' n root' proof' cosig' h' in
      ground (arith, used, u'.cosigned.unspent)
