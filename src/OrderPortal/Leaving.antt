-- ===== src/OrderPortal/Leaving.antt =====
-- What the four ways an order ends have in common.
use proofbridge_contracts.Base.{
  ℕ, ◌+◌, ◌-◌, ◌≤◌, ◌≡◌, refl, ap, Bool, true, false, some, Map, lookup, insert, nat_eq, ◌==◌,
  if◌then◌else◌, lookup-insert, lookup-erase, Env, ok, arith,
}
use proofbridge_contracts.Core.Orders.{ContractConfig, Status, filled, cancelled}
use proofbridge_contracts.Escrow.State.{
  get_order, get_order_status, get_in_flight, is_nullifier_used, is_settled_recorded,
}
use proofbridge_contracts.Escrow.Termination.{is_presentable}
use proofbridge_contracts.Escrow.Peers.{Peers}
use proofbridge_contracts.OrderPortal.State.{State, OrderParams}
use proofbridge_contracts.OrderPortal.Orders.{
  order_hash, unlock, refund_by_cancel, present_settled, pay_maker_by_forfeit,
}
use proofbridge_contracts.OrderPortal.Payouts.{Delivered}
use proofbridge_contracts.OrderPortal.Endings.{
  ended, spent, no_settlement, refund_by_cancel-Presented, present_settled-Presented,
  pay_maker_by_forfeit-Presented,
}
use proofbridge_contracts.OrderPortal.Unlocking.{unlock-Unlocked}

-- A status that no call leaves.
abbrev pub is_terminal : Status → Bool
is_terminal filled = true
is_terminal cancelled = true
is_terminal _ = false

-- An order of the account that was presentable now has a terminal status, and no credit has changed
-- yet.
pub record Left (order account : ℕ) (status : Status) (s left : State) : Type 0 where
  pub over : is_terminal status ≡ true
  pub was_presentable : is_presentable (get_order_status order s.common) ≡ true
  pub orders_now :
      left.common.orders
      ≡ insert order (record (get_order order s.common) { status = status }) s.common.orders
  pub claimable_kept : left.common.claimable ≡ s.common.claimable
  pub initialized_kept : left.common.initialized ≡ s.common.initialized
  pub config_kept : left.common.config ≡ s.common.config
  pub count_left :
      (a : ℕ)
      → get_in_flight a s.common ≤ get_in_flight a left.common + (if a == account then 1 else 0)
  pub settled_stays :
      (o : ℕ) → is_settled_recorded o s.common ≡ true → is_settled_recorded o left.common ≡ true
  pub nullifiers_stay :
      (n : ℕ) → is_nullifier_used n s.common ≡ true → is_nullifier_used n left.common ≡ true

count_left-ended :
    (order account : ℕ) (status : Status) (s : State) (a : ℕ)
    → get_in_flight a s.common
      ≤ get_in_flight a (ended order status account s).common + (if a == account then 1 else 0)
count_left-ended order account status s a =
    let fewer = get_in_flight account s.common - 1 in
    ground (
      arith,
      lookup-erase account a s.common.in_flight,
      lookup-insert account a fewer s.common.in_flight,
    )

-- The storage that is left may have more nullifiers and more settlements.
ended-Left :
    (order account : ℕ) (status : Status) (s : State) (nullifiers settled : Map ℕ Bool)
    → is_terminal status ≡ true
    → is_presentable (get_order_status order s.common) ≡ true
    → ((n : ℕ) → is_nullifier_used n s.common ≡ true → lookup n nullifiers ≡ some true)
    → ((o : ℕ) → is_settled_recorded o s.common ≡ true → lookup o settled ≡ some true)
    → Left order account status s (record (ended order status account s) {
      common = record (ended order status account s).common {
        nullifiers = nullifiers;
        settled = settled;
      };
    })
ended-Left order account status s nullifiers settled over live grow record_more = record {
  over = over;
  was_presentable = live;
  orders_now = refl;
  claimable_kept = refl;
  initialized_kept = refl;
  config_kept = refl;
  count_left = λ a. count_left-ended order account status s a;
  settled_stays = λ o recorded. ground (arith, record_more o recorded);
  nullifiers_stay = λ n used. ground (arith, grow n used);
}

module _ {World : Type 0} (peers : Peers World) (hash : ℕ → ℕ → OrderParams → ℕ) (env : Env)
    (s s' : State) (w w' : World) where
  -- An ending: the deposit goes to the recipient, from the storage that is left.
  pub record Ended (p : OrderParams) (recipient : ℕ) : Type 0 where
    pub config : ContractConfig
    pub status : Status
    pub left : State
    pub configured : s.common.config ≡ some config
    pub leaves : Left (order_hash hash env config p) p.bridger status s left
    pub delivered :
        Delivered peers env left s' w w' config.w_native_token recipient p.order_chain_token
          p.amount

  used_true :
      (n : ℕ) → is_nullifier_used n s.common ≡ true → lookup n s.common.nullifiers ≡ some true
  used_true n used = ground arith

  settled_true :
      (o : ℕ) → is_settled_recorded o s.common ≡ true → lookup o s.common.settled ≡ some true
  settled_true o recorded = ground arith

  pub unlock-Ended :
      (p : OrderParams) (nullifier root proof cosig : ℕ)
      → unlock peers hash env p nullifier root proof cosig (s, w) ≡ ok (tt, (s', w'))
      → Ended p p.ad_recipient
  unlock-Ended p nullifier root proof cosig h =
      let (config, done) =
        unlock-Unlocked peers hash env s s' w w' p nullifier root proof cosig h in
      let order = order_hash hash env config p in
      record {
        config = config;
        status = filled;
        left = ended order filled p.bridger (spent nullifier s);
        configured = done.configured;
        leaves =
            ended-Left order p.bridger filled s (insert nullifier true s.common.nullifiers)
              s.common.settled refl (ap is_presentable done.cosigned.was_open)
              (λ n used. ground (arith, lookup-insert nullifier n true s.common.nullifiers))
              settled_true;
        delivered = done.delivered;
      }

  pub refund_by_cancel-Ended :
      (p : OrderParams) (root proof : ℕ)
      → refund_by_cancel peers hash env p root proof (s, w) ≡ ok (tt, (s', w'))
      → Ended p p.bridger
  refund_by_cancel-Ended p root proof h =
      let (config, done) = refund_by_cancel-Presented peers hash env s s' w w' p root proof h in
      let order = order_hash hash env config p in
      record {
        config = config;
        status = cancelled;
        left = ended order cancelled p.bridger s;
        configured = done.configured;
        leaves =
            ended-Left order p.bridger cancelled s s.common.nullifiers s.common.settled refl
              done.evidenced.presentable used_true settled_true;
        delivered = done.delivered;
      }

  pub present_settled-Ended :
      (p : OrderParams) (root proof : ℕ)
      → present_settled peers hash env p root proof (s, w) ≡ ok (tt, (s', w'))
      → Ended p p.ad_recipient
  present_settled-Ended p root proof h =
      let (config, done) = present_settled-Presented peers hash env s s' w w' p root proof h in
      let order = order_hash hash env config p in
      record {
        config = config;
        status = filled;
        left = ended order filled p.bridger s;
        configured = done.configured;
        leaves =
            ended-Left order p.bridger filled s s.common.nullifiers s.common.settled refl
              done.evidenced.presentable used_true settled_true;
        delivered = done.delivered;
      }

  pub pay_maker_by_forfeit-Ended :
      (p : OrderParams) (root proof : ℕ)
      → pay_maker_by_forfeit peers hash env p root proof (s, w) ≡ ok (tt, (s', w'))
      → Ended p p.ad_recipient
  pay_maker_by_forfeit-Ended p root proof h =
      let (config, done) = pay_maker_by_forfeit-Presented peers hash env s s' w w' p root proof h in
      let order = order_hash hash env config p in
      record {
        config = config;
        status = filled;
        left = no_settlement order (ended order filled p.bridger s);
        configured = done.configured;
        leaves =
            ended-Left order p.bridger filled s s.common.nullifiers
              (insert order true s.common.settled) refl done.evidenced.presentable used_true
              λ o recorded. ground (arith, lookup-insert order o true s.common.settled);
        delivered = done.delivered;
      }
