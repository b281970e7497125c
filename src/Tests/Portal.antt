-- ===== src/Tests/Portal.antt =====
-- An order portal at address 99: a deployment, an order, and the ways it ends.
use proofbridge_contracts.Base.{
  ℕ, ◌+◌, ◌≤◌, ◌≡◌, ◌≢◌, refl, sym, ◌∙◌, true, some, ok, err, [], ◌∷◌, lookup, nat_eq, pair_eq,
  ◌==◌, ◌↔◌, inr, arith,
}
use proofbridge_contracts.Core.Orders.{RouteTiming, ContractConfig, filled, cancelled}
use proofbridge_contracts.Escrow.Peers.{Peers}
use proofbridge_contracts.OrderPortal.State.{State, OrderParams, fresh, shared}
use proofbridge_contracts.Core.Timelock as timelock
use proofbridge_contracts.Core.Timing as timing
use proofbridge_contracts.Core.Scaling.{assert_in_range}
use proofbridge_contracts.Escrow.State.{
  push_route_timing, store_root_verifier, add_wired_chain, open_order, set_in_flight,
  set_order_status, set_claimable, set_nullifier_used, get_order_status, opened_rec,
}
use proofbridge_contracts.Escrow.Payments as payments
use proofbridge_contracts.Escrow.Legs as legs
use proofbridge_contracts.Escrow.Termination as termination
use proofbridge_contracts.Escrow.Termination.{is_presentable}
use proofbridge_contracts.OrderPortal.State.{get_config}
use proofbridge_contracts.OrderPortal.Admin.{
  initialize, gated, set_chain, set_route_timing, set_token_route, set_root_anchor,
  set_root_verifier,
}
use proofbridge_contracts.OrderPortal.Checks.{
  require_decimals, validate_order, assert_order_decimals, count_in, check_unlock, check_evidence,
  refund_bridger, pay_maker, claim,
}
use proofbridge_contracts.OrderPortal.Orders.{
  create_order, unlock, refund_by_cancel, present_settled, pay_maker_by_forfeit, record_settled,
}
use proofbridge_contracts.OrderPortal.Histories.{
  Portfolio, Deployment, After, now, later, calls, deployed, step, initializes, sets_chain,
  sets_route_timing, sets_token_route, sets_root_anchor, sets_root_verifier, creates, refunds,
}
use proofbridge_contracts.OrderPortal.Solvency.{IsHonest, owed}
use proofbridge_contracts.OrderPortal.Backing.{portfolio_solvent, presentable_iff}
use proofbridge_contracts.OrderPortal.Calls.{Refused}
use proofbridge_contracts.OrderPortal.Refinement.{Move, promise, portfolio_refines}
use proofbridge_contracts.OrderPortal.Finality.{ended_for_good, nullifier_once}
use proofbridge_contracts.OrderPortal.Settlement.{settlement_barred}
use proofbridge_contracts.OrderPortal.Payouts.{Received}
use proofbridge_contracts.OrderPortal.Exits.{refund_live}
use proofbridge_contracts.OrderPortal.Deposits.{Created, create_order-ok}
use proofbridge_contracts.OrderPortal.Unlocking.{Unlocked, unlock-Unlocked}
use proofbridge_contracts.OrderPortal.Rules.{IsAcceptable, validate_order_iff}
use proofbridge_contracts.OrderPortal.Pausing.{with_paused, carry, pause_spares_exits}
use proofbridge_contracts.Core.Faults.{contract_paused}
use proofbridge_contracts.Tests.Platform.{host, at}
use proofbridge_contracts.Tests.Bank.{Table, bank, bank-IsLawful, bank_credits}

abbrev peers : Peers Table
peers = record {
  tokens = bank;
  decimals = λ w contract. some 7;
  append = λ w manager from order domain. some w;
  verify_proof = λ w verifier inputs proof. proof == 1;
  is_root_valid = λ w module_at chain root envelope cosig. some (cosig == 1);
  is_anchored = λ w anchor chain root. root == 77;
  field_mod = λ n. n;
  account_address = λ n. n + 1_000;
  contract_address = λ n. n;
}

abbrev order_a : OrderParams
order_a = record {
  order_chain_token = 60;
  ad_chain_token = 61;
  amount = 400;
  bridger = 20;
  order_recipient = 21;
  ad_chain_id = 5;
  ad_manager = 30;
  ad_id = 1;
  ad_creator = 31;
  ad_recipient = 32;
  salt = 8;
  order_decimals = 7;
  ad_decimals = 18;
  deadline = 50_000;
  ad_settlement_signer = 33;
  lp_fee_bps = 10;
  protocol_fee_bps = 5;
}

abbrev hash : ℕ → ℕ → OrderParams → ℕ
hash chain here p = p.salt

abbrev deployment : Deployment
deployment = record { here = 99; native = 50; chain_id = 9; presented = λ p. p ≡ order_a }

peers-IsHonest : IsHonest peers hash deployment
peers-IsHonest = record {
  lawful = bank-IsLawful 99;
  native_credit = λ w w' from amount other h. bank_credits w w' 50 from 99 amount other h;
  account_elsewhere = λ bytes e. omega (arith, e);
  append_keeps =
      λ w w' manager order domain token h. let same : w ≡ w' = ground arith in ground arith;
  collision_free = λ p p' first second h. first ∙ sym second;
}

abbrev purse : Table
purse = ((60, 1_020), 5_000) ∷ []

abbrev clocks : RouteTiming
clocks = record { min_window = 7_200; buffer = 7_200; margin = 600; claim_stagger = 1_200 }

abbrev config : ContractConfig
config = record { admin = 1; verifier = 2; merkle_manager = 3; w_native_token = 50; chain_id = 9 }

-- The portal serves chain 5, and token 60 there.
abbrev ready : State
ready = record fresh {
  common = record fresh.common {
    initialized = true;
    config = some config;
    routes = ((60, 5), 61) ∷ [];
    timing_versions = (5, 1) ∷ [];
    timings = ((5, 1), clocks) ∷ [];
    root_anchor = some 70;
    root_verifiers = (5, 71) ∷ [];
    verifier_changes = (5, 15) ∷ [];
    wired_chains = 5 ∷ [];
  };
  chains = (5, 30) ∷ [];
}

abbrev created : State
created = record ready {
  common = record ready.common {
    orders = (8, opened_rec (at 100) 1 0 0 0) ∷ [];
    in_flight = (20, 1) ∷ [];
  };
}

abbrev taken : Table
taken = ((60, 1_020), 4_600) ∷ ((60, 99), 400) ∷ []

abbrev refunded : State
refunded = record ready {
  common = record ready.common {
    orders = (8, record (opened_rec (at 100) 1 0 0 0) { status = cancelled }) ∷ [];
  };
}

abbrev returned : Table
returned = ((60, 1_020), 5_000) ∷ ((60, 99), 0) ∷ []

abbrev unlocked : State
unlocked = record ready {
  common = record ready.common {
    orders = (8, record (opened_rec (at 100) 1 0 0 0) { status = filled }) ∷ [];
    nullifiers = (17, true) ∷ [];
  };
}

abbrev paid : Table
paid = ((60, 1_020), 4_600) ∷ ((60, 99), 0) ∷ ((60, 1_032), 400) ∷ []

set_up : After host peers hash deployment (deployed purse) ([], (ready, purse))
unfolding step initialize set_chain gated get_config timelock.gate timelock.gate_unless
    timelock.gate_keyed set_route_timing termination.set_route_timing push_route_timing
    set_token_route set_root_anchor legs.set_root_anchor set_root_verifier
    legs.set_root_verifier_gated store_root_verifier add_wired_chain timing.validate
set_up =
    later
      (later
        (later
          (later
            (later
              (later now
                (calls (at 10) (initializes 1 2 3 50 9) (deployed purse) refl (refl, refl)))
              (calls (at 11) (sets_chain 5 30) _ refl tt))
            (calls (at 12) (sets_route_timing 5 clocks) _ refl tt))
          (calls (at 13) (sets_token_route 60 5 61) _ refl tt))
        (calls (at 14) (sets_root_anchor 70) _ refl tt))
      (calls (at 15) (sets_root_verifier 5 71) _ refl tt)

creation : create_order peers hash (at 100) order_a (ready, purse) ≡ ok (8, (created, taken))
unfolding create_order get_config validate_order require_decimals assert_in_range
    payments.bytes32_to_account_address assert_order_decimals payments.token_decimals
    termination.require_min_window termination.current_timing payments.transfer_from_user
    payments.transfer payments.token_contract payments.is_native_token payments.native_token
    legs.append_to_merkle open_order count_in set_in_flight
creation = refl

refund :
    refund_by_cancel peers hash (at 200) order_a 77 1 (created, taken)
    ≡ ok (tt, (refunded, returned))
unfolding refund_by_cancel get_config check_evidence legs.cancel refund_bridger
    termination.require_presentable legs.require_anchored legs.verify_proof set_order_status
    legs.remove_claim legs.count_out set_in_flight payments.pay_or_credit
    payments.try_transfer_to_recipient set_claimable payments.token_contract
    payments.is_native_token payments.native_token
refund = refl

unlocking :
    unlock peers hash (at 200) order_a 17 77 1 1 (created, taken) ≡ ok (tt, (unlocked, paid))
unfolding unlock get_config check_unlock legs.fill pay_maker termination.order_timing
    legs.build_public_inputs legs.is_canonical legs.verify_proof set_nullifier_used set_order_status
    legs.remove_claim legs.count_out set_in_flight payments.pay_or_credit
    payments.try_transfer_to_recipient set_claimable payments.token_contract
    payments.is_native_token payments.native_token
unlocking = refl

abbrev holding : Portfolio Table
holding = ((8, order_a) ∷ [], (created, taken))

reached : After host peers hash deployment (deployed purse) holding
unfolding step create_order get_config validate_order require_decimals assert_in_range
    payments.bytes32_to_account_address assert_order_decimals payments.token_decimals
    termination.require_min_window termination.current_timing payments.transfer_from_user
    payments.transfer payments.token_contract payments.is_native_token payments.native_token
    legs.append_to_merkle open_order count_in set_in_flight
reached = later set_up (calls (at 100) (creates order_a) _ refl (refl, omega arith))

portfolio_solvent_example : owed peers 50 60 holding.0 created ≤ bank.balance taken 60 99
portfolio_solvent_example =
    portfolio_solvent host peers hash deployment peers-IsHonest purse holding 60 reached

presentable_iff_example :
    (is_presentable (get_order_status 8 created.common) ≡ true)
    ↔ ((p : OrderParams) × (lookup 8 holding.0 ≡ some p) × (p.salt ≡ 8))
presentable_iff_example =
    presentable_iff host peers hash deployment peers-IsHonest purse holding 8 reached

portfolio_refines_example :
    Move peers hash deployment
      (refunds order_a 77 1)
      (Refused peers hash (at 200) (refunds order_a 77 1) holding.1)
      (promise holding)
      (promise (step host peers hash (at 200) (refunds order_a 77 1) holding))
      taken
      (step host peers hash (at 200) (refunds order_a 77 1) holding).1.1
portfolio_refines_example =
    portfolio_refines host peers hash deployment (at 200) (refunds order_a 77 1) purse
      peers-IsHonest reached refl refl

ended_for_good_example :
    ((q : ℕ × (State × Table))
      → create_order peers hash (at 300) order_a (refunded, returned) ≢ ok q)
    × ((n root proof cosig : ℕ) (q : Unit {0} × (State × Table))
        → unlock peers hash (at 300) order_a n root proof cosig (refunded, returned) ≢ ok q)
    × ((root proof : ℕ) (q : Unit {0} × (State × Table))
        → refund_by_cancel peers hash (at 300) order_a root proof (refunded, returned) ≢ ok q)
    × ((root proof : ℕ) (q : Unit {0} × (State × Table))
        → present_settled peers hash (at 300) order_a root proof (refunded, returned) ≢ ok q)
    × ((root proof : ℕ) (q : Unit {0} × (State × Table))
        → pay_maker_by_forfeit peers hash (at 300) order_a root proof (refunded, returned) ≢ ok q)
ended_for_good_example =
    ended_for_good host peers hash deployment (at 300) order_a config
      {b = ([], (refunded, returned))} now refl refl

nullifier_once_example :
    unlock peers hash (at 300) order_a 17 78 1 1 (unlocked, paid) ≢ ok (tt, (unlocked, paid))
nullifier_once_example =
    nullifier_once host peers hash deployment (at 200) (at 300) order_a order_a 17 77 1 1 78 1 1 []
      (created, taken) unlocking now (tt, (unlocked, paid))

settlement_barred_example :
    record_settled peers hash (at 300) order_a (refunded, returned) ≢ ok (tt, (refunded, returned))
settlement_barred_example =
    settlement_barred host peers hash deployment (at 200) (at 300) order_a order_a 77 1 config
      config [] (created, taken) (refunded, returned) (refunded, returned)
      ([], (refunded, returned)) (inr (inr refund)) refl now refl refl

refund_live_example :
    (q : State × Table) × (refund_by_cancel peers hash (at 200) order_a 77 1 (created, taken)
      ≡ ok (tt, q))
    × (get_order_status 8 q.0.common ≡ cancelled)
    × Received peers (at 200) created q.0 taken q.1 50 20 60 400
refund_live_example =
    refund_live host peers hash deployment (at 200) purse order_a 77 1 config peers-IsHonest reached
      refl refl refl refl (omega arith)

create_order-ok_example :
    (c : ContractConfig) × (8 ≡ hash c.chain_id 99 order_a)
    × Created peers hash (at 100) ready created purse taken order_a c
create_order-ok_example =
    create_order-ok peers hash (at 100) ready created purse taken order_a creation

unlock-Unlocked_example :
    (c : ContractConfig) × Unlocked peers hash
      (at 200)
      created
      unlocked
      taken
      paid
      order_a
      17
      77
      1
      1
      c
unlock-Unlocked_example =
    unlock-Unlocked peers hash (at 200) created unlocked taken paid order_a 17 77 1 1 unlocking

validate_order_iff_example :
    (validate_order peers order_a (created, purse) ≡ ok (tt, (created, purse)))
    ↔ IsAcceptable created order_a
validate_order_iff_example = validate_order_iff peers created purse order_a

pause_spares_exits_example :
    (create_order peers hash (at 300) order_a (with_paused true created, purse)
      ≡ err (shared contract_paused))
    × (unlock peers hash (at 300) order_a 17 77 1 1 (with_paused true created, purse)
        ≡ carry true (unlock peers hash (at 300) order_a 17 77 1 1 (created, purse)))
    × (refund_by_cancel peers hash (at 300) order_a 77 1 (with_paused true created, purse)
        ≡ carry true (refund_by_cancel peers hash (at 300) order_a 77 1 (created, purse)))
    × (present_settled peers hash (at 300) order_a 77 1 (with_paused true created, purse)
        ≡ carry true (present_settled peers hash (at 300) order_a 77 1 (created, purse)))
    × (pay_maker_by_forfeit peers hash (at 300) order_a 77 1 (with_paused true created, purse)
        ≡ carry true (pay_maker_by_forfeit peers hash (at 300) order_a 77 1 (created, purse)))
    × (claim peers (at 300) 20 60 (with_paused true created, purse)
        ≡ carry true (claim peers (at 300) 20 60 (created, purse)))
pause_spares_exits_example =
    pause_spares_exits peers hash (at 300) true created purse order_a 17 77 1 1 20 60
