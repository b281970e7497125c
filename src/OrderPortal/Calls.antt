-- ===== src/OrderPortal/Calls.antt =====
-- The calls of the order portal that move deposits, credits or leaves: who an ended deposit is due to,
-- and what it is for such a call to be refused.
use proofbridge_contracts.Base.{ℕ, ◌≢◌, Option, none, some, nat_eq, Env, ok}
use proofbridge_contracts.Escrow.Peers.{Peers}
use proofbridge_contracts.OrderPortal.State.{State, OrderParams}
use proofbridge_contracts.OrderPortal.Checks.{claim}
use proofbridge_contracts.OrderPortal.Orders.{
  create_order, unlock, refund_by_cancel, present_settled, pay_maker_by_forfeit, record_settled,
}
use proofbridge_contracts.OrderPortal.Histories.{
  Call, creates, unlocks, refunds, presents, forfeits, records_settled, claims,
}

-- Which deposit a call ends, and the recipient that it is then due to: the maker's recipient for an
-- unlock, a presented settlement and a forfeit, the bridger for a cancellation.
abbrev pub due : Call → Option (OrderParams × ℕ)
due (unlocks p _ _ _ _) = some (p, p.ad_recipient)
due (presents p _ _) = some (p, p.ad_recipient)
due (forfeits p _ _) = some (p, p.ad_recipient)
due (refunds p _ _) = some (p, p.bridger)
due _ = none

-- A call that takes, pays or appends does not succeed; the other calls have nothing to refuse here.
abbrev pub Refused :
    {World : Type 0} → Peers World → (ℕ → ℕ → OrderParams → ℕ) → Env → Call → State × World → Type 0
Refused {World} peers hash env (creates p) q =
    (r : ℕ × (State × World)) → create_order peers hash env p q ≢ ok r
Refused {World} peers hash env (unlocks p nullifier root proof cosig) q =
    (r : Unit {0} × (State × World)) → unlock peers hash env p nullifier root proof cosig q ≢ ok r
Refused {World} peers hash env (refunds p root proof) q =
    (r : Unit {0} × (State × World)) → refund_by_cancel peers hash env p root proof q ≢ ok r
Refused {World} peers hash env (presents p root proof) q =
    (r : Unit {0} × (State × World)) → present_settled peers hash env p root proof q ≢ ok r
Refused {World} peers hash env (forfeits p root proof) q =
    (r : Unit {0} × (State × World)) → pay_maker_by_forfeit peers hash env p root proof q ≢ ok r
Refused {World} peers hash env (records_settled p) q =
    (r : Unit {0} × (State × World)) → record_settled peers hash env p q ≢ ok r
Refused {World} peers hash env (claims recipient token) q =
    (r : Unit {0} × (State × World)) → claim peers env recipient token q ≢ ok r
Refused peers hash env _ q = Unit {0}
