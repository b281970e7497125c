-- ===== src/OrderPortal/Histories.antt =====
-- Histories of the order portal: each call with the ledger that it saw, on the storage and the world
-- of the contracts it calls, with a book of the deposits that are held. A call that fails leaves all
-- of them as they were.
use proofbridge_contracts.Base.{
  ℕ, String, ◌≤◌, ◌<◌, ◌^◌, ◌≡◌, none, some, [], Map, insert, erase, nat_eq, Env, Host, Result, ok,
  Action,
}
use proofbridge_contracts.Core.Orders.{RouteTiming}
use proofbridge_contracts.DisputeManager.Histories.{settle}
use proofbridge_contracts.Escrow.Peers.{Peers}
use proofbridge_contracts.OrderPortal.State.{State, OrderParams, OrderPortalError, fresh}
use proofbridge_contracts.OrderPortal.Admin.{
  initialize, pause, unpause, transfer_admin, accept_admin, activate_timelock, propose_action,
  cancel_action, set_chain, remove_chain, set_root_verifier, unset_root_verifier, set_route_timing,
  set_root_anchor, set_token_route, remove_token_route,
}
use proofbridge_contracts.OrderPortal.Checks.{claim}
use proofbridge_contracts.OrderPortal.Orders.{
  order_hash, create_order, unlock, refund_by_cancel, present_settled, pay_maker_by_forfeit,
  record_settled,
}

pub data Call : Type 0 where
  initializes : ℕ → ℕ → ℕ → ℕ → ℕ → Call
  pauses unpauses accepts_admin activates : Call
  transfers_admin cancels removes_chain unsets_root_verifier sets_root_anchor : ℕ → Call
  proposes : String → ℕ → Call
  sets_chain sets_root_verifier removes_token_route : ℕ → ℕ → Call
  sets_route_timing : ℕ → RouteTiming → Call
  sets_token_route : ℕ → ℕ → ℕ → Call
  creates : OrderParams → Call
  unlocks : OrderParams → ℕ → ℕ → ℕ → ℕ → Call
  refunds presents forfeits : OrderParams → ℕ → ℕ → Call
  records_settled : OrderParams → Call
  claims : ℕ → ℕ → Call

-- The deposits that are held, by order.
abbrev pub Book : Type 0
Book = Map ℕ OrderParams

-- The book, the storage and the world.
abbrev pub Portfolio : Type 0 → Type 0
Portfolio World = Book × (State × World)

-- A call that neither takes nor pays a deposit.
abbrev pub keep :
    {World A : Type 0}
    → Action (State × World) OrderPortalError A
    → Portfolio World
    → Portfolio World
keep m (book, q) = (book, settle q (m q))

-- A creation that succeeds enters the book.
abbrev pub enter :
    {World : Type 0}
    → OrderParams
    → Portfolio World
    → Result OrderPortalError (ℕ × (State × World))
    → Portfolio World
enter p (book, q) (ok (order, q')) = (insert order p book, q')
enter p (book, q) _ = (book, q)

module _ (hash : ℕ → ℕ → OrderParams → ℕ) (env : Env) where
  -- The book without an order, under the portal's configuration.
  abbrev pub without : OrderParams → Book → State → Book
  without p book s = elim s.common.config [
    | none ↦ book
    | some config ↦ erase (order_hash hash env config p) book
  ]

  -- An ending that succeeds leaves the book.
  abbrev pub leave :
      {World : Type 0}
      → OrderParams
      → Portfolio World
      → Result OrderPortalError (Unit {0} × (State × World))
      → Portfolio World
  leave p (book, q) (ok (_, q')) = (without p book q.0, q')
  leave p (book, q) _ = (book, q)

module _ {World : Type 0} (host : Host) (peers : Peers World) (hash : ℕ → ℕ → OrderParams → ℕ)
    (env : Env) where
  unfoldable pub step : Call → Portfolio World → Portfolio World
  step (initializes admin verifier manager w_native chain) b =
      keep (initialize env admin verifier manager w_native chain) b
  step pauses b = keep (pause env) b
  step unpauses b = keep (unpause env) b
  step accepts_admin b = keep (accept_admin env) b
  step activates b = keep (activate_timelock env) b
  step (transfers_admin to) b = keep (transfer_admin env to) b
  step (cancels id) b = keep (cancel_action env id) b
  step (removes_chain chain) b = keep (remove_chain host env chain) b
  step (unsets_root_verifier chain) b = keep (unset_root_verifier host env chain) b
  step (sets_root_anchor anchor) b = keep (set_root_anchor host env anchor) b
  step (proposes fn_name args) b = keep (propose_action host env fn_name args) b
  step (sets_chain chain manager) b = keep (set_chain host env chain manager) b
  step (sets_root_verifier chain module_at) b = keep (set_root_verifier host env chain module_at) b
  step (removes_token_route token chain) b = keep (remove_token_route host env token chain) b
  step (sets_route_timing chain t) b = keep (set_route_timing host env chain t) b
  step (sets_token_route token chain ad_token) b =
      keep (set_token_route host env token chain ad_token) b
  step (creates p) b = enter p b (create_order peers hash env p b.1)
  step (unlocks p nullifier root proof cosig) b =
      leave hash env p b (unlock peers hash env p nullifier root proof cosig b.1)
  step (refunds p root proof) b =
      leave hash env p b (refund_by_cancel peers hash env p root proof b.1)
  step (presents p root proof) b =
      leave hash env p b (present_settled peers hash env p root proof b.1)
  step (forfeits p root proof) b =
      leave hash env p b (pay_maker_by_forfeit peers hash env p root proof b.1)
  step (records_settled p) b = keep (record_settled peers hash env p) b
  step (claims recipient token) b = keep (claim peers env recipient token) b

-- A deployment: its address, its wrapped native token and chain, and the params that anyone presents.
pub record Deployment : Type 1 where
  pub here : ℕ
  pub native : ℕ
  pub chain_id : ℕ
  pub presented : OrderParams → Type 0

-- The amount of an order is a 128-bit number; the admin initializes with the deployment's wiring.
abbrev pub IsTyped : Deployment → Call → Type 0
IsTyped d (initializes _ _ _ w_native chain) = (w_native ≡ d.native) × (chain ≡ d.chain_id)
IsTyped d (creates p) = d.presented p × (p.amount < 2 ^ 128)
IsTyped d (unlocks p _ _ _ _) = d.presented p
IsTyped d (refunds p _ _) = d.presented p
IsTyped d (presents p _ _) = d.presented p
IsTyped d (forfeits p _ _) = d.presented p
IsTyped d _ = Unit {0}

-- What can follow what on the ledger: a call of the portal, or a transaction elsewhere that does not
-- take the portal's tokens.
pub data Next {World : Type 0} (host : Host) (peers : Peers World) (hash : ℕ → ℕ → OrderParams → ℕ)
    (d : Deployment) : Portfolio World → Portfolio World → Type 0 where
  calls :
      (env : Env) (c : Call) (b : Portfolio World)
      → env.current_contract ≡ d.here
      → IsTyped d c
      → Next host peers hash d b (step host peers hash env c b)
  elsewhere :
      (book : Book) (s : State) (w w' : World)
      → ((token : ℕ) → peers.tokens.balance w token d.here ≤ peers.tokens.balance w' token d.here)
      → Next host peers hash d (book, (s, w)) (book, (s, w'))

-- What a portfolio can come to.
pub data After {World : Type 0} (host : Host) (peers : Peers World) (hash : ℕ → ℕ → OrderParams → ℕ)
    (d : Deployment) (b : Portfolio World) : Portfolio World → Type 0 where
  now : After host peers hash d b b
  later :
      {b' b'' : Portfolio World}
      → After host peers hash d b b'
      → Next host peers hash d b' b''
      → After host peers hash d b b''

-- A fresh deployment, with an empty book.
abbrev pub deployed : {World : Type 0} → World → Portfolio World
deployed w = ([], (fresh, w))
