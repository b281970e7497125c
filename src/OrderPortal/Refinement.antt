-- ===== src/OrderPortal/Refinement.antt =====
-- What the portal promises, without statuses, clocks, proofs and counters: a book of deposits and of
-- credits.
use proofbridge_contracts.Base.{
  ℕ, ◌+◌, ◌<◌, ◌≡◌, ◌≢◌, ◌⊎◌, Bool, true, some, none, Map, lookup, insert, erase, nat_eq, pair_eq,
  ◌==◌, if◌then◌else◌, Env, Host, arith, subst,
}
use proofbridge_contracts.Escrow.State.{or_zero}
use proofbridge_contracts.Escrow.Peers.{Peers}
use proofbridge_contracts.Escrow.Legs.{leaf_domain_settled, leaf_domain_ad}
use proofbridge_contracts.Escrow.Payments.{token_contract}
use proofbridge_contracts.OrderPortal.State.{State, OrderParams}
use proofbridge_contracts.OrderPortal.Deposits.{Pulled}
use proofbridge_contracts.OrderPortal.Payouts.{Delivered, direct, credited}
use proofbridge_contracts.OrderPortal.Histories.{
  Book, Portfolio, Deployment, After, Call, creates, records_settled, claims, IsTyped, deployed,
  step,
}
use proofbridge_contracts.OrderPortal.Calls.{due, Refused}
use proofbridge_contracts.OrderPortal.Changes.{
  Effect, quiet, recorded, initialized, created, ends, claimed, step-Effect,
}
use proofbridge_contracts.OrderPortal.Solvency.{IsHonest}
use proofbridge_contracts.OrderPortal.Holding.{Matches, held_params, unused_hash}
use proofbridge_contracts.OrderPortal.Backing.{After-IsSound, deployed-IsSound}

pub record Promise : Type 0 where
  pub deposits : Book
  pub credits : Map (ℕ × ℕ) ℕ

-- What a portfolio promises.
abbrev pub promise : {World : Type 0} → Portfolio World → Promise
promise b = record { deposits = b.0; credits = b.1.0.common.claimable }

-- The credits once an amount is one recipient's in a token.
abbrev pub set_credit : ℕ → ℕ → ℕ → Map (ℕ × ℕ) ℕ → Map (ℕ × ℕ) ℕ
set_credit recipient token amount credits =
    if amount == 0
    then erase (recipient, token) credits
    else insert (recipient, token) amount credits

abbrev pub credit_now : ℕ → ℕ → Promise → ℕ
credit_now recipient token a = or_zero (lookup (recipient, token) a.credits)

-- One move of the book that a call may make, and what it does to the tokens and the trees. Nothing
-- happens only where the call is refused, or is one that moves nothing.
pub data Move {World : Type 0} (peers : Peers World) (hash : ℕ → ℕ → OrderParams → ℕ)
    (d : Deployment) (c : Call) (refused : Type 0) (a a' : Promise) (w w' : World) : Type 0 where
  idle : refused → a' ≡ a → w' ≡ w → Move peers hash d c refused a a' w w'
  -- The SETTLED leaf of an order is appended.
  append :
      (p : OrderParams) (manager : ℕ)
      → c ≡ records_settled p
      → peers.append w manager d.here (hash d.chain_id d.here p) leaf_domain_settled ≡ some w'
      → a' ≡ a
      → Move peers hash d c refused a a' w w'
  -- A deposit of new params, pulled from the bridger's account, and its leaf.
  deposit :
      (p : OrderParams) (env : Env) (after : World) (manager : ℕ)
      → c ≡ creates p
      → env.current_contract ≡ d.here
      → d.presented p
      → 0 < p.amount
      → lookup (hash d.chain_id d.here p) a.deposits ≡ none
      → Pulled peers env w after p.order_chain_token d.native
          (peers.account_address p.bridger)
          p.amount
      → peers.append after manager d.here (hash d.chain_id d.here p) leaf_domain_ad ≡ some w'
      → a' ≡ record a { deposits = insert (hash d.chain_id d.here p) p a.deposits }
      → Move peers hash d c refused a a' w w'
  -- A held deposit is transferred to the recipient that the call makes it due to.
  pay :
      (p : OrderParams) (recipient : ℕ) (decoded : Bool)
      → due c ≡ some (p, recipient)
      → lookup (hash d.chain_id d.here p) a.deposits ≡ some p
      → peers.tokens.try_transfer w
          (token_contract peers d.native p.order_chain_token)
          d.here
          (peers.account_address (recipient))
          p.amount
        ≡ some (w', decoded)
      → a' ≡ record a { deposits = erase (hash d.chain_id d.here p) a.deposits }
      → Move peers hash d c refused a a' w w'
  -- A held deposit becomes that recipient's credit, where it is no account or the token contract
  -- refuses the transfer.
  credit :
      (p : OrderParams) (recipient : ℕ)
      → due c ≡ some (p, recipient)
      → lookup (hash d.chain_id d.here p) a.deposits ≡ some p
      → a' ≡ record {
        deposits = erase (hash d.chain_id d.here p) a.deposits;
        credits =
            set_credit
              (recipient)
              p.order_chain_token
              (credit_now recipient p.order_chain_token a + p.amount)
              a.credits;
      }
      → (recipient ≡ 0)
        ⊎ (peers.tokens.try_transfer w
              (token_contract peers d.native p.order_chain_token)
              d.here
              (peers.account_address recipient)
              p.amount
            ≡ none)
      → w' ≡ w
      → Move peers hash d c refused a a' w w'
  -- A credit is transferred whole.
  withdraw :
      (recipient token : ℕ)
      → c ≡ claims recipient token
      → credit_now recipient token a ≢ 0
      → peers.tokens.try_transfer w
          (token_contract peers d.native token)
          d.here
          (peers.account_address recipient)
          (credit_now recipient token a)
        ≡ some (w', true)
      → a' ≡ record a { credits = erase (recipient, token) a.credits }
      → Move peers hash d c refused a a' w w'

module _ {World : Type 0} (peers : Peers World) (hash : ℕ → ℕ → OrderParams → ℕ) (d : Deployment)
    (law : IsHonest peers hash d) (env : Env) (at : env.current_contract ≡ d.here)
    (book book' : Book) (s s' : State) (w w' : World) (m : Matches hash d book s) where
  Delivered-Move :
      {c : Call} {refused : Type 0} (p : OrderParams) (recipient : ℕ) (left : State)
      → due c ≡ some (p, recipient)
      → lookup (hash d.chain_id d.here p) book ≡ some p
      → left.common.claimable ≡ s.common.claimable
      → book' ≡ erase (hash d.chain_id d.here p) book
      → Delivered peers env left s' w w' d.native recipient p.order_chain_token p.amount
      → Move peers hash d c refused (promise (book, (s, w))) (promise (book', (s', w'))) w w'
  Delivered-Move p recipient left over found kept same (direct decoded moved e) =
      pay p recipient decoded over found (ground (arith, at, moved)) (ground arith)
  Delivered-Move p recipient left over found kept same (credited refused unmoved e) =
      credit p recipient over found (ground arith) (ground (arith, at, refused)) unmoved

  Effect-Move :
      {c : Call}
      → Effect peers hash env d c book book' s s' w w'
      → Move peers hash d c
          (Refused peers hash env c (s, w))
          (promise (book, (s, w)))
          (promise (book', (s', w')))
          w
          w'
  Effect-Move (quiet q e same refused) = idle refused (ground (arith, q.claimable_kept)) e
  Effect-Move (recorded p config manager order named found hashed _ _ stored e same) =
      let wired : (config.w_native_token ≡ d.native) × (config.chain_id ≡ d.chain_id) =
        ground (arith, m.configured, found) in
      append p manager named (ground (arith, e, hashed, at, wired)) (ground (arith, stored))
  Effect-Move (initialized _ _ _ e unmoved same refused) = idle refused (ground arith) unmoved
  Effect-Move (created p config known small called c same) =
      let (after, pull, appended) = c.pulled in
      let (version, e) = c.written in
      let (named, new, native) =
        unused_hash peers hash d law env at book book' s s' w w' m p config c in
      deposit p env after config.merkle_manager called at known c.positive
        (ground (arith, named, new))
        (subst
          (λ n.
            Pulled peers env w after p.order_chain_token n (peers.account_address p.bridger)
              p.amount)
          native pull)
        (ground (arith, appended, at, named)) (ground arith)
  Effect-Move (claimed recipient token config called c same) =
      let native : config.w_native_token ≡ d.native = ground (arith, m.configured, c.configured) in
      withdraw recipient token called c.nonzero (ground (arith, at, native, c.moved))
        (ground (arith, c.written))
  Effect-Move (ends p recipient e known owed same) =
      let (named, found, native) =
        held_params peers hash d law env at book book' s s' w w' m p recipient e known in
      Delivered-Move p recipient e.left owed (ground (arith, named, found)) e.leaves.claimable_kept
        (ground (arith, named, same))
        (subst (λ n. Delivered peers env e.left s' w w' n recipient p.order_chain_token p.amount)
          native e.delivered)

-- At any portfolio that a fresh deployment comes to, every call of the portal is one move of the book,
-- and the call fixes which. A creation pulls the new order's amount from the bridger's account
-- and appends its leaf; an unlock, a presented settlement and a forfeit deliver the held deposit to the
-- maker's recipient, and a cancellation to the bridger, by a transfer or, where the recipient names no
-- account or the token contract refuses, as a credit of that amount; a claim transfers the named credit
-- whole and clears it; recording a settlement appends the SETTLED leaf. Where one of these calls does
-- not succeed, and at every other call, deposits, credits, tokens and trees stay as they are. It holds
-- under the documented laws of the token contracts and a collision-free order hash.
pub portfolio_refines :
    {World : Type 0} (host : Host) (peers : Peers World) (hash : ℕ → ℕ → OrderParams → ℕ)
    (d : Deployment) (env : Env) (c : Call) (w : World) {b : Portfolio World}
    → IsHonest peers hash d
    → After host peers hash d (deployed w) b
    → env.current_contract ≡ d.here
    → IsTyped d c
    → Move peers hash d c
        (Refused peers hash env c b.1)
        (promise b)
        (promise (step host peers hash env c b))
        b.1.1
        (step host peers hash env c b).1.1
portfolio_refines host peers hash d env c w {b = (book, (s, w'))} law past at typed =
    let (m, b) =
      After-IsSound host peers hash d law past (deployed-IsSound host peers hash d law w) in
    Effect-Move peers hash d law env at book _ s _ w' _ m
      (step-Effect host peers hash env d book s w' c typed)
