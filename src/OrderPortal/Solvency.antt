-- ===== src/OrderPortal/Solvency.antt =====
-- The portal holds every deposit and every credit that it owes.
use proofbridge_contracts.Base.{
  ℕ, ◌+◌, ◌≤◌, ◌≡◌, ◌≢◌, subst, true, none, some, lookup, insert, erase, total, total-insert,
  total-erase, nat_eq, pair_eq, ◌==◌, if◌then◌else◌, Env, arith, Bool-cases, inl, inr,
}
use proofbridge_contracts.Core.Orders.{ContractConfig}
use proofbridge_contracts.DisputeManager.Solvency.{IsLawful}
use proofbridge_contracts.Escrow.State.{get_claimable}
use proofbridge_contracts.Escrow.Peers.{Peers}
use proofbridge_contracts.Escrow.Payments.{token_contract}
use proofbridge_contracts.OrderPortal.State.{State, OrderParams}
use proofbridge_contracts.OrderPortal.Histories.{Book, Deployment}
use proofbridge_contracts.Escrow.Legs as legs
use proofbridge_contracts.OrderPortal.Orders.{order_hash}
use proofbridge_contracts.OrderPortal.Deposits.{Created, Pulled}
use proofbridge_contracts.OrderPortal.Payouts.{Delivered, direct, credited, Claimed}

-- What the portal relies on: lawful token contracts; a wrapped native token whose transfer credits the
-- whole amount; accounts that are not the portal; a Merkle manager that does not take the portal's
-- tokens; and params that anyone presents whose hashes do not collide.
pub record IsHonest {World : Type 0} (peers : Peers World) (hash : ℕ → ℕ → OrderParams → ℕ)
    (d : Deployment) : Type 0 where
  pub lawful : IsLawful peers.tokens d.here
  pub native_credit :
      (w w' : World) (from amount : ℕ)
      → from ≢ d.here
      → peers.tokens.try_transfer w d.native from d.here amount ≡ some (w', true)
      → peers.tokens.balance w d.native d.here + amount ≤ peers.tokens.balance w' d.native d.here
  pub account_elsewhere : (bytes : ℕ) → peers.account_address bytes ≢ d.here
  pub append_keeps :
      (w w' : World) (manager order domain token : ℕ)
      → peers.append w manager d.here order domain ≡ some w'
      → peers.tokens.balance w token d.here ≤ peers.tokens.balance w' token d.here
  pub collision_free :
      (p p' : OrderParams)
      → d.presented p
      → d.presented p'
      → hash d.chain_id d.here p ≡ hash d.chain_id d.here p'
      → p ≡ p'

module _ {World : Type 0} (peers : Peers World) (native token : ℕ) where
  -- What a held deposit and a credit add in a token contract.
  abbrev pub deposit_in : ℕ → OrderParams → ℕ
  deposit_in _ p = if token_contract peers native p.order_chain_token == token then p.amount else 0

  abbrev pub credit_in : ℕ × ℕ → ℕ → ℕ
  credit_in key n = if token_contract peers native key.1 == token then n else 0

  -- What the portal owes in a token contract: the held deposits and the credits.
  abbrev pub owed : Book → State → ℕ
  owed book s = total deposit_in book + total credit_in s.common.claimable

abbrev pub Backed : {World : Type 0} → Peers World → ℕ → ℕ → Book → State → World → Type 0
Backed peers here native book s w =
    (token : ℕ) → owed peers native token book s ≤ peers.tokens.balance w token here

module _ {World : Type 0} (peers : Peers World) (hash : ℕ → ℕ → OrderParams → ℕ) (d : Deployment)
    (law : IsHonest peers hash d) (env : Env) (at : env.current_contract ≡ d.here)
    (w w' : World) where
  -- A pull raises the portal's balance by the whole amount, and lowers no other.
  Pulled-raises :
      (token bytes amount t : ℕ)
      → Pulled peers env w w' token d.native (peers.account_address bytes) amount
      → peers.tokens.balance w t d.here
          + (if token_contract peers d.native token == t then amount else 0)
        ≤ peers.tokens.balance w' t d.here
  Pulled-raises token bytes amount t pull =
      let from = peers.account_address bytes in
      let contract = token_contract peers d.native token in
      elim (Bool-cases (contract == t)) [
        | inr other ↦
            ground (
              arith,
              at,
              pull.moved,
              law.lawful.other_token w w' contract t from d.here amount true,
            )
        | inl same ↦ elim pull.exact [
          | inl native ↦
              unfold token_contract in
              ground (
                arith,
                at,
                pull.moved,
                law.native_credit w w' from amount (law.account_elsewhere bytes),
              )
          | inr exact ↦
              ground
                (arith, at, pull.moved, law.lawful.negative_refused w contract from d.here amount)
        ]
      ]

module _ {World : Type 0} (peers : Peers World) (hash : ℕ → ℕ → OrderParams → ℕ) (d : Deployment)
    (law : IsHonest peers hash d) (env : Env) (at : env.current_contract ≡ d.here) (book : Book)
    (s s' : State) (w w' : World) (b : Backed peers d.here d.native book s w) where
  pub Created-Backed :
      (p : OrderParams) (config : ContractConfig) (order : ℕ)
      → Created peers hash env s s' w w' p config
      → config.w_native_token ≡ d.native
      → lookup order book ≡ none
      → Backed peers d.here d.native (insert order p book) s' w'
  Created-Backed p config order c native new t =
      let (after, pull, appended) = c.pulled in
      let (version, e) = c.written in
      let named =
        subst
          (λ n.
            Pulled peers env w after p.order_chain_token n (peers.account_address p.bridger)
              p.amount)
          native pull in
      let hashed = order_hash hash env config p in
      ground (
        arith,
        b t,
        at,
        appended,
        e,
        new,
        total-insert (deposit_in peers d.native t) order p book,
        law.append_keeps after w' config.merkle_manager hashed legs.leaf_domain_ad t,
        Pulled-raises peers hash d law env at w after p.order_chain_token p.bridger p.amount t
            named,
      )

  -- A deposit that leaves the book is paid or credited.
  pub Delivered-Backed :
      (p : OrderParams) (order recipient : ℕ) (left : State)
      → lookup order book ≡ some p
      → left.common.claimable ≡ s.common.claimable
      → Delivered peers env left s' w w' d.native recipient p.order_chain_token p.amount
      → Backed peers d.here d.native (erase order book) s' w'
  Delivered-Backed p order recipient left held kept (direct decoded moved e) t =
      let contract = token_contract peers d.native p.order_chain_token in
      let to = peers.account_address recipient in
      ground (
        arith,
        b t,
        at,
        total-erase (deposit_in peers d.native t) order book,
        law.lawful.debit w w' contract d.here to p.amount decoded,
        law.lawful.other_token w w' contract t d.here to p.amount decoded,
      )
  Delivered-Backed p order recipient left held kept (credited refused same e) t =
      let key : ℕ × ℕ = (recipient, p.order_chain_token) in
      let now = get_claimable recipient p.order_chain_token left.common + p.amount in
      ground (
        arith,
        b t,
        total-erase (deposit_in peers d.native t) order book,
        total-insert (credit_in peers d.native t) key now s.common.claimable,
        total-erase (credit_in peers d.native t) key s.common.claimable,
        lookup key s.common.claimable,
      )

  pub Claimed-Backed :
      (recipient token : ℕ) (config : ContractConfig)
      → Claimed peers env s s' w w' recipient token config
      → config.w_native_token ≡ d.native
      → Backed peers d.here d.native book s' w'
  Claimed-Backed recipient token config c native t =
      let contract = token_contract peers d.native token in
      let to = peers.account_address recipient in
      let credit = get_claimable recipient token s.common in
      ground (
        arith,
        b t,
        at,
        native,
        c.moved,
        c.written,
        total-erase (credit_in peers d.native t) (recipient, token) s.common.claimable,
        law.lawful.debit w w' contract d.here to credit true,
        law.lawful.other_token w w' contract t d.here to credit true,
      )
