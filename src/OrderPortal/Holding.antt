-- ===== src/OrderPortal/Holding.antt =====
-- The book of a history holds the params of every order that can still end, and no others.
use proofbridge_contracts.Base.{
  ℕ, ◌≡◌, subst, ◌∙◌, true, none, some, lookup, insert, erase, nat_eq, ◌==◌, lookup-insert,
  lookup-erase, Env, arith, Bool-cases, Option-cases, ◌⊎◌, inl, inr,
}
use proofbridge_contracts.Core.Orders.{ContractConfig, OrderRecord}
use proofbridge_contracts.Escrow.State.{opened_rec, get_order, get_order_status}
use proofbridge_contracts.Escrow.Termination.{is_presentable}
use proofbridge_contracts.Escrow.Peers.{Peers}
use proofbridge_contracts.OrderPortal.State.{State, OrderParams}
use proofbridge_contracts.OrderPortal.Orders.{order_hash}
use proofbridge_contracts.OrderPortal.Effects.{wiring}
use proofbridge_contracts.OrderPortal.Deposits.{Created}
use proofbridge_contracts.OrderPortal.Payouts.{Delivered, direct, credited}
use proofbridge_contracts.OrderPortal.Histories.{Book, Call, Deployment}
use proofbridge_contracts.OrderPortal.Changes.{
  Effect, quiet, recorded, initialized, created, ends, claimed,
}
use proofbridge_contracts.OrderPortal.Leaving.{Ended}
use proofbridge_contracts.OrderPortal.Solvency.{IsHonest, Backed}

-- An entry of the book: an order that can still end, under the hash of its params.
abbrev Entry : (ℕ → ℕ → OrderParams → ℕ) → Deployment → State → ℕ → OrderParams → Type 0
Entry hash d s order p =
    (is_presentable (get_order_status order s.common) ≡ true)
    × d.presented p
    × (hash d.chain_id d.here p ≡ order)

pub record Matches (hash : ℕ → ℕ → OrderParams → ℕ) (d : Deployment) (book : Book) (s : State)
    : Type 0 where
  pub configured :
      (wiring s.common.config ≡ none) ⊎ (wiring s.common.config ≡ some (d.native, d.chain_id))
  pub entered : (order : ℕ) (p : OrderParams) → lookup order book ≡ some p → Entry hash d s order p
  pub held :
      (order : ℕ)
      → is_presentable (get_order_status order s.common) ≡ true
      → (p : OrderParams) × (lookup order book ≡ some p)

module _ {World : Type 0} (peers : Peers World) (hash : ℕ → ℕ → OrderParams → ℕ) (d : Deployment)
    (law : IsHonest peers hash d) (env : Env) (at : env.current_contract ≡ d.here)
    (book book' : Book) (s s' : State) (w w' : World) (m : Matches hash d book s) where
  kept-Matches :
      s'.common.orders ≡ s.common.orders
      → (wiring s'.common.config ≡ wiring s.common.config)
        ⊎ (wiring s'.common.config ≡ some (d.native, d.chain_id))
      → book' ≡ book
      → Matches hash d book' s'
  kept-Matches orders config same = record {
    configured = ground (arith, m.configured);
    entered = λ order p found. ground (arith, m.entered order p);
    held = λ order live. let (p, found) = m.held order (ground arith) in (p, ground arith);
  }

  Created-Matches :
      (p : OrderParams) (config : ContractConfig)
      → d.presented p
      → Created peers hash env s s' w w' p config
      → book' ≡ insert (order_hash hash env config p) p book
      → Matches hash d book' s'
  Created-Matches p config known c same =
      let h = order_hash hash env config p in
      let (version, e) = c.written in
      let rec = opened_rec env version 0 0 0 in
      let wired : (config.w_native_token ≡ d.native) × (config.chain_id ≡ d.chain_id) =
        ground (arith, m.configured, c.configured) in
      record {
        configured = ground (arith, m.configured);
        entered = λ order p' found. elim (Bool-cases (h == order)) [
          | inl this ↦
              let e' : p ≡ p' = ground (arith, lookup-insert h order p book) in
              subst (λ x. Entry hash d s' order x) e'
                (
                  ground (arith, lookup-insert h order rec s.common.orders),
                  known,
                  ground (arith, at, wired, this),
                )
          | inr other ↦ ground (
            arith,
            m.entered order p',
            lookup-insert h order p book,
            lookup-insert h order rec s.common.orders,
          )
        ];
        held = λ order live. elim (Bool-cases (h == order)) [
          | inl this ↦ (p, ground (arith, lookup-insert h order p book))
          | inr other ↦
              let (p', found) =
                m.held order (ground (arith, lookup-insert h order rec s.common.orders)) in
              (p', ground (arith, lookup-insert h order p book))
        ];
      }

  Ended-Matches :
      (p : OrderParams) (recipient : ℕ) (e : Ended peers hash env s s' w w' p recipient)
      → s'.common.orders ≡ e.left.common.orders
      → s'.common.config ≡ e.left.common.config
      → book' ≡ erase (order_hash hash env e.config p) book
      → Matches hash d book' s'
  Ended-Matches p recipient e orders config same =
      let h = order_hash hash env e.config p in
      let rec : OrderRecord = record (get_order h s.common) { status = e.status } in
      record {
        configured = ground (arith, m.configured, e.leaves.config_kept);
        entered = λ order p' found. elim (Bool-cases (h == order)) [
          | inl this ↦ absurd (ground (arith, lookup-erase h order book))
          | inr other ↦ ground (
            arith,
            m.entered order p',
            lookup-erase h order book,
            lookup-insert h order rec s.common.orders,
            e.leaves.orders_now,
          )
        ];
        held = λ order live. elim (Bool-cases (h == order)) [
          | inl this ↦ absurd (
              ground (
                arith,
                e.leaves.orders_now,
                e.leaves.over,
                lookup-insert h order rec s.common.orders,
              ))
          | inr other ↦
              let (p', found) =
                m.held order (
                  ground (arith, e.leaves.orders_now, lookup-insert h order rec s.common.orders)) in
              (p', ground (arith, lookup-erase h order book))
        ];
      }

-- A delivery touches neither the orders nor the configuration.
pub Delivered-keeps :
    {World : Type 0} (peers : Peers World) (env : Env) (s s' : State) (w w' : World)
    (native recipient token amount : ℕ)
    → Delivered peers env s s' w w' native recipient token amount
    → (s'.common.orders ≡ s.common.orders) × (s'.common.config ≡ s.common.config)
Delivered-keeps peers env s s' w w' native recipient token amount (direct _ _ e) = ground arith
Delivered-keeps peers env s s' w w' native recipient token amount (credited _ _ e) = ground arith

module _ {World : Type 0} (peers : Peers World) (hash : ℕ → ℕ → OrderParams → ℕ) (d : Deployment)
    (law : IsHonest peers hash d) (env : Env) (at : env.current_contract ≡ d.here)
    (book book' : Book) (s s' : State) (w w' : World) (m : Matches hash d book s) where
  -- The book has the very params that an ending presents.
  pub held_params :
      (p : OrderParams) (recipient : ℕ) (e : Ended peers hash env s s' w w' p recipient)
      → d.presented p
      → (order_hash hash env e.config p ≡ hash d.chain_id d.here p)
        × (lookup (order_hash hash env e.config p) book ≡ some p)
        × (e.config.w_native_token ≡ d.native)
  held_params p recipient e known =
      let (p', found) = m.held _ e.leaves.was_presentable in
      let (live, known', hashed) = m.entered _ p' found in
      let wired : (e.config.w_native_token ≡ d.native) × (e.config.chain_id ≡ d.chain_id) =
        ground (arith, m.configured, e.configured) in
      let named : order_hash hash env e.config p ≡ hash d.chain_id d.here p =
        ground (arith, at, wired) in
      let same : p' ≡ p = law.collision_free p' p known' known (hashed ∙ named) in
      (
        named,
        subst (λ x. lookup (order_hash hash env e.config p) book ≡ some x) same found,
        wired.0,
      )

  -- The book has no params under the hash of a new order.
  pub unused_hash :
      (p : OrderParams) (config : ContractConfig)
      → Created peers hash env s s' w w' p config
      → (order_hash hash env config p ≡ hash d.chain_id d.here p)
        × (lookup (order_hash hash env config p) book ≡ none)
        × (config.w_native_token ≡ d.native)
  unused_hash p config c =
      let h = order_hash hash env config p in
      let wired : (config.w_native_token ≡ d.native) × (config.chain_id ≡ d.chain_id) =
        ground (arith, m.configured, c.configured) in
      let new : lookup h book ≡ none = elim (Option-cases (lookup h book)) [
        | inl missing ↦ missing
        | inr (p', found) ↦ absurd (ground (arith, m.entered h p' found, c.new))
      ] in
      (ground (arith, at, wired), new, wired.0)

module _ {World : Type 0} (peers : Peers World) (hash : ℕ → ℕ → OrderParams → ℕ) (d : Deployment)
    (law : IsHonest peers hash d) (env : Env) (at : env.current_contract ≡ d.here)
    (book book' : Book) (s s' : State) (w w' : World) (m : Matches hash d book s)
    (b : Backed peers d.here d.native book s w) where
  pub Effect-Matches :
      {c : Call} → Effect peers hash env d c book book' s s' w w' → Matches hash d book' s'
  Effect-Matches (quiet q e same _) =
      kept-Matches peers hash d law env at book book' s s' w w' m q.orders_kept (inl q.wiring_kept)
        same
  Effect-Matches (recorded _ _ _ _ _ _ _ _ _ stored e same) =
      kept-Matches peers hash d law env at book book' s s' w w' m (ground (arith, stored))
        (inl (ground (arith, stored))) same
  Effect-Matches (initialized config wired first e _ same _) =
      kept-Matches peers hash d law env at book book' s s' w w' m (ground arith)
        (inr (ground arith)) same
  Effect-Matches (created p config known small _ c same) =
      Created-Matches peers hash d law env at book book' s s' w w' m p config known c same
  Effect-Matches (ends p recipient e known _ same) =
      let (orders, config) = Delivered-keeps peers env e.left s' w w' _ _ _ _ e.delivered in
      Ended-Matches peers hash d law env at book book' s s' w w' m p recipient e orders config same
  Effect-Matches (claimed recipient token config _ c same) =
      kept-Matches peers hash d law env at book book' s s' w w' m (ground (arith, c.written))
        (inl (ground (arith, c.written))) same
