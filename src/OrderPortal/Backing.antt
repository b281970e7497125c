-- ===== src/OrderPortal/Backing.antt =====
-- The portal's tokens back the book and the credits of every portfolio that a fresh deployment comes to.
use proofbridge_contracts.Base.{
  ℕ, ◌≤◌, ◌≡◌, refl, sym, subst, true, some, lookup, nat_eq, Env, Host, arith, ◌↔◌, inl,
}
use proofbridge_contracts.Escrow.State.{get_order_status}
use proofbridge_contracts.Escrow.Termination.{is_presentable}
use proofbridge_contracts.Escrow.Peers.{Peers}
use proofbridge_contracts.Escrow.Legs as legs
use proofbridge_contracts.OrderPortal.State.{State, OrderParams}
use proofbridge_contracts.OrderPortal.Payouts.{Delivered}
use proofbridge_contracts.OrderPortal.Histories.{
  Book, Portfolio, Deployment, After, now, later, calls, elsewhere, Call, IsTyped, step, deployed,
}
use proofbridge_contracts.OrderPortal.Changes.{
  Effect, quiet, recorded, initialized, created, ends, claimed, step-Effect,
}
use proofbridge_contracts.OrderPortal.Solvency.{
  IsHonest, Backed, owed, Created-Backed, Delivered-Backed, Claimed-Backed,
}
use proofbridge_contracts.OrderPortal.Holding.{Matches, held_params, unused_hash, Effect-Matches}

module _ {World : Type 0} (peers : Peers World) (hash : ℕ → ℕ → OrderParams → ℕ) (d : Deployment)
    (law : IsHonest peers hash d) (env : Env) (at : env.current_contract ≡ d.here)
    (book book' : Book) (s s' : State) (w w' : World) (m : Matches hash d book s)
    (b : Backed peers d.here d.native book s w) where
  Effect-Backed :
      {c : Call}
      → Effect peers hash env d c book book' s s' w w'
      → Backed peers d.here d.native book' s' w'
  Effect-Backed (quiet q e same _) = λ t. ground (arith, b t, q.claimable_kept)
  Effect-Backed (recorded _ _ manager order _ _ _ _ _ stored e same) = λ t.
      ground
        (arith, b t, at, stored, law.append_keeps w w' manager order legs.leaf_domain_settled t)
  Effect-Backed (initialized config wired first e unmoved same _) = λ t. ground (arith, b t)
  Effect-Backed (created p config known small _ c same) =
      let (_, new, native) =
        unused_hash peers hash d law env at book book' s s' w w' m p config c in
      subst (λ x. Backed peers d.here d.native x s' w') (sym same)
        (Created-Backed peers hash d law env at book s s' w w' b p config _ c native new)
  Effect-Backed (ends p recipient e known _ same) =
      let (_, found, native) =
        held_params peers hash d law env at book book' s s' w w' m p recipient e known in
      subst (λ x. Backed peers d.here d.native x s' w') (sym same)
        (Delivered-Backed peers hash d law env at book s s' w w' b p _ recipient e.left found
          e.leaves.claimable_kept
          (subst (λ n. Delivered peers env e.left s' w w' n recipient p.order_chain_token p.amount)
            native e.delivered))
  Effect-Backed (claimed recipient token config _ c same) =
      let native : config.w_native_token ≡ d.native = ground (arith, m.configured, c.configured) in
      subst (λ x. Backed peers d.here d.native x s' w') (sym same)
        (Claimed-Backed peers hash d law env at book s s' w w' b recipient token config c native)

-- What every portfolio that a fresh deployment comes to has: the book matches the orders, and the
-- tokens back it.
abbrev pub IsSound :
    {World : Type 0}
    → Peers World
    → (ℕ → ℕ → OrderParams → ℕ)
    → Deployment
    → Portfolio World
    → Type 0
IsSound peers hash d b = Matches hash d b.0 b.1.0 × Backed peers d.here d.native b.0 b.1.0 b.1.1

module _ {World : Type 0} (host : Host) (peers : Peers World) (hash : ℕ → ℕ → OrderParams → ℕ)
    (d : Deployment) (law : IsHonest peers hash d) where
  pub step-IsSound :
      (env : Env) (c : Call) (b : Portfolio World)
      → env.current_contract ≡ d.here
      → IsTyped d c
      → IsSound peers hash d b
      → IsSound peers hash d (step host peers hash env c b)
  step-IsSound env c (book, (s, w)) at typed (m, b) =
      let done = step-Effect host peers hash env d book s w c typed in
      (
        Effect-Matches peers hash d law env at book _ s _ w _ m b done,
        Effect-Backed peers hash d law env at book _ s _ w _ m b done,
      )

  pub After-IsSound :
      {b b' : Portfolio World}
      → After host peers hash d b b'
      → IsSound peers hash d b
      → IsSound peers hash d b'
  After-IsSound now sound = sound
  After-IsSound (later past (calls env c b at typed)) sound =
      step-IsSound env c b at typed (After-IsSound past sound)
  After-IsSound (later past (elsewhere book s w w' kept)) sound =
      let (m, b) = After-IsSound past sound in (m, λ t. omega (arith, b t, kept t))

  pub deployed-IsSound : (w : World) → IsSound peers hash d (deployed w)
  deployed-IsSound w = (
    record {
      configured = inl refl;
      entered = λ order p found. ground arith;
      held = λ order live. ground arith;
    },
    λ t. ground arith,
  )

  -- At every portfolio that a fresh deployment comes to: an order can still end exactly if the book
  -- holds params whose hash it is.
  pub presentable_iff :
      (w : World) (b : Portfolio World) (order : ℕ)
      → After host peers hash d (deployed w) b
      → (is_presentable (get_order_status order b.1.0.common) ≡ true)
        ↔ ((p : OrderParams) × (lookup order b.0 ≡ some p) × (hash d.chain_id d.here p ≡ order))
  presentable_iff w b order past =
      let m = (After-IsSound past (deployed-IsSound w)).0 in
      (
        λ live. let (p, found) = m.held order live in (p, found, (m.entered order p found).2),
        λ e. (m.entered order e.0 e.1).0,
      )

  -- Where the deployment is honest, at every portfolio that a fresh deployment comes to, and in every
  -- token contract: the deposits of the orders that can still end and the credits together are at most
  -- the portal's balance.
  pub portfolio_solvent :
      (w : World) (b : Portfolio World) (token : ℕ)
      → After host peers hash d (deployed w) b
      → owed peers d.native token b.0 b.1.0 ≤ peers.tokens.balance b.1.1 token d.here
  portfolio_solvent w b token past = (After-IsSound past (deployed-IsSound w)).1 token
