-- ===== src/OrderPortal/Changes.antt =====
-- Every call of the order portal has one of these effects, which are the call's own.
use proofbridge_contracts.Base.{
  ℕ, ◌<◌, ◌^◌, ◌≡◌, ◌≢◌, refl, true, false, some, insert, erase, nat_eq, Env, Host, Result, ok, err,
  trap, arith, Option-cases, inl, inr, ap,
}
use proofbridge_contracts.Core.Orders.{ContractConfig, filled}
use proofbridge_contracts.Escrow.State.{get_order_status, is_settled_recorded, set_settled_recorded}
use proofbridge_contracts.Escrow.Peers.{Peers}
use proofbridge_contracts.Escrow.Legs as legs
use proofbridge_contracts.DisputeManager.Histories.{settle}
use proofbridge_contracts.OrderPortal.State.{State, OrderParams, OrderPortalError, get_config}
use proofbridge_contracts.OrderPortal.Admin.{initialize}
use proofbridge_contracts.OrderPortal.Orders.{order_hash, record_settled}
use proofbridge_contracts.OrderPortal.Effects.{
  Quiet, wiring, pause-Quiet, unpause-Quiet, transfer_admin-Quiet, accept_admin-Quiet,
  activate_timelock-Quiet, propose_action-Quiet, cancel_action-Quiet, set_chain-Quiet,
  remove_chain-Quiet, set_root_verifier-Quiet, unset_root_verifier-Quiet, set_route_timing-Quiet,
  set_root_anchor-Quiet, set_token_route-Quiet, remove_token_route-Quiet,
}
use proofbridge_contracts.OrderPortal.Deposits.{Created, create_order-ok}
use proofbridge_contracts.OrderPortal.Payouts.{Claimed, claim-Claimed}
use proofbridge_contracts.OrderPortal.Endings.{no_settlement}
use proofbridge_contracts.OrderPortal.Leaving.{
  Ended, unlock-Ended, refund_by_cancel-Ended, present_settled-Ended, pay_maker_by_forfeit-Ended,
}
use proofbridge_contracts.OrderPortal.Histories.{
  Call, initializes, pauses, unpauses, accepts_admin, activates, transfers_admin, cancels,
  removes_chain, unsets_root_verifier, sets_root_anchor, proposes, sets_chain, sets_root_verifier,
  removes_token_route, sets_route_timing, sets_token_route, creates, unlocks, refunds, presents,
  forfeits, records_settled, claims, Book, Portfolio, Deployment, IsTyped, enter, leave, step,
}
use proofbridge_contracts.OrderPortal.Calls.{due, Refused}

module _ {World : Type 0} (peers : Peers World) (hash : ℕ → ℕ → OrderParams → ℕ) (env : Env)
    (d : Deployment) (c : Call) (book book' : Book) (s s' : State) (w w' : World) where
  pub data Effect : Type 0 where
    quiet : Quiet s s' → w' ≡ w → book' ≡ book → Refused peers hash env c (s, w) → Effect
    recorded :
        (p : OrderParams) (config : ContractConfig) (manager order : ℕ)
        → c ≡ records_settled p
        → s.common.config ≡ some config
        → order ≡ order_hash hash env config p
        → get_order_status order s.common ≡ filled
        → is_settled_recorded order s.common ≡ false
        → s' ≡ no_settlement order s
        → peers.append w manager env.current_contract order legs.leaf_domain_settled ≡ some w'
        → book' ≡ book
        → Effect
    initialized :
        (config : ContractConfig)
        → wiring (some config) ≡ some (d.native, d.chain_id)
        → s.common.initialized ≡ false
        → s' ≡ record s { common = record s.common { config = some config; initialized = true } }
        → w' ≡ w
        → book' ≡ book
        → Refused peers hash env c (s, w)
        → Effect
    created :
        (p : OrderParams) (config : ContractConfig)
        → d.presented p
        → p.amount < 2 ^ 128
        → c ≡ creates p
        → Created peers hash env s s' w w' p config
        → book' ≡ insert (order_hash hash env config p) p book
        → Effect
    ends :
        (p : OrderParams) (recipient : ℕ) (e : Ended peers hash env s s' w w' p recipient)
        → d.presented p
        → due c ≡ some (p, recipient)
        → book' ≡ erase (order_hash hash env e.config p) book
        → Effect
    claimed :
        (recipient token : ℕ) (config : ContractConfig)
        → c ≡ claims recipient token
        → Claimed peers env s s' w w' recipient token config
        → book' ≡ book
        → Effect

  record_settled-Effect :
      (p : OrderParams)
      → c ≡ records_settled p
      → record_settled peers hash env p (s, w) ≡ ok (tt, (s', w'))
      → book' ≡ book
      → Effect
  record_settled-Effect p named h unchanged = elim (Option-cases s.common.config) [
    | inl unset ↦ absurd (unfold record_settled get_config in ground arith)
    | inr (config, found) ↦
        unfold record_settled get_config legs.record_settled set_settled_recorded
          legs.append_to_merkle in
        recorded p config config.merkle_manager (order_hash hash env config p) named found refl
          (ground arith) (ground arith) (ground arith) (ground arith) unchanged
  ]

  initialize-Effect :
      (admin verifier manager w_native chain : ℕ)
      → IsTyped d (initializes admin verifier manager w_native chain)
      → initialize env admin verifier manager w_native chain (s, w) ≡ ok (tt, (s', w'))
      → book' ≡ book
      → Refused peers hash env c (s, w)
      → Effect
  unfolding initialize
  initialize-Effect admin verifier manager w_native chain typed h unchanged refused =
      initialized
        (record {
          admin = admin;
          verifier = verifier;
          merkle_manager = manager;
          w_native_token = w_native;
          chain_id = chain;
        })
        (ground arith) (ground arith) (ground arith) (ground arith) unchanged refused

Quiet-self : (s : State) → Quiet s s
Quiet-self s = ground arith

module _ {World : Type 0} (peers : Peers World) (hash : ℕ → ℕ → OrderParams → ℕ) (env : Env)
    (d : Deployment) (c : Call) (book : Book) (s : State) (w : World) where
  abbrev Follows : Portfolio World → Type 0
  Follows b = Effect peers hash env d c book b.0 s b.1.0 w b.1.1

  keep-Effect :
      {A : Type 0} (r : Result OrderPortalError (A × (State × World)))
      → (((x : A × (State × World)) → r ≢ ok x) → Refused peers hash env c (s, w))
      → ((a : A) (s' : State) (w' : World)
          → r ≡ ok (a, (s', w'))
          → Effect peers hash env d c book book s s' w w')
      → Follows (book, settle (s, w) r)
  keep-Effect (ok (a, (s', w'))) g f = f a s' w' refl
  keep-Effect (err x) g f = quiet (Quiet-self s) refl refl (g λ x e. cc e)
  keep-Effect trap g f = quiet (Quiet-self s) refl refl (g λ x e. cc e)

  -- A setter's call.
  setter-Effect :
      {A : Type 0} (r : Result OrderPortalError (A × (State × World)))
      → Refused peers hash env c (s, w)
      → ((a : A) (s' : State) (w' : World) → r ≡ ok (a, (s', w')) → Quiet s s' × (w' ≡ w))
      → Follows (book, settle (s, w) r)
  setter-Effect r refused f =
      keep-Effect r (λ _. refused)
        λ a s' w' h. let (q, same) = f a s' w' h in quiet q same refl refused

  leave-Effect :
      (p : OrderParams) (recipient : ℕ) (r : Result OrderPortalError (Unit {0} × (State × World)))
      → d.presented p
      → due c ≡ some (p, recipient)
      → (((x : Unit {0} × (State × World)) → r ≢ ok x) → Refused peers hash env c (s, w))
      → ((s' : State) (w' : World)
          → r ≡ ok (tt, (s', w'))
          → Ended peers hash env s s' w w' p recipient)
      → Follows (leave hash env p (book, (s, w)) r)
  leave-Effect p recipient (ok (done, (s', w'))) known owed g f =
      let e = f s' w' refl in ends p recipient e known owed (rw e.configured refl)
  leave-Effect p recipient (err x) known owed g f = quiet (Quiet-self s) refl refl (g λ x e. cc e)
  leave-Effect p recipient trap known owed g f = quiet (Quiet-self s) refl refl (g λ x e. cc e)

  enter-Effect :
      (p : OrderParams)
      → d.presented p
      → p.amount < 2 ^ 128
      → c ≡ creates p
      → (r : Result OrderPortalError (ℕ × (State × World)))
      → (((x : ℕ × (State × World)) → r ≢ ok x) → Refused peers hash env c (s, w))
      → ((order : ℕ) (s' : State) (w' : World)
          → r ≡ ok (order, (s', w'))
          → (config : ContractConfig) × (order ≡ order_hash hash env config p)
            × Created peers hash env s s' w w' p config)
      → Follows (enter p (book, (s, w)) r)
  enter-Effect p known small called (ok (order, (s', w'))) g f =
      let (config, named, done) = f order s' w' refl in
      created p config known small called done (ap (λ o. insert o p book) named)
  enter-Effect p known small called (err x) g f = quiet (Quiet-self s) refl refl (g λ x e. cc e)
  enter-Effect p known small called trap g f = quiet (Quiet-self s) refl refl (g λ x e. cc e)

module _ {World : Type 0} (host : Host) (peers : Peers World) (hash : ℕ → ℕ → OrderParams → ℕ)
    (env : Env) (d : Deployment) (book : Book) (s : State) (w : World) where
  abbrev Stepped : Call → Type 0
  Stepped c =
      let b = step host peers hash env c (book, (s, w)) in
      Effect peers hash env d c book b.0 s b.1.0 w b.1.1

  pub step-Effect : (c : Call) → IsTyped d c → Stepped c
  unfolding step
  step-Effect pauses _ =
      setter-Effect peers hash env d _ book s w _ tt λ a s' w' h. pause-Quiet host env s s' w w' h
  step-Effect unpauses _ =
      setter-Effect peers hash env d _ book s w _ tt λ a s' w' h. unpause-Quiet host env s s' w w' h
  step-Effect accepts_admin _ =
      setter-Effect peers hash env d _ book s w _ tt
        λ a s' w' h. accept_admin-Quiet host env s s' w w' h
  step-Effect activates _ =
      setter-Effect peers hash env d _ book s w _ tt
        λ a s' w' h. activate_timelock-Quiet host env s s' w w' h
  step-Effect (transfers_admin to) _ =
      setter-Effect peers hash env d _ book s w _ tt
        λ a s' w' h. transfer_admin-Quiet host env s s' w w' to h
  step-Effect (cancels id) _ =
      setter-Effect peers hash env d _ book s w _ tt
        λ a s' w' h. cancel_action-Quiet host env s s' w w' id h
  step-Effect (removes_chain chain) _ =
      setter-Effect peers hash env d _ book s w _ tt
        λ a s' w' h. remove_chain-Quiet host env s s' w w' chain h
  step-Effect (unsets_root_verifier chain) _ =
      setter-Effect peers hash env d _ book s w _ tt
        λ a s' w' h. unset_root_verifier-Quiet host env s s' w w' chain h
  step-Effect (sets_root_anchor anchor) _ =
      setter-Effect peers hash env d _ book s w _ tt
        λ a s' w' h. set_root_anchor-Quiet host env s s' w w' anchor h
  step-Effect (proposes fn_name args) _ =
      setter-Effect peers hash env d _ book s w _ tt
        λ a s' w' h. propose_action-Quiet host env s s' w w' fn_name args h
  step-Effect (sets_chain chain manager) _ =
      setter-Effect peers hash env d _ book s w _ tt
        λ a s' w' h. set_chain-Quiet host env s s' w w' chain manager h
  step-Effect (sets_root_verifier chain module_at) _ =
      setter-Effect peers hash env d _ book s w _ tt
        λ a s' w' h. set_root_verifier-Quiet host env s s' w w' chain module_at h
  step-Effect (removes_token_route token chain) _ =
      setter-Effect peers hash env d _ book s w _ tt
        λ a s' w' h. remove_token_route-Quiet host env s s' w w' token chain h
  step-Effect (sets_route_timing chain t) _ =
      setter-Effect peers hash env d _ book s w _ tt
        λ a s' w' h. set_route_timing-Quiet host env s s' w w' chain t h
  step-Effect (sets_token_route token chain ad_token) _ =
      setter-Effect peers hash env d _ book s w _ tt
        λ a s' w' h. set_token_route-Quiet host env s s' w w' token chain ad_token h
  step-Effect (initializes admin verifier manager w_native chain) typed =
      keep-Effect peers hash env d _ book s w _ (λ h. tt)
        λ a s' w' h.
          initialize-Effect peers hash env d _ book book s s' w w' admin verifier manager w_native
            chain typed h refl tt
  step-Effect (creates p) (known, small) =
      enter-Effect peers hash env d _ book s w p known small refl _ (λ h. h)
        λ order s' w' h. create_order-ok peers hash env s s' w w' p h
  step-Effect (records_settled p) _ =
      keep-Effect peers hash env d _ book s w _ (λ h. h)
        λ a s' w' h. record_settled-Effect peers hash env d _ book book s s' w w' p refl h refl
  step-Effect (claims recipient token) _ =
      keep-Effect peers hash env d _ book s w _ (λ h. h)
        λ a s' w' h.
          let (config, done) = claim-Claimed peers env s s' w w' recipient token h in
          claimed recipient token config refl done refl
  step-Effect (unlocks p nullifier root proof cosig) known =
      leave-Effect peers hash env d _ book s w p _ _ known refl (λ h. h)
        λ s' w' h. unlock-Ended peers hash env s s' w w' p nullifier root proof cosig h
  step-Effect (refunds p root proof) known =
      leave-Effect peers hash env d _ book s w p _ _ known refl (λ h. h)
        λ s' w' h. refund_by_cancel-Ended peers hash env s s' w w' p root proof h
  step-Effect (presents p root proof) known =
      leave-Effect peers hash env d _ book s w p _ _ known refl (λ h. h)
        λ s' w' h. present_settled-Ended peers hash env s s' w w' p root proof h
  step-Effect (forfeits p root proof) known =
      leave-Effect peers hash env d _ book s w p _ _ known refl (λ h. h)
        λ s' w' h. pay_maker_by_forfeit-Ended peers hash env s s' w w' p root proof h
