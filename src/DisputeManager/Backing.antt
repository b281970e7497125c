-- ===== src/DisputeManager/Backing.antt =====
-- Every call keeps the module solvent.
use proofbridge_contracts.Base.{
  ℕ, ◌+◌, ◌≤◌, ◌≡◌, refl, subst, inl, inr, some, lookup, insert, total-insert, total-erase, nat_eq,
  pair_eq, ◌==◌, if◌then◌else◌, Env, Host, arith,
}
use proofbridge_contracts.Core.Orders.{DisputeRecord}
use proofbridge_contracts.DisputeManager.State.{State, Tokens}
use proofbridge_contracts.DisputeManager.Histories.{
  Call, IsTyped, calls, elsewhere, Reachable, deployed, later, step,
}
use proofbridge_contracts.DisputeManager.Effects.{ruled_rec}
use proofbridge_contracts.DisputeManager.Deliveries.{
  Delivered, closed, direct, credited, credited_token, native_credit, token_credit,
}
use proofbridge_contracts.DisputeManager.Changes.{
  Effect, quiet, wired, new_params, new_config, opened, closes, answered, ruled, withdrawn,
  step-Effect,
}
use proofbridge_contracts.DisputeManager.Solvency.{
  IsLawful, IsWired, Backed, owed, bond_in, Opened-Backed, Delivered-Backed, Withdrawn-Backed,
}

-- The same debts.
same-Backed :
    {World : Type 0} (tokens : Tokens World) (here : ℕ) (s s' : State) (w w' : World)
    → s'.disputes ≡ s.disputes
    → s'.claims ≡ s.claims
    → s'.token_claims ≡ s.token_claims
    → s'.w_native ≡ s.w_native
    → w' ≡ w
    → Backed tokens here s w
    → Backed tokens here s' w'
same-Backed tokens here s s' w w' d c t n e b token = ground (arith, b token)

-- A dispute is rewritten with the same bond.
rewritten-Backed :
    {World : Type 0} (tokens : Tokens World) (here : ℕ) (s s' : State) (w w' : World) (order : ℕ)
    (d d' : DisputeRecord)
    → lookup order s.disputes ≡ some d
    → d'.bond ≡ d.bond
    → d'.bond_token ≡ d.bond_token
    → s' ≡ record s { disputes = insert order d' s.disputes }
    → w' ≡ w
    → Backed tokens here s w
    → Backed tokens here s' w'
rewritten-Backed tokens here s s' w w' order d d' found bond bond_token e same b token =
    ground (arith, b token, total-insert (bond_in token) order d' s.disputes)

module _ {World : Type 0} (tokens : Tokens World) (env : Env)
    (law : IsLawful tokens env.current_contract) (s s' : State) (w w' : World)
    (b : Backed tokens env.current_contract s w) (fit : IsWired s) where
  closed-left :
      (order : ℕ) (d : DisputeRecord)
      → lookup order s.disputes ≡ some d
      → (t : ℕ)
      → owed t (closed order s) + (if d.bond_token == t then d.bond else 0)
        ≤ tokens.balance w t env.current_contract
  closed-left order d found t = ground (arith, b t, total-erase (bond_in t) order s.disputes)

  Effect-Backed : Effect tokens env s s' w w' → Backed tokens env.current_contract s' w'
  Effect-Backed (quiet q e) =
      same-Backed tokens env.current_contract s s' w w' q.disputes_kept q.claims_kept
        q.token_claims_kept q.w_native_kept e b
  Effect-Backed (wired admin native unset e same) = λ t. ground (arith, b t, fit unset)
  Effect-Backed (new_params _ _ _ q _ e) =
      same-Backed tokens env.current_contract s s' w w' q.disputes_kept q.claims_kept
        q.token_claims_kept q.w_native_kept e b
  Effect-Backed (new_config _ _ _ _ q _ e) =
      same-Backed tokens env.current_contract s s' w w' q.disputes_kept q.claims_kept
        q.token_claims_kept q.w_native_kept e b
  Effect-Backed
        (opened escrow order chain filer evidence deadline buffer token amount p bond_token bond
          small o) =
      Opened-Backed tokens env law s s' w w' b escrow order chain filer evidence deadline buffer
        token amount bond_token bond o
  Effect-Backed (closes escrow order outcome is_bridger returns d c) = elim c.paid [
    | inl (free, e, same) ↦ λ t. ground (arith, closed-left order d c.open_before t)
    | inr delivery ↦
        Delivered-Backed tokens env law s s' w w' b (closed order s) _ d.bond_token d.bond
          (closed-left order d c.open_before) delivery
  ]
  Effect-Backed (answered escrow order responder evidence d a same) =
      rewritten-Backed tokens env.current_contract s s' w w' order d
        (record d { responder_evidence = evidence }) a.open_before refl refl a.written same b
  Effect-Backed (ruled order outcome d arbiter r same) =
      rewritten-Backed tokens env.current_contract s s' w w' order d (ruled_rec env outcome d)
        r.open_before refl refl r.written same b
  Effect-Backed (withdrawn recipient token done) =
      Withdrawn-Backed tokens env law s s' w w' b recipient token done

  Delivered-IsWired :
      (order to token amount : ℕ)
      → Delivered tokens env (closed order s) s' w w' to token amount
      → IsWired s'
  Delivered-IsWired order to token amount (direct _ _ e) unset = ground (arith, fit)
  Delivered-IsWired order to token amount (credited _ _ named e) unset = ground (arith, fit)
  Delivered-IsWired order to token amount (credited_token _ _ _ named _ e) unset =
      ground (arith, fit)

  Effect-IsWired : Effect tokens env s s' w w' → IsWired s'
  Effect-IsWired (quiet q e) unset =
      ground (arith, fit, q.admin_stays, q.w_native_kept, q.claims_kept)
  Effect-IsWired (wired admin native was e same) unset = ground arith
  Effect-IsWired (new_params _ _ _ q _ e) unset =
      ground (arith, fit, q.admin_stays, q.w_native_kept, q.claims_kept)
  Effect-IsWired (new_config _ _ _ _ q _ e) unset =
      ground (arith, fit, q.admin_stays, q.w_native_kept, q.claims_kept)
  Effect-IsWired (opened _ _ _ _ _ _ _ _ _ _ _ _ _ o) unset = ground (arith, fit, o.written)
  Effect-IsWired (closes escrow order outcome is_bridger returns d c) unset = elim c.paid [
    | inl free ↦ ground (arith, fit, free)
    | inr delivery ↦ Delivered-IsWired order _ d.bond_token d.bond delivery unset
  ]
  Effect-IsWired (answered _ _ _ _ _ a _) unset = ground (arith, fit, a.written)
  Effect-IsWired (ruled _ _ _ _ r _) unset = ground (arith, fit, r.written)
  Effect-IsWired (withdrawn _ _ (native_credit named _ e)) unset = ground (arith, fit)
  Effect-IsWired (withdrawn _ _ (token_credit _ e)) unset = ground (arith, fit)

step-Backed :
    {World : Type 0} (host : Host) (tokens : Tokens World) (env : Env) (c : Call)
    (q : State × World)
    → IsTyped c
    → IsLawful tokens env.current_contract
    → Backed tokens env.current_contract q.0 q.1 × IsWired q.0
    → Backed tokens env.current_contract (step host tokens env c q).0 (step host tokens env c q).1
      × IsWired (step host tokens env c q).0
step-Backed host tokens env c q typed law (b, fit) =
    let done = step-Effect host tokens env q.0 q.1 c typed in
    (
      Effect-Backed tokens env law q.0 _ q.1 _ b fit done,
      Effect-IsWired tokens env law q.0 _ q.1 _ b fit done,
    )

reachable-Backed :
    {World : Type 0} (host : Host) (tokens : Tokens World) (here : ℕ) (q : State × World)
    → IsLawful tokens here
    → Reachable host tokens here q
    → Backed tokens here q.0 q.1 × IsWired q.0
reachable-Backed host tokens here q law (deployed w) = (λ t. ground arith, λ unset. (refl, refl))
reachable-Backed host tokens here q law (later r (calls env c p at typed)) =
    subst
      (λ (h : ℕ).
        IsLawful tokens h
        → Backed tokens h p.0 p.1 × IsWired p.0
        → Backed tokens h (step host tokens env c p).0 (step host tokens env c p).1
          × IsWired (step host tokens env c p).0)
      at (step-Backed host tokens env c p typed) law (reachable-Backed host tokens here p law r)
reachable-Backed host tokens here q law (later r (elsewhere s w w' kept)) =
    let (b, fit) = reachable-Backed host tokens here (s, w) law r in
    (λ t. omega (arith, b t, kept t), fit)

-- Where the token contracts are lawful, whatever a fresh deployment has come to, and in every token:
-- the bonds of the open disputes and the credits together are at most the module's balance.
pub reachable_solvent :
    {World : Type 0} (host : Host) (tokens : Tokens World) (here token : ℕ) (q : State × World)
    → IsLawful tokens here
    → Reachable host tokens here q
    → owed token q.0 ≤ tokens.balance q.1 token here
reachable_solvent host tokens here token q law r =
    (reachable-Backed host tokens here q law r).0 token
