-- ===== src/DisputeManager/Standing.antt =====
-- What stands while a dispute is open, and that its escrow can always close it.
use proofbridge_contracts.Base.{
  ℕ, ◌≡◌, ◌≢◌, refl, ◌⊎◌, inl, inr, Bool, true, none, some, lookup, insert, erase, lookup-insert,
  lookup-erase, nat_eq, pair_eq, ◌==◌, Env, Host, arith, Bool-cases,
}
use proofbridge_contracts.Core.Orders.{DisputeRecord, DisputeOutcome, undecided}
use proofbridge_contracts.DisputeManager.State.{State, Tokens}
use proofbridge_contracts.DisputeManager.Histories.{Call, IsTyped, step}
use proofbridge_contracts.DisputeManager.Effects.{ruled_rec}
use proofbridge_contracts.DisputeManager.Transfers.{filed_rec}
use proofbridge_contracts.DisputeManager.Deliveries.{
  Closed, direct, credited, credited_token, native_credit, token_credit,
}
use proofbridge_contracts.DisputeManager.Changes.{
  Effect, quiet, wired, new_params, new_config, opened, closes, answered, ruled, withdrawn,
  step-Effect,
}

-- The filing's terms are the same, and an answer that was given, or the lack of one at a ruling, too.
pub record SameTerms (d d' : DisputeRecord) : Type 0 where
  pub same_initiator : d'.initiator ≡ d.initiator
  pub same_bond : d'.bond ≡ d.bond
  pub same_bond_token : d'.bond_token ≡ d.bond_token
  pub same_evidence : d'.initiator_evidence ≡ d.initiator_evidence
  pub same_escrow : d'.escrow ≡ d.escrow
  pub same_deadline : d'.order_deadline ≡ d.order_deadline
  pub same_buffer : d'.buffer ≡ d.buffer
  pub same_answer :
      (d.responder_evidence ≢ 0) ⊎ (d.ruling ≢ undecided)
      → d'.responder_evidence ≡ d.responder_evidence

SameTerms-refl : (d : DisputeRecord) → SameTerms d d
SameTerms-refl d = ground arith

SameTerms-answered :
    (d : DisputeRecord) (evidence : ℕ)
    → d.responder_evidence ≡ 0
    → d.ruling ≡ undecided
    → SameTerms d (record d { responder_evidence = evidence })
SameTerms-answered d evidence first unruled = record {
  same_initiator = refl;
  same_bond = refl;
  same_bond_token = refl;
  same_evidence = refl;
  same_escrow = refl;
  same_deadline = refl;
  same_buffer = refl;
  same_answer = λ late. elim late [ inl e ↦ absurd (e first) | inr r ↦ absurd (r unruled) ];
}

SameTerms-ruled :
    (env : Env) (outcome : DisputeOutcome) (d : DisputeRecord)
    → SameTerms d (ruled_rec env outcome d)
SameTerms-ruled env outcome d = ground arith

-- What becomes of an open dispute.
abbrev pub Stands : Env → ℕ → DisputeRecord → State → Type 0
Stands env order d s' =
    ((lookup order s'.disputes ≡ none) × (env.authorized d.escrow ≡ true))
    ⊎ ((d' : DisputeRecord) × (lookup order s'.disputes ≡ some d') × SameTerms d d')

module _ (env : Env) (s s' : State) (order : ℕ) (d : DisputeRecord)
    (found : lookup order s.disputes ≡ some d) where
  kept-Stands : s'.disputes ≡ s.disputes → Stands env order d s'
  kept-Stands e = inr (d, rw e found, SameTerms-refl d)

  -- Another record is written at a place where it keeps the terms.
  written-Stands :
      (at : ℕ) (new : DisputeRecord)
      → s'.disputes ≡ insert at new s.disputes
      → ((old : DisputeRecord) → lookup at s.disputes ≡ some old → SameTerms old new)
      → Stands env order d s'
  written-Stands at new e same = elim (Bool-cases (at == order)) [
    | inl here ↦
        let at_order : at ≡ order = ground arith in
        inr (new, ground (arith, lookup-insert at order new s.disputes), same d (rw at_order found))
    | inr there ↦ inr (d, ground (arith, lookup-insert at order new s.disputes), SameTerms-refl d)
  ]

  closed-Stands :
      (at : ℕ) (gone : DisputeRecord)
      → s'.disputes ≡ erase at s.disputes
      → lookup at s.disputes ≡ some gone
      → env.authorized gone.escrow ≡ true
      → Stands env order d s'
  closed-Stands at gone e was signed = elim (Bool-cases (at == order)) [
    | inl here ↦
        let at_order : at ≡ order = ground arith in
        let same : gone ≡ d = ground arith in
        inl (ground (arith, lookup-erase at order s.disputes), rw (← same) signed)
    | inr there ↦ inr (d, ground (arith, lookup-erase at order s.disputes), SameTerms-refl d)
  ]

Closed-disputes :
    {World : Type 0} (tokens : Tokens World) (env : Env) (s s' : State) (w w' : World)
    (escrow order : ℕ) (outcome : DisputeOutcome) (is_bridger returns : Bool) (d : DisputeRecord)
    → Closed tokens env s s' w w' escrow order outcome is_bridger returns d
    → s'.disputes ≡ erase order s.disputes
Closed-disputes tokens env s s' w w' escrow order outcome is_bridger returns d c = elim c.paid [
  | inl free ↦ rw free.1 refl
  | inr (direct _ _ e) ↦ rw e refl
  | inr (credited _ _ _ e) ↦ rw e refl
  | inr (credited_token _ _ _ _ _ e) ↦ rw e refl
]

module _ {World : Type 0} (tokens : Tokens World) (env : Env) (s s' : State) (w w' : World)
    (order : ℕ) (d : DisputeRecord) (found : lookup order s.disputes ≡ some d) where
  Effect-Stands : Effect tokens env s s' w w' → Stands env order d s'
  Effect-Stands (quiet q _) = kept-Stands env s s' order d found q.disputes_kept
  Effect-Stands (wired _ _ _ e _) = kept-Stands env s s' order d found (rw e refl)
  Effect-Stands (new_params _ _ _ q _ _) = kept-Stands env s s' order d found q.disputes_kept
  Effect-Stands (new_config _ _ _ _ q _ _) = kept-Stands env s s' order d found q.disputes_kept
  Effect-Stands
        (opened escrow at chain filer evidence deadline buffer token amount p bond_token bond small
          o) =
      written-Stands env s s' order d found at
        (filed_rec env p escrow filer evidence deadline buffer bond_token bond) (rw o.written refl)
        (λ old was. absurd (ground (arith, o.new)))
  Effect-Stands (closes escrow at outcome is_bridger returns gone c) =
      closed-Stands env s s' order d found at gone
        (Closed-disputes tokens env s s' w w' escrow at outcome is_bridger returns gone c)
        c.open_before (rw c.same_escrow c.escrow_signed)
  Effect-Stands (answered escrow at responder evidence was a _) =
      written-Stands env s s' order d found at (record was { responder_evidence = evidence })
        (rw a.written refl)
        (λ old e.
          let same : old ≡ was = ground (arith, a.open_before) in
          rw same (SameTerms-answered was evidence a.first a.unruled))
  Effect-Stands (ruled at outcome was arbiter r _) =
      written-Stands env s s' order d found at (ruled_rec env outcome was) (rw r.written refl)
        (λ old e.
          let same : old ≡ was = ground (arith, r.open_before) in
          rw same (SameTerms-ruled env outcome was))
  Effect-Stands (withdrawn _ _ (native_credit _ _ e)) =
      kept-Stands env s s' order d found (rw e refl)
  Effect-Stands (withdrawn _ _ (token_credit _ e)) = kept-Stands env s s' order d found (rw e refl)

-- Whatever is called, an open dispute either is closed by a call that the escrow which opened it
-- authorized, or stays open with the same filer, bond, bond token, filed evidence, escrow, order
-- deadline and buffer; an answer that was given stays, and after a ruling none is added.
pub dispute-Stands :
    {World : Type 0} (host : Host) (tokens : Tokens World) (env : Env) (c : Call) (s : State)
    (w : World) (order : ℕ) (d : DisputeRecord)
    → IsTyped c
    → lookup order s.disputes ≡ some d
    → Stands env order d (step host tokens env c (s, w)).0
dispute-Stands host tokens env c s w order d typed found =
    Effect-Stands tokens env s _ w _ order d found (step-Effect host tokens env s w c typed)
