-- ===== src/DisputeManager/Soundness.antt =====
-- What every stored rule and every open dispute satisfies, whatever was called.
use proofbridge_contracts.Base.{
  ℕ, ◌+◌, ◌^◌, ◌≤◌, ◌<◌, ◌≡◌, ◌≢◌, refl, subst, sym, inl, inr, true, none, some, lookup, insert,
  erase, nat_eq, pair_eq, AllAt, AllAt-insert, AllAt-erase, Env, Host, ok, arith, Bool-cases,
  Option-cases, ◌==◌,
}
use proofbridge_contracts.Core.Orders.{
  BondConfig, DisputeParams, DisputeRecord, DisputeOutcome, trade_proceeds,
}
use proofbridge_contracts.Core.Bonds.{validate, validate_bond, bond_for}
use proofbridge_contracts.Core.Bonds.Charge.{route_bond_bounds, exact_bond}
use proofbridge_contracts.DisputeManager.State.{State, Tokens, fresh, store_bond_config}
use proofbridge_contracts.DisputeManager.Disputes.{bond_of, arbiter_may_rule}
use proofbridge_contracts.DisputeManager.Histories.{calls, elsewhere, Reachable, deployed, later}
use proofbridge_contracts.DisputeManager.Effects.{ruled_rec}
use proofbridge_contracts.DisputeManager.Transfers.{filed_rec}
use proofbridge_contracts.DisputeManager.Deliveries.{
  Delivered, closed, direct, credited, credited_token, native_credit, token_credit,
}
use proofbridge_contracts.DisputeManager.Changes.{
  Effect, quiet, wired, new_params, new_config, opened, closes, answered, ruled, withdrawn,
  step-Effect,
}

-- An open dispute cannot end before the order's own deadline and buffer, is not ruled as a trade that
-- went through, and holds a bond that fits a signed 128-bit number.
pub record IsSound (d : DisputeRecord) : Type 0 where
  pub not_early : d.order_deadline + d.buffer ≤ d.challenge_deadline
  pub not_evidence : d.ruling ≢ trade_proceeds
  pub bond_fits : d.bond < 2 ^ 127

pub record Sound (s : State) : Type 0 where
  pub params_valid : AllAt (λ (p : DisputeParams). validate p ≡ none) s.params
  pub configs_valid : AllAt (λ (c : BondConfig). validate_bond c ≡ true) s.bond_configs
  pub disputes_sound : AllAt IsSound s.disputes

fresh-Sound : Sound fresh
fresh-Sound = record {
  params_valid = λ k v h. absurd (cc h);
  configs_valid = λ k v h. absurd (cc h);
  disputes_sound = λ k v h. absurd (cc h);
}

-- A state with the same disputes and rules.
same-Sound :
    (s s' : State)
    → s'.disputes ≡ s.disputes
    → s'.params ≡ s.params
    → s'.bond_configs ≡ s.bond_configs
    → Sound s
    → Sound s'
same-Sound s s' d p c h = record {
  params_valid = subst (AllAt (λ (p : DisputeParams). validate p ≡ none)) (sym p) h.params_valid;
  configs_valid =
      subst (AllAt (λ (c : BondConfig). validate_bond c ≡ true)) (sym c) h.configs_valid;
  disputes_sound = subst (AllAt IsSound) (sym d) h.disputes_sound;
}

-- One dispute is written.
written-Sound :
    (s : State) (order : ℕ) (d : DisputeRecord)
    → IsSound d
    → Sound s
    → Sound (record s { disputes = insert order d s.disputes })
written-Sound s order d sound h = record {
  params_valid = h.params_valid;
  configs_valid = h.configs_valid;
  disputes_sound = AllAt-insert IsSound order d s.disputes sound h.disputes_sound;
}

floor_fits : (p : DisputeParams) → validate p ≡ none → bond_for p < 2 ^ 127
unfolding validate bond_for
floor_fits p valid = ground arith

pub bond_of-fits :
    (s : State) (p : DisputeParams) (token chain amount bond_token bond : ℕ)
    → Sound s
    → amount < 2 ^ 128
    → lookup chain s.params ≡ some p
    → bond_of p token chain amount s ≡ ok ((bond_token, bond), s)
    → bond < 2 ^ 127
bond_of-fits s p token chain amount bond_token bond h small found priced =
    elim (Option-cases (lookup (token, chain) s.bond_configs)) [
      | inr (c, config) ↦
          let charge = route_bond_bounds c amount small (h.configs_valid (token, chain) c config) in
          let charged : exact_bond c amount ≡ bond = unfold bond_of in ground (arith, charge.0) in
          omega (arith, charged, charge.3)
      | inl missing ↦
          let charged : bond_for p ≡ bond = unfold bond_of in ground arith in
          omega (arith, charged, floor_fits p (h.params_valid chain p found))
    ]

ruling_allowed :
    (outcome : DisputeOutcome) → arbiter_may_rule outcome ≡ true → outcome ≢ trade_proceeds
unfolding arbiter_may_rule
ruling_allowed outcome may = ground arith

store_config-valid :
    (s : State) (token chain : ℕ) (c : BondConfig)
    → validate_bond c ≡ true
    → AllAt (λ (c : BondConfig). validate_bond c ≡ true) s.bond_configs
    → AllAt
        (λ (c : BondConfig). validate_bond c ≡ true)
        (store_bond_config token chain c s).bond_configs
store_config-valid s token chain c valid h = elim (Bool-cases (c.min_bond == 0)) [
  | inl cleared ↦
      let e : (store_bond_config token chain c s).bond_configs
          ≡ erase (token, chain) s.bond_configs =
        ground arith in
      rw e
        (AllAt-erase (λ (c : BondConfig). validate_bond c ≡ true) (token, chain) s.bond_configs h)
  | inr kept ↦
      let e : (store_bond_config token chain c s).bond_configs
          ≡ insert (token, chain) c s.bond_configs =
        ground arith in
      rw e (
        AllAt-insert (λ (c : BondConfig). validate_bond c ≡ true) (token, chain) c s.bond_configs
          valid h)
]

module _ {World : Type 0} (tokens : Tokens World) (env : Env) (s s' : State) (w w' : World)
    (h : Sound s) where
  closed-Sound : (order : ℕ) → Sound (closed order s)
  closed-Sound order = record {
    params_valid = h.params_valid;
    configs_valid = h.configs_valid;
    disputes_sound = AllAt-erase IsSound order s.disputes h.disputes_sound;
  }

  Delivered-Sound :
      (order to token amount : ℕ)
      → Delivered tokens env (closed order s) s' w w' to token amount
      → Sound s'
  Delivered-Sound order to token amount (direct _ _ e) = rw e (closed-Sound order)
  Delivered-Sound order to token amount (credited _ _ _ e) =
      same-Sound (closed order s) s' (rw e refl) (rw e refl) (rw e refl) (closed-Sound order)
  Delivered-Sound order to token amount (credited_token _ _ _ _ _ e) =
      same-Sound (closed order s) s' (rw e refl) (rw e refl) (rw e refl) (closed-Sound order)

  pub Effect-Sound : Effect tokens env s s' w w' → Sound s'
  Effect-Sound (quiet q _) = same-Sound s s' q.disputes_kept q.params_kept q.configs_kept h
  Effect-Sound (wired _ _ _ e _) = same-Sound s s' (rw e refl) (rw e refl) (rw e refl) h
  Effect-Sound (new_params chain p valid q e _) = record {
    params_valid = rw e (
        AllAt-insert (λ (p : DisputeParams). validate p ≡ none) chain p s.params valid
          h.params_valid);
    configs_valid = rw q.configs_kept h.configs_valid;
    disputes_sound = rw q.disputes_kept h.disputes_sound;
  }
  Effect-Sound (new_config token chain c valid q e _) = record {
    params_valid = rw q.params_kept h.params_valid;
    configs_valid = rw e (store_config-valid s token chain c valid h.configs_valid);
    disputes_sound = rw q.disputes_kept h.disputes_sound;
  }
  Effect-Sound
        (opened escrow order chain filer evidence deadline buffer token amount p bond_token bond
          small o) =
      let sound : IsSound (filed_rec env p escrow filer evidence deadline buffer bond_token bond) =
        record {
          not_early = ground arith;
          not_evidence = ground arith;
          bond_fits =
              bond_of-fits s p token chain amount bond_token bond h small o.ruled_by o.priced;
        } in
      rw o.written (
        written-Sound s order
          (filed_rec env p escrow filer evidence deadline buffer bond_token bond) sound h)
  Effect-Sound (closes escrow order outcome is_bridger returns d c) = elim c.paid [
    | inl free ↦ rw free.1 (closed-Sound order)
    | inr delivery ↦ Delivered-Sound order _ _ _ delivery
  ]
  Effect-Sound (answered escrow order responder evidence d a _) =
      let was = h.disputes_sound order d a.open_before in
      rw a.written (
        written-Sound s order (record d { responder_evidence = evidence })
          (record {
            not_early = was.not_early;
            not_evidence = was.not_evidence;
            bond_fits = was.bond_fits;
          })
          h)
  Effect-Sound (ruled order outcome d arbiter r _) =
      let was = h.disputes_sound order d r.open_before in
      rw r.written (
        written-Sound s order (ruled_rec env outcome d)
          (record {
            not_early = ground arith;
            not_evidence = ruling_allowed outcome r.may_rule;
            bond_fits = was.bond_fits;
          })
          h)
  Effect-Sound (withdrawn _ _ (native_credit _ _ e)) =
      same-Sound s s' (rw e refl) (rw e refl) (rw e refl) h
  Effect-Sound (withdrawn _ _ (token_credit _ e)) =
      same-Sound s s' (rw e refl) (rw e refl) (rw e refl) h

pub reachable-Sound :
    {World : Type 0} (host : Host) (tokens : Tokens World) (here : ℕ) (q : State × World)
    → Reachable host tokens here q
    → Sound q.0
reachable-Sound host tokens here q (deployed w) = fresh-Sound
reachable-Sound host tokens here q (later r (calls env c p here_is typed)) =
    Effect-Sound tokens env p.0 _ p.1 _ (reachable-Sound host tokens here p r)
      (step-Effect host tokens env p.0 p.1 c typed)
reachable-Sound host tokens here q (later r (elsewhere s w w' kept)) =
    reachable-Sound host tokens here (s, w) r
