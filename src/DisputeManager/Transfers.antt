-- ===== src/DisputeManager/Transfers.antt =====
-- What a successful filing has checked, pulled and written.
use proofbridge_contracts.Base.{
  ℕ, ◌+◌, ◌≡◌, ◌⊎◌, inl, inr, true, none, some, lookup, insert, nat_eq, pair_eq, Env, ok, err, trap,
  arith, Option-cases,
}
use proofbridge_contracts.Core.Orders.{DisputeParams, DisputeRecord, undecided}
use proofbridge_contracts.Core.Bonds.{route_bond, bond_for}
use proofbridge_contracts.DisputeManager.State.{
  State, Tokens, is_escrow, require_escrow, not_initialized,
}
use proofbridge_contracts.DisputeManager.Payouts.{pay}
use proofbridge_contracts.DisputeManager.Disputes.{bond_of, max, is_exact, pull_bond, open_dispute}

-- The record that a filing writes.
abbrev pub filed_rec : Env → DisputeParams → ℕ → ℕ → ℕ → ℕ → ℕ → ℕ → ℕ → DisputeRecord
filed_rec env p escrow filer evidence deadline buffer bond_token bond = record {
  initiator = filer;
  bond = bond;
  challenge_deadline = max (env.timestamp + p.challenge_period) (deadline + buffer);
  initiator_evidence = evidence;
  responder_evidence = 0;
  ruling = undecided;
  escrow = escrow;
  order_deadline = deadline;
  buffer = buffer;
  bond_token = bond_token;
}

bond_of-cases :
    (p : DisputeParams) (token chain amount : ℕ) (s : State)
    → (bond_of p token chain amount s ≡ trap)
      ⊎ (bond_of p token chain amount s ≡ err not_initialized)
      ⊎ ((bond_token : ℕ) × (bond : ℕ) × (bond_of p token chain amount s
            ≡ ok ((bond_token, bond), s)))
unfolding bond_of
bond_of-cases p token chain amount s = elim (Option-cases (lookup (token, chain) s.bond_configs)) [
  | inr (c, found) ↦ elim (Option-cases (route_bond c amount)) [
    | inl over ↦ inl (ground arith)
    | inr (bond, computed) ↦ inr (inr (token, bond, ground arith))
  ]
  | inl missing ↦ elim (Option-cases s.w_native) [
    | inl unset ↦ inr (inl (ground arith))
    | inr (w, found) ↦ inr (inr (w, bond_for p, ground arith))
  ]
]

module _ {World : Type 0} (tokens : Tokens World) (env : Env) (s s' : State) (w w' : World) where
  -- What a successful filing has checked, pulled and written.
  pub record Opened (escrow order chain filer evidence deadline buffer token amount : ℕ)
      (p : DisputeParams) (bond_token bond : ℕ) : Type 0 where
    pub escrow_signed : env.authorized escrow ≡ true
    pub served : is_escrow escrow s ≡ true
    pub filer_signed : env.authorized filer ≡ true
    pub new : lookup order s.disputes ≡ none
    pub ruled_by : lookup chain s.params ≡ some p
    pub priced : bond_of p token chain amount s ≡ ok ((bond_token, bond), s)
    pub moved : tokens.try_transfer w bond_token filer env.current_contract bond ≡ some (w', true)
    pub exact :
        is_exact
          (tokens.balance w bond_token env.current_contract)
          (tokens.balance w' bond_token env.current_contract)
          bond
        ≡ true
    pub written : s' ≡ record s {
      disputes =
          insert order
            (filed_rec env p escrow filer evidence deadline buffer bond_token bond)
            s.disputes;
    }

  open_priced :
      (escrow order chain filer evidence deadline buffer token amount : ℕ) {charged : ℕ}
      (p : DisputeParams) (bond_token bond : ℕ)
      → open_dispute tokens env escrow order chain filer evidence deadline buffer token amount
          (s, w)
        ≡ ok (charged, (s', w'))
      → lookup chain s.params ≡ some p
      → bond_of p token chain amount s ≡ ok ((bond_token, bond), s)
      → (charged ≡ bond)
        × Opened escrow order chain filer evidence deadline buffer token amount p bond_token bond
  unfolding open_dispute pull_bond pay require_escrow
  open_priced escrow order chain filer evidence deadline buffer token amount p bond_token bond h
        found priced =
      ground arith

  pub open_dispute-Opened :
      (escrow order chain filer evidence deadline buffer token amount : ℕ) {charged : ℕ}
      → open_dispute tokens env escrow order chain filer evidence deadline buffer token amount
          (s, w)
        ≡ ok (charged, (s', w'))
      → (p : DisputeParams) × (bond_token : ℕ) × (bond : ℕ) × (charged ≡ bond)
        × Opened escrow order chain filer evidence deadline buffer token amount p bond_token bond
  open_dispute-Opened escrow order chain filer evidence deadline buffer token amount h =
      elim (Option-cases (lookup chain s.params)) [
        | inl missing ↦ absurd (unfold open_dispute require_escrow in ground arith)
        | inr (p, found) ↦ elim (bond_of-cases p token chain amount s) [
          | inl over ↦ absurd (unfold open_dispute require_escrow in ground arith)
          | inr (inl unset) ↦ absurd (unfold open_dispute require_escrow in ground arith)
          | inr (inr (bond_token, bond, priced)) ↦
              let (same, done) =
                open_priced escrow order chain filer evidence deadline buffer token amount p
                  bond_token bond h found priced in
              (p, bond_token, bond, same, done)
        ]
      ]
