-- ===== src/DisputeManager/Deliveries.antt =====
-- What closing a dispute and claiming a credit do once they succeed.
use proofbridge_contracts.Base.{
  ℕ, ◌+◌, ◌≡◌, ◌≢◌, ◌⊎◌, inl, inr, Bool, true, none, some, lookup, insert, erase, nat_eq, pair_eq,
  ◌==◌, Env, ok, arith, Bool-cases, Option-cases,
}
use proofbridge_contracts.Core.Orders.{DisputeRecord, DisputeOutcome}
use proofbridge_contracts.Core.Bonds.{bond_returns_to_filer}
use proofbridge_contracts.DisputeManager.State.{State, Tokens, get_claimable, get_token_claimable}
use proofbridge_contracts.DisputeManager.Payouts.{
  pay, credit, pay_or_credit, claim, claim_credit, claim_token,
}
use proofbridge_contracts.DisputeManager.Disputes.{bond_recipient, settle_bond}

module _ {World : Type 0} (tokens : Tokens World) (env : Env) (s s' : State) (w w' : World) where
  -- How an amount reaches its recipient: a transfer, or a credit where the token refuses.
  pub data Delivered (to token amount : ℕ) : Type 0 where
    direct :
        (decoded : Bool)
        → tokens.try_transfer w token env.current_contract to amount ≡ some (w', decoded)
        → s' ≡ s
        → Delivered to token amount
    credited :
        tokens.try_transfer w token env.current_contract to amount ≡ none
        → w' ≡ w
        → s.w_native ≡ some token
        → s' ≡ record s { claims = insert to (get_claimable to s + amount) s.claims }
        → Delivered to token amount
    credited_token :
        (native : ℕ)
        → tokens.try_transfer w token env.current_contract to amount ≡ none
        → w' ≡ w
        → s.w_native ≡ some native
        → native ≢ token
        → s' ≡ record s {
          token_claims =
              insert (to, token) (get_token_claimable to token s + amount) s.token_claims;
        }
        → Delivered to token amount

  pay_or_credit-Delivered :
      (to token amount : ℕ)
      → pay_or_credit tokens env to token amount (s, w) ≡ ok (tt, (s', w'))
      → Delivered to token amount
  unfolding pay_or_credit
  pay_or_credit-Delivered to token amount h =
      elim (Option-cases (tokens.try_transfer w token env.current_contract to amount)) [
        | inr ((after, decoded), done) ↦ direct decoded (ground arith) (ground arith)
        | inl refused ↦ elim (Option-cases s.w_native) [
          | inl unset ↦ absurd (unfold credit in ground arith)
          | inr (native, named) ↦ elim (Bool-cases (token == native)) [
            | inl same ↦
                unfold credit in credited refused (ground arith) (ground arith) (ground arith)
            | inr other ↦
                unfold credit in
                credited_token native refused (ground arith) named (ground arith) (ground arith)
          ]
        ]
      ]

  -- A claim pays exactly the credit and clears it.
  pub claim-ok :
      (recipient : ℕ)
      → claim tokens env recipient (s, w) ≡ ok (tt, (s', w'))
      → (native : ℕ) × (s.w_native ≡ some native)
        × (get_claimable recipient s ≢ 0)
        × (tokens.try_transfer w native env.current_contract recipient (get_claimable recipient s)
            ≡ some (w', true))
        × (s' ≡ record s { claims = insert recipient 0 s.claims })
  claim-ok recipient h = elim (Option-cases s.w_native) [
    | inl unset ↦ absurd (unfold claim in ground arith)
    | inr (native, named) ↦ (
      native,
      named,
      unfold claim pay in ground arith,
      unfold claim pay in ground arith,
      unfold claim pay in ground arith,
    )
  ]

  claim_credit-ok :
      (recipient token : ℕ)
      → claim_credit tokens env recipient token (s, w) ≡ ok (tt, (s', w'))
      → (get_token_claimable recipient token s ≢ 0)
        × (tokens.try_transfer w token env.current_contract recipient
              (get_token_claimable recipient token s)
            ≡ some (w', true))
        × (s' ≡ record s { token_claims = insert (recipient, token) 0 s.token_claims })
  unfolding claim_credit pay
  claim_credit-ok recipient token h = ground arith

-- The storage once a dispute is closed.
abbrev pub closed : ℕ → State → State
closed order s = record s { disputes = erase order s.disputes }

module _ {World : Type 0} (tokens : Tokens World) (env : Env) (s s' : State) (w w' : World) where
  -- What closing a dispute has checked and done.
  pub record Closed (escrow order : ℕ) (outcome : DisputeOutcome) (is_bridger returns : Bool)
      (d : DisputeRecord) : Type 0 where
    pub escrow_signed : env.authorized escrow ≡ true
    pub open_before : lookup order s.disputes ≡ some d
    pub same_escrow : d.escrow ≡ escrow
    pub paid :
        ((d.bond ≡ 0) × (s' ≡ closed order s) × (w' ≡ w))
        ⊎ Delivered tokens env
            (closed order s)
            s'
            w
            w'
            (bond_recipient d (bond_returns_to_filer outcome is_bridger returns) s.fee_pool)
            d.bond_token
            d.bond

  pub settle_bond-Closed :
      (escrow order : ℕ) (outcome : DisputeOutcome) (is_bridger returns : Bool)
      → settle_bond tokens env escrow order outcome is_bridger returns (s, w) ≡ ok (tt, (s', w'))
      → (d : DisputeRecord) × Closed escrow order outcome is_bridger returns d
  settle_bond-Closed escrow order outcome is_bridger returns h =
      elim (Option-cases (lookup order s.disputes)) [
        | inl missing ↦ absurd (unfold settle_bond in ground arith)
        | inr (d, found) ↦ (
          d,
          record {
            escrow_signed = unfold settle_bond in ground arith;
            open_before = found;
            same_escrow = unfold settle_bond in ground arith;
            paid = elim (Bool-cases (d.bond == 0)) [
              | inl free ↦ inl (unfold settle_bond in ground arith)
              | inr owed ↦ inr (
                  pay_or_credit-Delivered tokens env (closed order s) s' w w'
                    (bond_recipient d (bond_returns_to_filer outcome is_bridger returns) s.fee_pool)
                    d.bond_token d.bond (unfold settle_bond in ground arith))
            ];
          },
        )
      ]

  -- A withdrawal of a whole credit, in the wrapped native token or in another one.
  pub data Withdrawn (recipient token : ℕ) : Type 0 where
    native_credit :
        s.w_native ≡ some token
        → tokens.try_transfer w token env.current_contract recipient (get_claimable recipient s)
          ≡ some (w', true)
        → s' ≡ record s { claims = insert recipient 0 s.claims }
        → Withdrawn recipient token
    token_credit :
        tokens.try_transfer w token env.current_contract recipient
            (get_token_claimable recipient token s)
          ≡ some (w', true)
        → s' ≡ record s { token_claims = insert (recipient, token) 0 s.token_claims }
        → Withdrawn recipient token

  pub claim-Withdrawn :
      (recipient : ℕ)
      → claim tokens env recipient (s, w) ≡ ok (tt, (s', w'))
      → (token : ℕ) × Withdrawn recipient token
  claim-Withdrawn recipient h =
      let (native, named, nonzero, moved, done) = claim-ok tokens env s s' w w' recipient h in
      (native, native_credit named moved done)

  pub claim_token-Withdrawn :
      (recipient token : ℕ)
      → claim_token tokens env recipient token (s, w) ≡ ok (tt, (s', w'))
      → Withdrawn recipient token
  claim_token-Withdrawn recipient token h =
      let by_credit = λ (e : claim_credit tokens env recipient token (s, w) ≡ ok (tt, (s', w'))).
        let parts = claim_credit-ok tokens env s s' w w' recipient token e in
        token_credit parts.1 parts.2 in
      elim (Option-cases s.w_native) [
        | inl unset ↦ by_credit (unfold claim_token in ground arith)
        | inr (native, named) ↦ elim (Bool-cases (native == token)) [
          | inr other ↦ by_credit (unfold claim_token in ground arith)
          | inl same ↦
              let parts =
                claim-ok tokens env s s' w w' recipient (unfold claim_token in ground arith) in
              native_credit (ground arith) (ground arith) parts.4
        ]
      ]
