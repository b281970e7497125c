-- ===== src/DisputeManager/Payouts.antt =====
-- stellar/contracts/dispute-manager/src/lib.rs: bond payouts and credits. A call that uses a token
-- runs on the storage together with the world of the token contracts.
use proofbridge_contracts.Base.{
  ℕ, Bool, true, false, ◌==◌, nat_eq, pair_eq, none, some, insert, Env, Action, ok, err, ◌>>=◌,
  ◌>>◌, pure, fail_if, gets, modify, ok_or, add_checked, if◌then◌else◌,
}
use proofbridge_contracts.DisputeManager.State.{
  State, DisputeManagerError, Tokens, get_claimable, get_token_claimable, not_initialized,
  nothing_to_claim, bond_transfer_failed,
}

abbrev pub Paying : Type 0 → Type 0 → Type 0
Paying World A = Action (State × World) DisputeManagerError A

module _ {World : Type 0} where
  abbrev pub reads : {A : Type 0} → (State → A) → Paying World A
  reads f = gets (λ q. f q.0)

  abbrev pub writes : (State → State) → Paying World (Unit {0})
  writes f = modify (λ q. (f q.0, q.1))

module _ {World : Type 0} (tokens : Tokens World) where
  -- `try_transfer(...)`, where a reply that does not decode is a failure too.
  unfoldable pub pay : ℕ → ℕ → ℕ → ℕ → Paying World (Unit {0})
  pay token from to amount (s, w) = elim (tokens.try_transfer w token from to amount) [
    | none ↦ err bond_transfer_failed
    | some (w', decoded) ↦ if decoded then ok (tt, (s, w')) else err bond_transfer_failed
  ]

  -- `try_transfer(...).is_ok()`
  abbrev pub try_pay : ℕ → ℕ → ℕ → ℕ → Paying World Bool
  try_pay token from to amount (s, w) = elim (tokens.try_transfer w token from to amount) [
    | none ↦ ok (false, (s, w))
    | some (w', _) ↦ ok (true, (s, w'))
  ]

  unfoldable pub credit : ℕ → ℕ → ℕ → Paying World (Unit {0})
  credit to token amount = do
    w_native ← ok_or (← reads (λ s. s.w_native)) not_initialized
    elim (token == w_native) [
      | true ↦
          (reads (get_claimable to) >>= λ owed. add_checked 128 owed amount >>= λ sum.
          writes (λ s. record s { claims = insert to sum s.claims }))
      | false ↦
          (reads (get_token_claimable to token) >>= λ owed. add_checked 128 owed amount >>= λ sum.
          writes (λ s. record s { token_claims = insert (to, token) sum s.token_claims }))
    ]

  -- Best effort, then credit.
  unfoldable pub pay_or_credit : Env → ℕ → ℕ → ℕ → Paying World (Unit {0})
  unfolding credit
  pay_or_credit env to token amount = do
    paid ← try_pay token env.current_contract to amount
    elim paid [ true ↦ pure tt | false ↦ credit to token amount ]

  unfoldable pub claim : Env → ℕ → Paying World (Unit {0})
  unfolding pay
  claim env recipient = do
    amount ← reads (get_claimable recipient)
    fail_if (amount == 0) nothing_to_claim
    writes (λ s. record s { claims = insert recipient 0 s.claims })
    w_native ← ok_or (← reads (λ s. s.w_native)) not_initialized
    pay w_native env.current_contract recipient amount

  -- A credit in a token that is not the wrapped native one.
  unfoldable pub claim_credit : Env → ℕ → ℕ → Paying World (Unit {0})
  unfolding pay
  claim_credit env recipient token = do
    amount ← reads (get_token_claimable recipient token)
    fail_if (amount == 0) nothing_to_claim
    writes (λ s. record s { token_claims = insert (recipient, token) 0 s.token_claims })
    pay token env.current_contract recipient amount

  unfoldable pub claim_token : Env → ℕ → ℕ → Paying World (Unit {0})
  unfolding claim claim_credit
  claim_token env recipient token = do
    w_native ← reads (λ s. s.w_native)
    elim w_native [
      | none ↦ claim_credit env recipient token
      | some w ↦ elim (w == token) [
        | true ↦ claim env recipient
        | false ↦ claim_credit env recipient token
      ]
    ]
