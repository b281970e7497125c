-- ===== src/OrderPortal/Payouts.antt =====
-- What the ways an order ends, and a claim of a credit, do once they succeed.
use proofbridge_contracts.Base.{
  ℕ, ◌+◌, ◌≡◌, ◌≢◌, ◌⊎◌, inl, inr, Bool, true, lookup-insert_self, lookup-erase_self, none, some,
  insert, erase, nat_eq, pair_eq, Env, ok, arith, Bool-cases, Option-cases, ◌==◌, if◌then◌else◌,
}
use proofbridge_contracts.Core.Orders.{ContractConfig}
use proofbridge_contracts.Escrow.State.{set_claimable, get_claimable}
use proofbridge_contracts.Escrow.Peers.{Peers}
use proofbridge_contracts.Escrow.Payments as payments
use proofbridge_contracts.Escrow.Payments.{token_contract}
use proofbridge_contracts.OrderPortal.State.{State, get_config, ops}
use proofbridge_contracts.OrderPortal.Checks.{claim}

-- The credits once an amount is one recipient's in a token.
abbrev pub with_credit : ℕ → ℕ → ℕ → State → State
with_credit recipient token amount s = record s {
  common = record s.common {
    claimable =
        if amount == 0
        then erase (recipient, token) s.common.claimable
        else insert (recipient, token) amount s.common.claimable;
  };
}

module _ {World : Type 0} (peers : Peers World) (env : Env) (s s' : State) (w w' : World) where
  -- How an amount reaches its recipient: a transfer, or a credit where the token refuses.
  pub data Delivered (native recipient token amount : ℕ) : Type 0 where
    direct :
        (decoded : Bool)
        → peers.tokens.try_transfer w
            (token_contract peers native token)
            env.current_contract
            (peers.account_address recipient)
            amount
          ≡ some (w', decoded)
        → s' ≡ s
        → Delivered native recipient token amount
    credited :
        (recipient ≡ 0)
          ⊎ (peers.tokens.try_transfer w
                (token_contract peers native token)
                env.current_contract
                (peers.account_address recipient)
                amount
              ≡ none)
        → w' ≡ w
        → s' ≡ with_credit recipient token (get_claimable recipient token s.common + amount) s
        → Delivered native recipient token amount

  pub pay_or_credit-Delivered :
      (native recipient token amount : ℕ)
      → ops (payments.pay_or_credit peers env native recipient token amount) (s, w)
        ≡ ok (tt, (s', w'))
      → Delivered native recipient token amount
  unfolding payments.pay_or_credit payments.try_transfer_to_recipient set_claimable
  pay_or_credit-Delivered native recipient token amount h = elim (Bool-cases (recipient == 0)) [
    | inl nobody ↦ credited (inl (ground arith)) (ground arith) (ground arith)
    | inr somebody ↦
        let contract = token_contract peers native token in
        let to = peers.account_address recipient in
        elim (Option-cases (peers.tokens.try_transfer w contract env.current_contract to amount)) [
          | inl refused ↦ credited (inr refused) (ground arith) (ground arith)
          | inr ((after, decoded), moved) ↦ direct decoded (ground arith) (ground arith)
        ]
  ]

  -- A claim pays exactly the credit and clears it.
  pub record Claimed (recipient token : ℕ) (config : ContractConfig) : Type 0 where
    pub configured : s.common.config ≡ some config
    pub nonzero : get_claimable recipient token s.common ≢ 0
    pub moved :
        peers.tokens.try_transfer w
          (token_contract peers config.w_native_token token)
          env.current_contract
          (peers.account_address recipient)
          (get_claimable recipient token s.common)
        ≡ some (w', true)
    pub written : s' ≡ with_credit recipient token 0 s

  pub claim-Claimed :
      (recipient token : ℕ)
      → claim peers env recipient token (s, w) ≡ ok (tt, (s', w'))
      → (config : ContractConfig) × Claimed recipient token config
  claim-Claimed recipient token h = elim (Option-cases s.common.config) [
    | inl unset ↦ absurd (unfold claim get_config in ground arith)
    | inr (config, found) ↦ (
      config,
      unfold claim get_config payments.claim payments.bytes32_to_account_address payments.transfer
            set_claimable in
          record {
            configured = found;
            nonzero = ground arith;
            moved = ground arith;
            written = ground arith;
          },
    )
  ]

module _ {World : Type 0} (peers : Peers World) (env : Env) (s s' : State) (w w' : World) where
  -- Where an amount has gone: to the recipient's account with no credit changed, or whole onto the
  -- recipient's credit, where it names no account or the token contract refuses.
  abbrev pub Received : (native recipient token amount : ℕ) → Type 0
  Received native recipient token amount =
      let transfer =
        peers.tokens.try_transfer w (token_contract peers native token) env.current_contract
          (peers.account_address recipient) amount in
      ((decoded : Bool) × (transfer ≡ some (w', decoded))
        × (s'.common.claimable ≡ s.common.claimable))
      ⊎ (((recipient ≡ 0) ⊎ (transfer ≡ none))
          × (w' ≡ w)
          × (get_claimable recipient token s'.common
              ≡ get_claimable recipient token s.common + amount))

  pub Delivered-Received :
      (left : State) (native recipient token amount : ℕ)
      → left.common.claimable ≡ s.common.claimable
      → Delivered peers env left s' w w' native recipient token amount
      → Received native recipient token amount
  Delivered-Received left native recipient token amount kept (direct decoded moved e) =
      inl (decoded, moved, ground arith)
  Delivered-Received left native recipient token amount kept (credited refused unmoved e) =
      let credit = get_claimable recipient token left.common + amount in
      inr (
        refused,
        unmoved,
        ground (
          arith,
          kept,
          lookup-insert_self (recipient, token) credit left.common.claimable,
          lookup-erase_self (recipient, token) left.common.claimable,
        ),
      )
