-- ===== src/Escrow/Payments.antt =====
-- stellar/lib/proofbridge-core/src/token.rs and the pull payments of escrow_ops.rs.
use proofbridge_contracts.Base.{
  ℕ, ◌-◌, ◌*◌, ◌/◌, ◌^◌, Bool, true, false, not, ◌==◌, nat_eq, pair_eq, none, some, if◌then◌else◌,
  Env, Action, ok, err, trap, ◌>>=◌, ◌>>◌, pure, fail_if, gets, unwrap, add_checked,
}
use proofbridge_contracts.Core.Faults.{
  Fault, invalid_account_address, transfer_short, nothing_to_claim,
}
use proofbridge_contracts.Core.Orders.{ContractConfig}
use proofbridge_contracts.DisputeManager.Disputes.{is_exact}
use proofbridge_contracts.Escrow.State.{State, Escrowing, get_claimable, set_claimable}
use proofbridge_contracts.Escrow.Peers.{Peers}

abbrev pub Escrowed : Type 0 → Type 0 → Type 0
Escrowed World A = Action (State × World) Fault A

-- A step on the escrow's storage alone.
abbrev pub stored : {World A : Type 0} → Escrowing A → Escrowed World A
stored m q = elim (m q.0) [ ok (a, s) ↦ ok (a, (s, q.1)) | err x ↦ err x | trap ↦ trap ]

-- 32 bytes of 0xEE
unfoldable pub native_token : ℕ
native_token = 238 * ((2 ^ 256 - 1) / 255)

unfoldable pub is_native_token : ℕ → Bool
unfolding native_token
is_native_token token = token == native_token

module _ {World : Type 0} (peers : Peers World) where
  -- The contract that moves a token: the wrapped native one for the native marker.
  unfoldable pub token_contract : ℕ → ℕ → ℕ
  token_contract w_native token =
      if is_native_token token then w_native else peers.contract_address token

  unfoldable pub bytes32_to_account_address : ℕ → Escrowed World ℕ
  bytes32_to_account_address bytes = do
    fail_if (bytes == 0) invalid_account_address
    pure (peers.account_address bytes)

  -- `transfer`: a refusal is a trap.
  unfoldable pub transfer : ℕ → ℕ → ℕ → ℕ → Escrowed World (Unit {0})
  transfer contract from to amount (s, w) =
      elim (peers.tokens.try_transfer w contract from to amount) [
        | none ↦ trap
        | some (w', decoded) ↦ if decoded then ok (tt, (s, w')) else trap
      ]

  -- A non-native pull is exact.
  unfoldable pub transfer_from_user : Env → ℕ → ℕ → ℕ → ℕ → Escrowed World (Unit {0})
  unfolding token_contract transfer
  transfer_from_user env token w_native from amount =
      let contract = token_contract w_native token in
      let here = env.current_contract in
      elim (is_native_token token) [
        | true ↦ transfer contract from here amount
        | false ↦
            (gets (λ q. peers.tokens.balance q.1 contract here) >>= λ before.
            transfer contract from here amount
            >> (gets (λ q. peers.tokens.balance q.1 contract here) >>= λ after.
                fail_if (not (is_exact before after amount)) transfer_short))
      ]

  unfoldable pub token_decimals : ℕ → ℕ → Escrowed World ℕ
  unfolding token_contract
  token_decimals w_native token = do
    found ← gets (λ q. peers.decimals q.1 (token_contract w_native token))
    unwrap found

  -- Best effort: whether the recipient was paid.
  unfoldable pub try_transfer_to_recipient : Env → ℕ → ℕ → ℕ → ℕ → Escrowed World Bool
  unfolding token_contract
  try_transfer_to_recipient env token w_native recipient amount (s, w) = elim (recipient == 0) [
    | true ↦ ok (false, (s, w))
    | false ↦
        elim (peers.tokens.try_transfer w (token_contract w_native token) env.current_contract
          (peers.account_address recipient) amount) [
            | none ↦ ok (false, (s, w))
            | some (w', _) ↦ ok (true, (s, w'))
          ]
  ]

  unfoldable pub pay_or_credit : Env → ℕ → ℕ → ℕ → ℕ → Escrowed World (Unit {0})
  unfolding try_transfer_to_recipient set_claimable
  pay_or_credit env w_native recipient token amount = do
    paid ← try_transfer_to_recipient env token w_native recipient amount
    elim paid [
      | true ↦ pure tt
      | false ↦
          (gets (λ q. get_claimable recipient token q.0) >>= λ owed.
          add_checked 128 owed amount >>= λ sum. stored (set_claimable recipient token sum))
    ]

  -- Permissionless: it pays only the credited recipient.
  unfoldable pub claim : Env → ContractConfig → ℕ → ℕ → Escrowed World (Unit {0})
  unfolding bytes32_to_account_address transfer token_contract set_claimable
  claim env config recipient token = do
    amount ← gets (λ q. get_claimable recipient token q.0)
    fail_if (amount == 0) nothing_to_claim
    stored (set_claimable recipient token 0)
    to ← bytes32_to_account_address recipient
    transfer (token_contract config.w_native_token token) env.current_contract to amount
