-- ===== src/Escrow/Legs.antt =====
-- stellar/lib/proofbridge-core/src/escrow_ops.rs: the pause, the admin handover, the verifiers and
-- the anchor of an escrow, and how a leg ends; and the merkle and proof calls of cross_contract.rs.
use proofbridge_contracts.Base.{
  ℕ, Bool, true, false, not, ◌==◌, nat_eq, none, some, List, [], ◌∷◌, erase, Env, Host, word,
  Action, ok, err, trap, ◌>>=◌, ◌>>◌, pure, fail_if, gets, modify, ok_or, sub_checked,
}
use proofbridge_contracts.Core.Faults.{
  Fault, not_pending_admin, no_root_anchor, root_not_anchored, not_filled, settled_recorded,
  merkle_append_failed, invalid_proof, non_canonical_input,
}
use proofbridge_contracts.Core.Orders.{Status, filled, cancelled, resolved, ContractConfig}
use proofbridge_contracts.Core.Timelock.{Timelock, bump_epoch, gate_keyed, gate_unless, brake_key}
use proofbridge_contracts.Escrow.State.{
  Escrowing, get_order_status, set_order_status, is_settled_recorded, set_settled_recorded,
  store_root_verifier, remove_root_verifier, add_wired_chain, get_in_flight, set_in_flight,
}
use proofbridge_contracts.Escrow.Peers.{Peers}
use proofbridge_contracts.Escrow.Payments.{Escrowed, stored}

unfoldable pub pause : Escrowing (Unit {0})
pause = modify (λ s. record s { paused = true })

unfoldable pub unpause : Escrowing (Unit {0})
unpause = modify (λ s. record s { paused = false })

unfoldable pub transfer_admin : ℕ → Escrowing (Unit {0})
transfer_admin to = modify (λ s. record s { pending_admin = some to })

unfoldable pub pending_admin : Escrowing ℕ
pending_admin = do found ← gets (λ s. s.pending_admin); ok_or found not_pending_admin

-- A call into the shared timelock, on the escrow's keys.
abbrev pub on_timelock : {A : Type 0} → Action Timelock Fault A → Escrowing A
on_timelock m s = elim (m s.timelock) [
  | ok (a, t) ↦ ok (a, record s { timelock = t })
  | err f ↦ err f
  | trap ↦ trap
]

unfoldable pub accept_admin : ContractConfig → ℕ → Escrowing (Unit {0})
unfolding bump_epoch
accept_admin config pending = do
  modify (λ s. record s { config = some (record config { admin = pending }); pending_admin = none })
  on_timelock bump_epoch

unfoldable pub set_root_verifier_gated : Host → Env → ℕ → ℕ → ℕ → Escrowing (Unit {0})
unfolding store_root_verifier add_wired_chain
set_root_verifier_gated host env admin chain module_at = do
  on_timelock (
      gate_keyed host env admin "set_root_verifier" (word chain ∷ word module_at ∷ [])
        (some (brake_key host "set_root_verifier" (word chain))))
  store_root_verifier env chain module_at
  add_wired_chain chain

-- The instant brake.
unfoldable pub unset_root_verifier : Host → Env → ℕ → ℕ → Escrowing (Unit {0})
unfolding remove_root_verifier
unset_root_verifier host env admin chain = do
  on_timelock (
      gate_unless host env admin true "set_root_verifier" []
        (brake_key host "set_root_verifier" (word chain)))
  remove_root_verifier env chain

unfoldable pub set_root_anchor : ℕ → Escrowing (Unit {0})
set_root_anchor anchor = modify (λ s. record s { root_anchor = some anchor })

-- What an MMR leaf records.
abbrev pub leaf_domain_order : ℕ
leaf_domain_order = 0

abbrev pub leaf_domain_ad : ℕ
leaf_domain_ad = 1

abbrev pub leaf_domain_cancel : ℕ
leaf_domain_cancel = 2

abbrev pub leaf_domain_settled : ℕ
leaf_domain_settled = 3

abbrev pub leaf_domain_forfeit : ℕ
leaf_domain_forfeit = 5

-- Counting out mirrors the leg's open.
unfoldable pub count_out : ℕ → Escrowing (Unit {0})
unfolding set_in_flight
count_out account = do
  count ← gets (get_in_flight account)
  rest ← sub_checked count 1
  set_in_flight account rest

unfoldable pub remove_claim : ℕ → Escrowing (Unit {0})
remove_claim order = modify (λ s. record s { claims = erase order s.claims })

-- `Open | Claimed → Filled`
unfoldable pub fill : ℕ → ℕ → Escrowing (Unit {0})
unfolding set_order_status remove_claim count_out
fill order account = do set_order_status order filled; remove_claim order; count_out account

-- `→ Cancelled`
unfoldable pub cancel : ℕ → ℕ → Escrowing (Unit {0})
unfolding set_order_status remove_claim count_out
cancel order account = do set_order_status order cancelled; remove_claim order; count_out account

-- `→ Resolved`
unfoldable pub resolve : ℕ → ℕ → Escrowing (Unit {0})
unfolding set_order_status count_out
resolve order account = do set_order_status order resolved; count_out account

abbrev pub is_filled : Status → Bool
is_filled filled = true
is_filled _ = false

module _ {World : Type 0} (peers : Peers World) where
  unfoldable pub append_to_merkle : Env → ℕ → ℕ → ℕ → Escrowed World (Unit {0})
  append_to_merkle env manager order domain (s, w) =
      elim (peers.append w manager env.current_contract order domain) [
        | none ↦ err merkle_append_failed
        | some w' ↦ ok (tt, (s, w'))
      ]

  unfoldable pub verify_proof : ℕ → List ℕ → ℕ → Escrowed World (Unit {0})
  verify_proof verifier inputs proof = do
    valid ← gets (λ q. peers.verify_proof q.1 verifier inputs proof)
    fail_if (not valid) invalid_proof

  unfoldable pub is_canonical : ℕ → Bool
  is_canonical value = peers.field_mod value == value

  -- The nullifier, the reduced order hash, the root and the chain flag.
  unfoldable pub build_public_inputs : ℕ → ℕ → ℕ → ℕ → Escrowed World (List ℕ)
  unfolding is_canonical
  build_public_inputs nullifier root order chain_flag = do
    fail_if (not (is_canonical nullifier)) non_canonical_input
    pure (nullifier ∷ peers.field_mod order ∷ root ∷ chain_flag ∷ [])

  unfoldable pub build_event_public_inputs : ℕ → ℕ → ℕ → List ℕ
  build_event_public_inputs root subject domain = 0 ∷ peers.field_mod subject ∷ root ∷ domain ∷ []

  -- The root must be notarized by the wired anchor.
  unfoldable pub require_anchored : ℕ → ℕ → Escrowed World (Unit {0})
  require_anchored chain root = do
    found ← gets (λ q. q.0.root_anchor)
    anchor ← ok_or found no_root_anchor
    notarized ← gets (λ q. peers.is_anchored q.1 anchor chain root)
    fail_if (not notarized) root_not_anchored

  -- Append a filled order's SETTLED leaf, once.
  unfoldable pub record_settled : Env → ℕ → ℕ → Escrowed World (Unit {0})
  unfolding set_settled_recorded append_to_merkle
  record_settled env merkle_manager order = do
    status ← gets (λ q. get_order_status order q.0)
    fail_if (not (is_filled status)) not_filled
    recorded ← gets (λ q. is_settled_recorded order q.0)
    fail_if recorded settled_recorded
    stored (set_settled_recorded order)
    append_to_merkle env merkle_manager order leaf_domain_settled
