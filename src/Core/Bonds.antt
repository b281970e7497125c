-- ===== src/Core/Bonds.antt =====
-- stellar/lib/proofbridge-core/src/dispute.rs: dispute parameters, the bond, and where it goes.
use proofbridge_contracts.Base.{
  ℕ, ◌*◌, ◌-◌, ◌^◌, Bool, true, false, not, ◌&&◌, ◌||◌, ◌==◌, nat_eq, Option, none, some, ltb, leb,
  if◌then◌else◌,
}
use proofbridge_contracts.Core.Orders.{
  DisputeParams, BondConfig, DisputeOutcome, mutual_refund, maker_forfeit, bridger_forfeit,
}
use proofbridge_contracts.Core.Fees.{bps_of}
pub mod Charge

abbrev pub min_challenge_period : ℕ
min_challenge_period = 60 * 60

abbrev pub max_challenge_period : ℕ
max_challenge_period = 7 * 24 * 60 * 60

-- `i128::MAX`
abbrev pub i128_max : ℕ
i128_max = 2 ^ 127 - 1

abbrev pub max_bond_bps : ℕ
max_bond_bps = 500

-- `none` where the parameters pass, else the number of the field that failed.
unfoldable pub validate : DisputeParams → Option ℕ
validate p =
    if ltb p.challenge_period min_challenge_period || ltb max_challenge_period p.challenge_period
    then some 1
    else if p.bond_floor == 0 || ltb i128_max p.bond_floor
    then some 2
    else none

unfoldable pub bond_for : DisputeParams → ℕ
bond_for p = p.bond_floor

unfoldable pub validate_bond : BondConfig → Bool
validate_bond c =
    if c.min_bond == 0
    then c.bond_bps == 0
    else leb c.bond_bps max_bond_bps && leb c.min_bond i128_max

-- `none` where `bps_of` overflows.
unfoldable pub route_bond : BondConfig → ℕ → Option ℕ
route_bond c amount = elim (bps_of amount c.bond_bps) [
  | none ↦ none
  | some scaled ↦ some (if ltb scaled c.min_bond then c.min_bond else scaled)
]

unfoldable pub bond_returns_to_filer : DisputeOutcome → Bool → Bool → Bool
bond_returns_to_filer outcome filer_is_bridger return_to_filer =
    if return_to_filer then true else elim outcome [
      | mutual_refund ↦ true
      | maker_forfeit ↦ filer_is_bridger
      | bridger_forfeit ↦ not filer_is_bridger
      | _ ↦ false
    ]
