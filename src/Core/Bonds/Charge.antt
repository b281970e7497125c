-- ===== src/Core/Bonds/Charge.antt =====
-- What the bond rules guarantee.
use proofbridge_contracts.Base.{
  ℕ, ◌*◌, ◌/◌, ◌^◌, ◌≤◌, ◌<◌, ◌≡◌, ◌⊎◌, true, some, arith, ltb, if◌then◌else◌,
}
use proofbridge_contracts.Core.Orders.{BondConfig}
use proofbridge_contracts.Core.Fees.Exactness.{bps_of-exact, product-le}
use proofbridge_contracts.Core.Bonds.{validate_bond, route_bond, i128_max}

-- The ratio of the unbounded product, raised to the floor.
abbrev pub exact_bond : BondConfig → ℕ → ℕ
exact_bond c amount =
    let scaled = amount * c.bond_bps / 10_000 in
    if ltb scaled c.min_bond then c.min_bond else scaled

-- On a route whose bond config passes `validate_bond`, the bond of every 128-bit amount is computed
-- without overflow, is the larger of the floor and the rounded-down ratio, is the floor or at most 5%
-- of the amount, and fits the signed 128-bit number that moves it.
pub route_bond_bounds :
    (c : BondConfig) (amount : ℕ)
    → amount < 2 ^ 128
    → validate_bond c ≡ true
    → (route_bond c amount ≡ some (exact_bond c amount))
      × (c.min_bond ≤ exact_bond c amount)
      × ((exact_bond c amount ≡ c.min_bond) ⊎ (exact_bond c amount * 20 ≤ amount))
      × (exact_bond c amount ≤ i128_max)
unfolding route_bond validate_bond
route_bond_bounds c amount small valid =
    ground (arith, bps_of-exact amount c.bond_bps small, product-le amount c.bond_bps amount 500)
