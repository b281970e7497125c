-- ===== src/Tests/Rules.antt =====
-- Fees, bonds, clocks, decimals and buckets of the shared crate.
use proofbridge_contracts.Base.{
  ℕ, ◌+◌, ◌-◌, ◌*◌, ◌/◌, ◌^◌, ◌≤◌, ◌≡◌, ◌⊎◌, refl, true, some, ok, err, List, [], ◌∷◌, arith,
}
use proofbridge_contracts.Core.Orders.{BondConfig}
use proofbridge_contracts.Core.Fees.{bps_of, split_fee, fees_valid}
use proofbridge_contracts.Core.Fees.Exactness.{bps_of-exact, split_fee_bounds}
use proofbridge_contracts.Core.Bonds.{route_bond, validate_bond, i128_max}
use proofbridge_contracts.Core.Bonds.Charge.{route_bond_bounds, exact_bond}
use proofbridge_contracts.Core.Scaling.{scale, DecimalScalingError}
use proofbridge_contracts.Core.Scaling.RoundTrip.{scale_value, scale_complete, scale-scale}
use proofbridge_contracts.Core.RateLimit.{Limit, available, full, try_spend}
use proofbridge_contracts.Core.RateLimit.Volume.{
  refilled, available-eq-refilled, run_spends, spent-le-volume,
}

bps_of-exact_example : bps_of 123_456 25 ≡ some 308
bps_of-exact_example = bps_of-exact 123_456 25 (omega arith) (omega arith)

split_fee_bounds_example :
    (split_fee 1_000_000 30 10 ≡ some (1_000_000 * 30 / 10_000, 1_000_000 * 10 / 10_000))
    × ((1_000_000 * 30 / 10_000 + 1_000_000 * 10 / 10_000) * 50 ≤ 1_000_000)
unfolding fees_valid
split_fee_bounds_example = split_fee_bounds 1_000_000 30 10 true (omega arith) refl

abbrev route : BondConfig
route = record { min_bond = 500; bond_bps = 200 }

route_bond_bounds_example :
    (route_bond route 100_000 ≡ some (exact_bond route 100_000))
    × (500 ≤ exact_bond route 100_000)
    × ((exact_bond route 100_000 ≡ 500) ⊎ (exact_bond route 100_000 * 20 ≤ 100_000))
    × (exact_bond route 100_000 ≤ i128_max)
unfolding validate_bond
route_bond_bounds_example = route_bond_bounds route 100_000 (omega arith) refl

scale_value_example : 5_000 * 10 ^ 7 ≡ 500_000_000 * 10 ^ 2
unfolding scale
scale_value_example = scale_value 5_000 2 7 refl

scale_complete_example : scale 1_230 3 2 ≡ ok 123
scale_complete_example =
    scale_complete 1_230 3 2 123 (omega arith) (omega arith) (omega arith) (omega arith)

scale-scale_example : scale 123 2 3 ≡ ok 1_230
unfolding scale
scale-scale_example = scale-scale 1_230 3 2 {scaled = 123} (omega arith) refl

scale_refuses : scale 1_231 3 2 ≡ err DecimalScalingError.non_exact_downscale
unfolding scale
scale_refuses = refl

abbrev limit : Limit
limit = record { capacity = 1_000; refill_per_second = 10 }

available-eq-refilled_example :
    available limit (record { level = 100; last_ts = 50 }) 60
    ≡ refilled limit (record { level = 100; last_ts = 50 }) 60
available-eq-refilled_example =
    available-eq-refilled limit (record { level = 100; last_ts = 50 }) 60 (omega arith)

-- A burst, a refusal, a clock that steps back, and a later burst.
abbrev requests : List (ℕ × ℕ)
requests = (1_000, 0) ∷ (11, 1) ∷ (0, 0) ∷ (1_000, 100) ∷ []

run_spends-requests :
    run_spends limit (full limit 0) requests ≡ (2_000, record { level = 0; last_ts = 100 })
unfolding run_spends full try_spend available
run_spends-requests = refl

spent-le-volume_example : (run_spends limit (full limit 0) requests).0 ≤ 1_000 + 10 * (100 - 0)
spent-le-volume_example =
    spent-le-volume limit requests 0 100 (omega arith) (omega arith) (omega arith)
