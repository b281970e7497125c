-- ===== src/Core/Scaling.antt =====
-- stellar/lib/proofbridge-core/src/decimal_scaling.rs: an amount below 2 ^ 128 carried from one
-- number of decimals to another.
use proofbridge_contracts.Base.{
  ℕ, ◌+◌, ◌-◌, ◌*◌, ◌/◌, ◌%◌, ◌^◌, Bool, ◌==◌, nat_eq, Option, none, some, ltb, if◌then◌else◌,
  Result, ok, err, trap,
}
pub mod RoundTrip

abbrev pub max_decimals : ℕ
max_decimals = 30

pub data DecimalScalingError : Type 0 where
  decimals_out_of_range non_exact_downscale overflow : DecimalScalingError

-- `checked_pow` and `checked_mul` at 128 bits.
unfoldable pub checked_pow : ℕ → ℕ → Option ℕ
checked_pow base n = if ltb (base ^ n) (2 ^ 128) then some (base ^ n) else none

unfoldable pub checked_mul : ℕ → ℕ → Option ℕ
checked_mul a b = if ltb (a * b) (2 ^ 128) then some (a * b) else none

unfoldable pub assert_in_range : ℕ → Result DecimalScalingError (Unit {0})
assert_in_range decimals =
    if ltb max_decimals decimals then err DecimalScalingError.decimals_out_of_range else ok tt

infixl 5 ◌>>◌
abbrev ◌>>◌ {ℓ} : {E A : Type ℓ} → Result E (Unit {0}) → Result E A → Result E A
ok _ >> k = k
err x >> k = err x
trap >> k = trap

upscale : ℕ → ℕ → Result DecimalScalingError ℕ
upscale amount delta = elim (checked_pow 10 delta) [
  | none ↦ err DecimalScalingError.overflow
  | some factor ↦ elim (checked_mul amount factor) [
    | none ↦ err DecimalScalingError.overflow
    | some scaled ↦ ok scaled
  ]
]

downscale : ℕ → ℕ → Result DecimalScalingError ℕ
downscale amount delta = elim (checked_pow 10 delta) [
  | none ↦ err DecimalScalingError.overflow
  | some factor ↦
      if amount % factor == 0
      then ok (amount / factor)
      else err DecimalScalingError.non_exact_downscale
]

unfoldable pub scale : ℕ → ℕ → ℕ → Result DecimalScalingError ℕ
unfolding assert_in_range upscale downscale checked_pow checked_mul
scale amount from_dec to_dec = do
  assert_in_range from_dec
  assert_in_range to_dec
  if from_dec == to_dec
      then ok amount
      else if ltb from_dec to_dec
      then upscale amount (to_dec - from_dec)
      else downscale amount (from_dec - to_dec)
