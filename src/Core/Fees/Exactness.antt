-- ===== src/Core/Fees/Exactness.antt =====
-- `bps_of` is the exact floor of the ratio, and never overflows at the bps that the escrows use.
use proofbridge_contracts.Base.{
  ℕ, ◌+◌, ◌*◌, ◌/◌, ◌%◌, ◌^◌, ◌≤◌, ◌<◌, ◌≡◌, ap, Bool, true, some, arith,
}
use proofbridge_contracts.Core.Fees.{bps_of, split_fee, fees_valid}

-- `amount = q × 10,000 + r`, multiplied by the rate.
split_product :
    (amount bps : ℕ) → amount * bps ≡ amount / 10_000 * bps * 10_000 + amount % 10_000 * bps
split_product amount bps =
    let parts : amount ≡ amount / 10_000 * 10_000 + amount % 10_000 = omega arith in
    omega (arith, ap (λ (t : ℕ). t * bps) parts)

pub product-le : (a b c d : ℕ) → a ≤ c → b ≤ d → a * b ≤ c * d
product-le a b c d h k = grind arith

bps_parts :
    (amount bps : ℕ)
    → amount * bps / 10_000 ≡ amount / 10_000 * bps + amount % 10_000 * bps / 10_000
bps_parts amount bps = omega (arith, split_product amount bps)

bps-le : (amount bps : ℕ) → bps ≤ 10_000 → amount * bps / 10_000 ≤ amount
bps-le amount bps rate = omega (arith, product-le amount bps amount 10_000 (omega arith) rate)

-- For every 128-bit amount and every rate of at most 10,000 bps, `bps_of` does not overflow and
-- gives the rounded-down ratio of the unbounded product.
pub bps_of-exact :
    (amount bps : ℕ)
    → amount < 2 ^ 128
    → bps ≤ 10_000
    → bps_of amount bps ≡ some (amount * bps / 10_000)
unfolding bps_of
bps_of-exact amount bps small rate = ground (
  arith,
  bps_parts amount bps,
  bps-le amount bps rate,
  product-le (amount % 10_000) bps 10_000 10_000 (omega arith) rate,
)

-- Where the rates pass `fees_valid`, both fees of a 128-bit amount are computed, each is the
-- rounded-down ratio, and together they take at most 2% of the amount.
pub split_fee_bounds :
    (amount lp_bps protocol_bps : ℕ) (pool_set : Bool)
    → amount < 2 ^ 128
    → fees_valid lp_bps protocol_bps pool_set ≡ true
    → (split_fee amount lp_bps protocol_bps
        ≡ some (amount * lp_bps / 10_000, amount * protocol_bps / 10_000))
      × ((amount * lp_bps / 10_000 + amount * protocol_bps / 10_000) * 50 ≤ amount)
unfolding split_fee fees_valid
split_fee_bounds amount lp_bps protocol_bps pool_set small valid = ground (
  arith,
  bps_of-exact amount lp_bps small,
  bps_of-exact amount protocol_bps small,
  product-le amount lp_bps amount 100 (omega arith),
  product-le amount protocol_bps amount 100 (omega arith),
)
