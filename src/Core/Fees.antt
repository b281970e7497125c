-- ===== src/Core/Fees.antt =====
-- stellar/lib/proofbridge-core/src/fees.rs: the bridge fee on a payout, in basis points of an
-- amount below 2 ^ 128. The products and the sum of `bps_of` are checked at 128 bits.
pub mod Exactness
use proofbridge_contracts.Base.{
  ℕ, ◌+◌, ◌*◌, ◌/◌, ◌%◌, ◌^◌, Bool, ◌&&◌, ◌||◌, ◌==◌, nat_eq, Option, none, some, ltb, leb,
  if◌then◌else◌,
}

abbrev pub max_fee_bps : ℕ
max_fee_bps = 100

-- `floor(amount × bps / 10,000)` without the product; `none` where an operation overflows 128 bits.
unfoldable pub bps_of : ℕ → ℕ → Option ℕ
bps_of amount bps =
    let whole = amount / 10_000 * bps in
    let part = amount % 10_000 * bps in
    if ltb whole (2 ^ 128) && ltb part (2 ^ 128) && ltb (whole + part / 10_000) (2 ^ 128)
    then some (whole + part / 10_000)
    else none

-- `(lp_fee, protocol_fee)`
unfoldable pub split_fee : ℕ → ℕ → ℕ → Option (ℕ × ℕ)
split_fee amount lp_bps protocol_bps = elim (bps_of amount lp_bps) [
  | none ↦ none
  | some lp ↦ elim (bps_of amount protocol_bps) [
    | none ↦ none
    | some protocol ↦ some (lp, protocol)
  ]
]

unfoldable pub fees_valid : ℕ → ℕ → Bool → Bool
fees_valid lp_bps protocol_bps pool_set =
    leb lp_bps max_fee_bps && leb protocol_bps max_fee_bps && (protocol_bps == 0 || pool_set)
