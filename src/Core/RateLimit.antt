-- ===== src/Core/RateLimit.antt =====
-- stellar/lib/proofbridge-core/src/rate_limit.rs: a token bucket. Amounts are below 2 ^ 128 and times
-- below 2 ^ 64; the checked products and sums are written out.
use proofbridge_contracts.Base.{ℕ, ◌+◌, ◌-◌, ◌*◌, ◌^◌, Option, none, some, ltb, leb, if◌then◌else◌}
pub mod Volume

pub record Limit : Type 0 where
  pub capacity : ℕ
  pub refill_per_second : ℕ

-- `level` is the remaining allowance.
pub record Bucket : Type 0 where
  pub level : ℕ
  pub last_ts : ℕ

unfoldable pub full : Limit → ℕ → Bucket
full limit now = record { level = limit.capacity; last_ts = now }

-- `saturating_sub` is the subtraction of natural numbers.
unfoldable pub available : Limit → Bucket → ℕ → ℕ
available limit bucket now =
    let elapsed = now - bucket.last_ts in
    let refilled = limit.refill_per_second * elapsed in
    let level = bucket.level + refilled in
    if ltb refilled (2 ^ 128)
    then (if ltb level (2 ^ 128)
        then (if leb level limit.capacity then level else limit.capacity)
        else limit.capacity)
    else limit.capacity

unfoldable pub try_spend : Limit → Bucket → ℕ → ℕ → Option Bucket
try_spend limit bucket spend now =
    let level = available limit bucket now in
    if ltb level spend
    then none
    else some (record {
      level = level - spend;
      last_ts = if ltb bucket.last_ts now then now else bucket.last_ts;
    })
