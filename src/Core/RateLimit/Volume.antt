-- ===== src/Core/RateLimit/Volume.antt =====
-- What a bucket admits over a whole history of spends.
use proofbridge_contracts.Base.{
  ℕ, ◌+◌, ◌-◌, ◌*◌, ◌^◌, ◌≤◌, ◌<◌, ◌≡◌, ap, List, [], ◌∷◌, none, some, arith, leb, if◌then◌else◌,
}
use proofbridge_contracts.Core.RateLimit.{Limit, Bucket, full, available, try_spend}

-- The reference: the level after a continuous refill, clamped at the capacity, with no widths.
abbrev pub refilled : Limit → Bucket → ℕ → ℕ
refilled limit bucket now =
    let level = bucket.level + limit.refill_per_second * (now - bucket.last_ts) in
    if leb level limit.capacity then level else limit.capacity

-- With a 128-bit capacity, the checked arithmetic of `available` gives the unbounded refill clamped
-- at the capacity: an overflow means more than the capacity.
pub available-eq-refilled :
    (limit : Limit) (bucket : Bucket) (now : ℕ)
    → limit.capacity < 2 ^ 128
    → available limit bucket now ≡ refilled limit bucket now
unfolding available
available-eq-refilled limit bucket now small = ground arith

-- A history of spend requests, each an amount and a time; a refused one changes nothing.
abbrev pub after_spend : Limit → Bucket → ℕ → ℕ → ℕ × Bucket
after_spend limit bucket spend now = elim (try_spend limit bucket spend now) [
  | none ↦ (0, bucket)
  | some bucket' ↦ (spend, bucket')
]

-- What a history of requests has spent in total, and the bucket that it leaves.
unfoldable pub run_spends : Limit → Bucket → List (ℕ × ℕ) → ℕ × Bucket
run_spends limit bucket [] = (0, bucket)
run_spends limit bucket ((spend, now) ∷ rest) =
    let (spent, bucket') = after_spend limit bucket spend now in
    let (more, bucket'') = run_spends limit bucket' rest in (spent + more, bucket'')

abbrev pub Until : ℕ → List (ℕ × ℕ) → Type 0
Until last [] = Unit {0}
Until last ((spend, now) ∷ rest) = (now ≤ last) × Until last rest

available-le :
    (limit : Limit) (bucket : Bucket) (now : ℕ)
    → limit.capacity < 2 ^ 128
    → available limit bucket now ≤ bucket.level + limit.refill_per_second * (now - bucket.last_ts)
available-le limit bucket now small =
    rw (available-eq-refilled limit bucket now small) (ground arith)

distribute : (rate a b : ℕ) → a ≤ b → rate * (b - a) + rate * a ≡ rate * b
distribute rate a b h =
    let e : b - a + a ≡ b = omega arith in omega (arith, ap (λ (t : ℕ). rate * t) e)

mul_mono : (rate a b : ℕ) → a ≤ b → rate * a ≤ rate * b
mul_mono rate a b h = grind arith

-- One request: what it spends and what it leaves are covered by what was there and the refill of
-- the time that passed on the bucket's own clock, which never runs backwards.
abbrev Covers : Limit → ℕ → Bucket → ℕ × Bucket → Type 0
Covers limit last bucket (spent, bucket') =
    (spent + bucket'.level + limit.refill_per_second * bucket.last_ts
      ≤ bucket.level + limit.refill_per_second * bucket'.last_ts)
    × (bucket.last_ts ≤ bucket'.last_ts)
    × (bucket'.last_ts ≤ last)

module _ (limit : Limit) (small : limit.capacity < 2 ^ 128) where
  spend_step :
      (bucket : Bucket) (spend now last : ℕ)
      → bucket.last_ts ≤ last
      → now ≤ last
      → Covers limit last bucket (after_spend limit bucket spend now)
  unfolding try_spend
  spend_step bucket spend now last h k = ground (
    arith,
    available-le limit bucket now small,
    distribute limit.refill_per_second bucket.last_ts now,
  )

  run_spends-Covers :
      (requests : List (ℕ × ℕ)) (bucket : Bucket) (last : ℕ)
      → bucket.last_ts ≤ last
      → Until last requests
      → Covers limit last bucket (run_spends limit bucket requests)
  unfolding run_spends
  run_spends-Covers [] bucket last h u = (omega arith, omega arith, h)
  run_spends-Covers ((spend, now) ∷ rest) bucket last h (k, u) =
      let step = spend_step bucket spend now last h k in
      let more = run_spends-Covers rest (after_spend limit bucket spend now).1 last step.2 u in
      (omega arith, omega arith, more.2)

-- However the requests of a history fall, and whatever their order in time, a bucket that was full
-- at `start` lets no more than its capacity and the refill from `start` to the latest request be
-- spent: there is no boundary at which an allowance doubles.
pub spent-le-volume :
    (limit : Limit) (requests : List (ℕ × ℕ)) (start last : ℕ)
    → limit.capacity < 2 ^ 128
    → start ≤ last
    → Until last requests
    → (run_spends limit (full limit start) requests).0
      ≤ limit.capacity + limit.refill_per_second * (last - start)
unfolding full
spent-le-volume limit requests start last small h u =
    let covered = run_spends-Covers limit small requests (full limit start) last h u in
    let bucket' = (run_spends limit (full limit start) requests).1 in
    omega (
      arith,
      covered,
      mul_mono limit.refill_per_second bucket'.last_ts last covered.2,
      distribute limit.refill_per_second start last h,
    )
