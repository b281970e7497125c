-- ===== src/Core/Scaling/RoundTrip.antt =====
-- Scaling keeps the value: an amount with its decimals stands for a multiple of a power of ten.
use native.Mathlib.Nat.{pow-suc, div-add-mod, mul-div_cancel, mul-mod_left}
use proofbridge_contracts.Base.{
  ℕ, zero, suc, ◌+◌, ◌-◌, ◌*◌, ◌/◌, ◌%◌, ◌^◌, ◌≤◌, ◌<◌, ◌≡◌, sym, ◌∙◌, ap, ok, arith,
}
use proofbridge_contracts.Core.Scaling.{scale, max_decimals}

pow_add : (a d : ℕ) → 10 ^ (a + d) ≡ 10 ^ a * 10 ^ d
pow_add a zero = let e : a + 0 ≡ a = omega arith in rw e (omega arith)
pow_add a (suc d) =
    let e : a + suc d ≡ suc (a + d) = omega arith in
    rw (e, pow-suc 10 (a + d), pow-suc 10 d, pow_add a d) (omega arith)

pow_pos : (n : ℕ) → 0 < 10 ^ n
pow_pos zero = omega arith
pow_pos (suc n) = rw (pow-suc 10 n) (omega (arith, pow_pos n))

-- The product of the smaller power and the factor is the larger power.
pow_split : (a b : ℕ) → a ≤ b → 10 ^ b ≡ 10 ^ a * 10 ^ (b - a)
pow_split a b h = let e : a + (b - a) ≡ b = omega arith in rw e at (pow_add a (b - a))

pow_le : (a b : ℕ) → a ≤ b → 10 ^ a ≤ 10 ^ b
pow_le a b h = grind (arith, pow_split a b h, pow_pos (b - a))

-- A factor of at most thirty decimals fits 128 bits.
factor_fits : (d : ℕ) → d ≤ 30 → 10 ^ d < 2 ^ 128
factor_fits d h = omega (arith, pow_le d 30 h)

up_value : (amount p q f : ℕ) → q ≡ p * f → amount * q ≡ amount * f * p
up_value amount p q f e = grind arith

down_value : (amount p q f k : ℕ) → q ≡ p * f → amount ≡ k * f → amount * p ≡ k * q
down_value amount p q f k e m = rw (m, e) (omega arith)

exact_quotient : (amount f : ℕ) → amount % f ≡ 0 → amount ≡ amount / f * f
exact_quotient amount f m = grind (arith, div-add-mod amount f)

-- A result of `scale` stands for the same value: the amount at its decimals equals the result at
-- the target's decimals, exactly.
pub scale_value :
    (amount from_dec to_dec : ℕ) {scaled : ℕ}
    → scale amount from_dec to_dec ≡ ok scaled
    → amount * 10 ^ to_dec ≡ scaled * 10 ^ from_dec
unfolding scale
scale_value amount from_dec to_dec e = ground (
  arith,
  λ (h : from_dec < to_dec).
      up_value amount (10 ^ from_dec) (10 ^ to_dec) (10 ^ (to_dec - from_dec))
        (pow_split from_dec to_dec (omega arith)),
  λ (h : to_dec < from_dec).
      down_value amount (10 ^ to_dec) (10 ^ from_dec) (10 ^ (from_dec - to_dec))
        (amount / 10 ^ (from_dec - to_dec)) (pow_split to_dec from_dec (omega arith)),
  exact_quotient amount (10 ^ (from_dec - to_dec)),
)

-- The products below a common positive factor are equal.
cancel : (a b p : ℕ) → 0 < p → a * p ≡ b * p → a ≡ b
cancel a b p pos e = sym (mul-div_cancel a pos) ∙ ap (λ (t : ℕ). t / p) e ∙ mul-div_cancel b pos

scale_up :
    (amount scaled p q f : ℕ) → 0 < p → q ≡ p * f → amount * q ≡ scaled * p → amount * f ≡ scaled
scale_up amount scaled p q f pos e h =
    cancel (amount * f) scaled p pos (omega (arith, h, ap (λ (t : ℕ). amount * t) e))

scale_down :
    (amount scaled p q f : ℕ)
    → 0 < p
    → 0 < f
    → q ≡ p * f
    → amount * p ≡ scaled * q
    → (amount % f ≡ 0) × (amount / f ≡ scaled)
scale_down amount scaled p q f pos fpos e h =
    let m : amount ≡ scaled * f =
      cancel amount (scaled * f) p pos (omega (arith, h, ap (λ (t : ℕ). scaled * t) e)) in
    rw m (mul-mod_left scaled f, mul-div_cancel scaled fpos)

-- Between decimals of at most thirty, thirty included, `scale` returns every 128-bit number that
-- stands for the same value: it refuses only what has no exact result in range.
pub scale_complete :
    (amount from_dec to_dec scaled : ℕ)
    → from_dec ≤ max_decimals
    → to_dec ≤ max_decimals
    → scaled < 2 ^ 128
    → amount * 10 ^ to_dec ≡ scaled * 10 ^ from_dec
    → scale amount from_dec to_dec ≡ ok scaled
unfolding scale
scale_complete amount from_dec to_dec scaled hf ht small e = ground (
  arith,
  λ (h : from_dec ≡ to_dec).
      cancel amount scaled (10 ^ from_dec) (pow_pos from_dec) (rw (← h) at e),
  λ (h : from_dec < to_dec).
      scale_up amount scaled (10 ^ from_dec) (10 ^ to_dec) (10 ^ (to_dec - from_dec))
        (pow_pos from_dec) (pow_split from_dec to_dec (omega arith)) e,
  λ (h : to_dec < from_dec).
      scale_down amount scaled (10 ^ to_dec) (10 ^ from_dec) (10 ^ (from_dec - to_dec))
        (pow_pos to_dec) (pow_pos (from_dec - to_dec)) (pow_split to_dec from_dec (omega arith)) e,
  factor_fits (to_dec - from_dec),
  factor_fits (from_dec - to_dec),
)

scale_ranges :
    (amount from_dec to_dec : ℕ) {scaled : ℕ}
    → scale amount from_dec to_dec ≡ ok scaled
    → (from_dec ≤ max_decimals) × (to_dec ≤ max_decimals)
unfolding scale
scale_ranges amount from_dec to_dec e = ground arith

-- What scales to another number of decimals scales back to the same amount.
pub scale-scale :
    (amount from_dec to_dec : ℕ) {scaled : ℕ}
    → amount < 2 ^ 128
    → scale amount from_dec to_dec ≡ ok scaled
    → scale scaled to_dec from_dec ≡ ok amount
scale-scale amount from_dec to_dec {scaled} small e =
    let (hf, ht) = scale_ranges amount from_dec to_dec e in
    scale_complete scaled to_dec from_dec amount ht hf small
      (sym (scale_value amount from_dec to_dec e))
