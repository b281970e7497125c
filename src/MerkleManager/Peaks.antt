-- ===== src/MerkleManager/Peaks.antt =====
-- Where the peaks of a mountain range stand.
use proofbridge_contracts.Base.{
  ℕ, zero, suc, ◌+◌, ◌-◌, ◌*◌, ◌/◌, ◌%◌, ◌^◌, ◌≤◌, ◌<◌, ◌≡◌, refl, sym, ap, subst, ◌∙◌, true, false,
  ◌==◌, nat_eq, some, List, [], ◌∷◌, length, ltb, leb, arith, Bool-cases, inl, inr,
}
use native.Mathlib.Nat.{div-eq_of_lt-le, pow-le-pow_right}
use proofbridge_contracts.MerkleManager.Positions.{
  bit_at, height_loop, has_bit, peak_loop, num_of_peaks, calc_size, get_peak_indexes,
}
use proofbridge_contracts.MerkleManager.Counting.{
  popcount, popcount_zero, num_of_peaks_lem, calc_size_lem,
}

-- The top bit of n + 1 bits counts once.
popcount_low : (n w : ℕ) → w < 2 ^ n → popcount (suc n) w ≡ popcount n w
unfolding popcount
popcount_low zero w small = omega arith
popcount_low (suc n) w small = omega (arith, popcount_low n (w / 2) (omega arith))

popcount_high : (n w : ℕ) → w < 2 ^ n → popcount (suc n) (2 ^ n + w) ≡ popcount n w + 1
unfolding popcount
popcount_high zero w small = ground arith
popcount_high (suc n) w small =
    let half : (2 ^ suc n + w) / 2 ≡ 2 ^ n + w / 2 = omega arith in
    let low : (2 ^ suc n + w) % 2 ≡ w % 2 = omega arith in
    rw (half, low) (omega (arith, popcount_high n (w / 2) (omega arith)))

two_pow_le : (n m : ℕ) → n ≤ m → 2 ^ n ≤ 2 ^ m
two_pow_le n m h = pow-le-pow_right (omega arith) h

-- Bits above the number do not count.
popcount_wide : (k n m w : ℕ) → k + n ≡ m → w < 2 ^ n → popcount m w ≡ popcount n w
popcount_wide zero n m w e small =
    let same : n ≡ m = omega arith in ap (λ x. popcount x w) (sym same)
popcount_wide (suc k) n zero w e small = absurd (omega arith)
popcount_wide (suc k) n (suc m) w e small =
    popcount_low m w (omega (arith, two_pow_le n m (omega arith), small))
    ∙ popcount_wide k n m w (omega arith) small

unfoldable pub last_or : ℕ → List ℕ → ℕ
last_or d [] = d
last_or d (x ∷ xs) = last_or x xs

quotient_low : (w high n low : ℕ) → w ≡ high * 2 ^ n + low → low < 2 ^ n → w / 2 ^ n ≡ high
quotient_low w high n low e small = div-eq_of_lt-le (2 ^ n) (omega arith) (grind arith)

-- One bit more: the equation of the number with its top bit unset and set.
top_unset : (w high n low : ℕ) → w ≡ high * 2 ^ suc n + low → w ≡ 2 * high * 2 ^ n + low
top_unset w high n low e = grind arith

top_set :
    (w high n low : ℕ)
    → w ≡ high * 2 ^ suc n + low
    → 2 ^ n ≤ low
    → w ≡ (2 * high + 1) * 2 ^ n + (low - 2 ^ n)
top_set w high n low e above = grind arith

has_bit_unset : (w high n low : ℕ) → w ≡ 2 * high * 2 ^ n + low → low < 2 ^ n → has_bit w n ≡ false
has_bit_unset w high n low e small = ground (arith, quotient_low w (2 * high) n low e small)

has_bit_set :
    (w high n low : ℕ) → w ≡ (2 * high + 1) * 2 ^ n + low → low < 2 ^ n → has_bit w n ≡ true
has_bit_set w high n low e small = ground (arith, quotient_low w (2 * high + 1) n low e small)

-- What the rounds below a bit return, from a running size.
abbrev Ends : ℕ → ℕ → ℕ → ℕ → Type 0
Ends n w low running =
    (l : List ℕ) × (peak_loop n w running ≡ some l)
    × (length l ≡ popcount n low)
    × (last_or running l + popcount n low ≡ running + 2 * low)

Ends-unset :
    (n w low running : ℕ)
    → has_bit w n ≡ false
    → low < 2 ^ n
    → Ends n w low running
    → Ends (suc n) w low running
Ends-unset n w low running unset small (l, runs, long, end) =
    let count = popcount_low n low small in
    (
      l,
      unfold peak_loop in ground (arith, unset, runs),
      omega (arith, count, long),
      omega (arith, count, end),
    )

Ends-set :
    (n w low running : ℕ)
    → suc n < 128
    → has_bit w n ≡ true
    → low < 2 ^ n
    → running + 2 * (2 ^ n + low) < 2 ^ 128
    → Ends n w low (running + 2 ^ suc n - 1)
    → Ends (suc n) w (2 ^ n + low) running
Ends-set n w low running few set small fits (l, runs, long, end) =
    let count = popcount_high n low small in
    let bit : bit_at (suc n) ≡ some (2 ^ suc n) = unfold bit_at in ground arith in
    let room : ltb (running + 2 ^ suc n) (2 ^ 128) ≡ true = ground arith in
    (
      (running + 2 ^ suc n - 1) ∷ l,
      unfold peak_loop in ground (arith, set, bit, room, runs),
      omega (arith, count, long),
      unfold last_or in omega (arith, count, end),
    )

-- The loop reads only the bits below its rounds.
peak_loop-Ends :
    (n w high low running : ℕ)
    → n < 128
    → w ≡ high * 2 ^ n + low
    → low < 2 ^ n
    → running + 2 * low < 2 ^ 128
    → Ends n w low running
peak_loop-Ends zero w high low running few e small fits =
    ([], unfold peak_loop in refl, unfold popcount in refl, unfold popcount last_or in omega arith)
peak_loop-Ends (suc n) w high low running few e small fits = elim (Bool-cases (ltb low (2 ^ n))) [
  | inl below ↦
      let less : low < 2 ^ n = ground arith in
      let e' = top_unset w high n low e in
      Ends-unset n w low running (has_bit_unset w high n low e' less) less
        (peak_loop-Ends n w (2 * high) low running (omega arith) e' less fits)
  | inr above ↦
      let least : 2 ^ n ≤ low = ground arith in
      let e' = top_set w high n low e least in
      let less : low - 2 ^ n < 2 ^ n = omega (arith, least, small) in
      let whole : 2 ^ n + (low - 2 ^ n) ≡ low = omega (arith, least) in
      subst (λ x. Ends (suc n) w x running) whole
        (Ends-set n w (low - 2 ^ n) running few (has_bit_set w high n (low - 2 ^ n) e' less) less
          (omega (arith, fits, whole))
          (peak_loop-Ends n w (2 * high + 1) (low - 2 ^ n) (running + 2 ^ suc n - 1) (omega arith)
            e' less (omega (arith, fits, whole, least))))
]

-- The height loop ends at a height above the width, below 128 rounds.
height_loop-ends :
    (fuel height w : ℕ)
    → w < 2 ^ 127
    → height ≤ 127
    → 127 < fuel + height
    → (top : ℕ) × (height_loop fuel height w ≡ some top) × (top ≤ 127) × (w < 2 ^ top)
unfolding height_loop
height_loop-ends zero height w small low enough = absurd (omega arith)
height_loop-ends (suc fuel) height w small low enough =
    let bit : bit_at height ≡ some (2 ^ height) = unfold bit_at in ground arith in
    elim (Bool-cases (leb (2 ^ height) w)) [
      | inr above ↦ (height, ground (arith, bit, above), low, ground arith)
      | inl below ↦
          let reached : 2 ^ height ≤ w = ground arith in
          let more : height < 127 = elim (Bool-cases (ltb height 127)) [
            | inl under ↦ ground arith
            | inr over ↦
                absurd (omega (arith, reached, two_pow_le 127 height (ground arith), small))
          ] in
          let (top, runs, high, over) =
            height_loop-ends fuel (height + 1) w small (omega arith) (omega arith) in
          (top, ground (arith, bit, below, runs), high, over)
    ]

-- At any width below 127 bits the peak indexes are found, and their count passes the assertion: as
-- many as the width has ones; the last of them is the size of the mountain range.
pub get_peak_indexes-calc_size :
    (w : ℕ)
    → w < 2 ^ 127
    → (l : List ℕ) × (get_peak_indexes w ≡ some l)
      × (num_of_peaks w ≡ some (length l))
      × (calc_size w ≡ some (last_or 0 l))
get_peak_indexes-calc_size w small = elim (Bool-cases (w == 0)) [
  | inl empty ↦
      let none_set : w ≡ 0 = ground arith in
      let zero_ones : popcount 128 0 ≡ 0 = popcount_zero 128 in
      let count = num_of_peaks_lem w (omega arith) in
      let size = calc_size_lem w small in
      (
        [],
        unfold get_peak_indexes in ground (arith, empty, count),
        ground (arith, count, none_set, zero_ones),
        unfold last_or in ground (arith, size, none_set, zero_ones),
      )
  | inr some_leaf ↦
      let (top, found, high, over) = height_loop-ends 128 1 w small (omega arith) (omega arith) in
      let (l, runs, long, end) =
        peak_loop-Ends top w 0 w 0 (omega arith) (omega arith) over (omega arith) in
      let wide = popcount_wide (128 - top) top 128 w (omega arith) over in
      let count = num_of_peaks_lem w (omega arith) in
      let size = calc_size_lem w small in
      let passes : (length l == popcount 128 w) ≡ true = ground (arith, long, wide) in
      (
        l,
        unfold get_peak_indexes in ground (arith, some_leaf, count, found, runs, passes),
        ground (arith, count, long, wide),
        ground (arith, size, end, wide),
      )
]
