-- ===== src/MerkleManager/Counting.antt =====
-- How many peaks and nodes a mountain range has.
use proofbridge_contracts.Base.{
  ℕ, zero, suc, ◌+◌, ◌-◌, ◌*◌, ◌/◌, ◌%◌, ◌^◌, ◌≤◌, ◌<◌, ◌≡◌, refl, ◌==◌, nat_eq, some, ltb, arith,
  Bool-cases, inl, inr,
}
use proofbridge_contracts.MerkleManager.Positions.{
  and_bits, count_loop, num_of_peaks, calc_size, get_leaf_index,
}

-- The number of ones among the low n bits.
unfoldable pub popcount : ℕ → ℕ → ℕ
popcount zero w = 0
popcount (suc n) w = w % 2 + popcount n (w / 2)

half_small : (n b : ℕ) → b < 2 ^ suc n → b / 2 < 2 ^ n
half_small n b small = omega arith

and_bits_self : (n b : ℕ) → b < 2 ^ n → and_bits n b b ≡ b
unfolding and_bits
and_bits_self zero b small = omega arith
and_bits_self (suc n) b small =
    let rest = and_bits_self n (b / 2) (half_small n b small) in
    elim (Bool-cases (b % 2 == 1)) [
      | inl odd ↦ ground (arith, rest)
      | inr even ↦ ground (arith, rest)
    ]

popcount_double : (n c : ℕ) → popcount (suc n) (2 * c) ≡ popcount n c
unfolding popcount
popcount_double n c =
    let half : 2 * c / 2 ≡ c = omega arith in
    let low : 2 * c % 2 ≡ 0 = omega arith in rw (half, low) (omega arith)

-- `bits & (bits - 1)` loses exactly one of the ones.
and_bits_fewer :
    (n b : ℕ)
    → 0 < b
    → b < 2 ^ n
    → (popcount n (and_bits n b (b - 1)) + 1 ≡ popcount n b) × (and_bits n b (b - 1) < 2 ^ n)
and_bits_fewer zero b positive small = absurd (omega arith)
and_bits_fewer (suc n) b positive small =
    let less = half_small n b small in
    elim (Bool-cases (b % 2 == 1)) [
      | inl odd ↦
          let down : (b - 1) / 2 ≡ b / 2 = ground arith in
          let whole : and_bits (suc n) b (b - 1) ≡ 2 * (b / 2) =
            unfold and_bits in rw down (ground (arith, and_bits_self n (b / 2) less)) in
          let count : popcount (suc n) b ≡ 1 + popcount n (b / 2) =
            unfold popcount in ground arith in
          rw whole (ground (arith, popcount_double n (b / 2), count))
      | inr even ↦
          let down : (b - 1) / 2 ≡ b / 2 - 1 = ground arith in
          let rest = and_bits_fewer n (b / 2) (ground arith) less in
          let whole : and_bits (suc n) b (b - 1) ≡ 2 * and_bits n (b / 2) (b / 2 - 1) =
            unfold and_bits in rw down (ground arith) in
          let count : popcount (suc n) b ≡ popcount n (b / 2) = unfold popcount in ground arith in
          rw whole (ground (arith, popcount_double n (and_bits n (b / 2) (b / 2 - 1)), count, rest))
    ]

pub popcount_zero : (n : ℕ) → popcount n 0 ≡ 0
unfolding popcount
popcount_zero zero = refl
popcount_zero (suc n) = omega (arith, popcount_zero n)

pub popcount_le : (n w : ℕ) → popcount n w ≤ n
unfolding popcount
popcount_le zero w = omega arith
popcount_le (suc n) w = omega (arith, popcount_le n (w / 2))

-- With as many rounds as ones the loop ends, and has counted the ones.
count_loop_ends :
    (fuel bits count : ℕ)
    → bits < 2 ^ 128
    → popcount 128 bits ≤ fuel
    → count_loop fuel bits count ≡ some (count + popcount 128 bits)
unfolding count_loop
count_loop_ends zero bits count small enough = elim (Bool-cases (ltb 0 bits)) [
  | inl more ↦ absurd (ground (arith, and_bits_fewer 128 bits))
  | inr over ↦ let e : bits ≡ 0 = ground arith in rw (over, e) (ground (arith, popcount_zero 128))
]
count_loop_ends (suc fuel) bits count small enough = elim (Bool-cases (ltb 0 bits)) [
  | inl more ↦
      let (fewer, smaller) = and_bits_fewer 128 bits (ground arith) small in
      let rest =
        count_loop_ends fuel (and_bits 128 bits (bits - 1)) (count + 1) smaller
          (omega (arith, fewer, enough)) in
      ground (arith, more, rest, fewer)
  | inr over ↦ ground (arith, over, popcount_zero 128)
]

-- At any width of 128 bits the loop ends within its 128 rounds, and gives the number of ones of the
-- width.
pub num_of_peaks_lem : (w : ℕ) → w < 2 ^ 128 → num_of_peaks w ≡ some (popcount 128 w)
unfolding num_of_peaks
num_of_peaks_lem w small = ground (arith, count_loop_ends 128 w 0 small (popcount_le 128 w))

pub popcount_le_self : (n w : ℕ) → popcount n w ≤ w
unfolding popcount
popcount_le_self zero w = omega arith
popcount_le_self (suc n) w = omega (arith, popcount_le_self n (w / 2))

-- Below 127 bits the shift drops nothing.
pub calc_size_lem : (w : ℕ) → w < 2 ^ 127 → calc_size w ≡ some (2 * w - popcount 128 w)
unfolding calc_size
calc_size_lem w small = ground (arith, num_of_peaks_lem w, popcount_le_self 128 w)

popcount_even : (n w : ℕ) → w % 2 ≡ 0 → popcount (suc n) (w + 1) ≡ popcount (suc n) w + 1
unfolding popcount
popcount_even n w even =
    let half : (w + 1) / 2 ≡ w / 2 = omega arith in
    let low : (w + 1) % 2 ≡ 1 = omega arith in rw (half, low, even) (omega arith)

-- Below 127 bits: a mountain range of some width has a size, and the next leaf takes the next
-- position.
pub get_leaf_index-calc_size :
    (w : ℕ)
    → w + 1 < 2 ^ 127
    → (size : ℕ) × (calc_size w ≡ some size) × (get_leaf_index (w + 1) ≡ some (size + 1))
unfolding get_leaf_index
get_leaf_index-calc_size w small =
    let here = calc_size_lem w (omega arith) in
    (
      2 * w - popcount 128 w,
      here,
      elim (Bool-cases ((w + 1) % 2 == 1)) [
        | inl odd ↦
            let one_more : popcount 128 (w + 1) ≡ popcount 128 w + 1 =
              popcount_even 127 w (ground arith) in
            ground (arith, odd, one_more, calc_size_lem (w + 1) small, popcount_le_self 128 w)
        | inr even ↦ let back : (w + 1) - 1 ≡ w = omega arith in ground (arith, even, back, here)
      ],
    )
