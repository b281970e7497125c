-- ===== src/Tests/Ranges.antt =====
-- Mountain ranges of small widths.
use proofbridge_contracts.Base.{ℕ, ◌+◌, ◌≡◌, refl, some, List, [], ◌∷◌, length, arith}
use proofbridge_contracts.MerkleManager.Positions.{
  and_bits, count_loop, num_of_peaks, calc_size, get_leaf_index, bit_at, height_loop, peak_loop,
  get_peak_indexes,
}
use proofbridge_contracts.MerkleManager.Counting.{get_leaf_index-calc_size}
use proofbridge_contracts.MerkleManager.Peaks.{last_or, get_peak_indexes-calc_size}

-- Eleven leaves: mountains of eight, two and one.
runs :
    (num_of_peaks 11 ≡ some 3)
    × (calc_size 11 ≡ some 19)
    × (get_leaf_index 12 ≡ some 20)
    × (get_peak_indexes 11 ≡ some (15 ∷ 18 ∷ 19 ∷ []))
unfolding num_of_peaks calc_size get_leaf_index get_peak_indexes and_bits count_loop bit_at
    height_loop peak_loop
runs = (refl, refl, refl, refl)

get_leaf_index-calc_size_example :
    (size : ℕ) × (calc_size 11 ≡ some size) × (get_leaf_index (11 + 1) ≡ some (size + 1))
get_leaf_index-calc_size_example = get_leaf_index-calc_size 11 (omega arith)

get_peak_indexes-calc_size_example :
    (l : List ℕ) × (get_peak_indexes 11 ≡ some l)
    × (num_of_peaks 11 ≡ some (length l))
    × (calc_size 11 ≡ some (last_or 0 l))
get_peak_indexes-calc_size_example = get_peak_indexes-calc_size 11 (omega arith)
