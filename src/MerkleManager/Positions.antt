-- ===== src/MerkleManager/Positions.antt =====
-- stellar/contracts/merkle-manager/src/mmr.rs: the positions of a mountain range, from 1. Numbers
-- have 128 bits; an overflow or a failed assertion is `none`, and so is a loop that runs out of fuel.
use proofbridge_contracts.Base.{
  ℕ, zero, suc, ◌+◌, ◌-◌, ◌*◌, ◌/◌, ◌%◌, ◌^◌, Bool, true, false, ◌==◌, nat_eq, Option, none, some,
  List, [], ◌∷◌, length, ltb, leb, if◌then◌else◌,
}

-- The bitwise `and` of numbers of n bits.
unfoldable pub and_bits : ℕ → ℕ → ℕ → ℕ
and_bits zero a b = 0
and_bits (suc n) a b = (a % 2) * (b % 2) + 2 * and_bits n (a / 2) (b / 2)

-- `while bits > 0 { count += 1; bits &= bits - 1 }`
unfoldable pub count_loop : ℕ → ℕ → ℕ → Option ℕ
count_loop zero bits count = if ltb 0 bits then none else some count
count_loop (suc fuel) bits count = elim (ltb 0 bits) [
  | true ↦ count_loop fuel (and_bits 128 bits (bits - 1)) (count + 1)
  | false ↦ some count
]

unfoldable pub num_of_peaks : ℕ → Option ℕ
num_of_peaks width = count_loop 128 width 0

-- `(width << 1) - num_of_peaks(width)`: the shift drops the top bit.
unfoldable pub calc_size : ℕ → Option ℕ
unfolding num_of_peaks
calc_size width = elim (num_of_peaks width) [
  | none ↦ none
  | some peaks ↦
      let shifted = (2 * width) % 2 ^ 128 in
      if leb peaks shifted then some (shifted - peaks) else none
]

unfoldable pub get_leaf_index : ℕ → Option ℕ
get_leaf_index width = elim (width % 2 == 1) [
  | true ↦ calc_size width
  | false ↦ elim (leb 1 width) [
    | false ↦ none
    | true ↦ elim (calc_size (width - 1)) [
      | none ↦ none
      | some size ↦ if ltb (size + 1) (2 ^ 128) then some (size + 1) else none
    ]
  ]
]

-- `1u128 << height`
unfoldable pub bit_at : ℕ → Option ℕ
bit_at height = if ltb height 128 then some (2 ^ height) else none

-- `while (1u128 << max_height) <= width { max_height += 1 }`
unfoldable pub height_loop : ℕ → ℕ → ℕ → Option ℕ
height_loop zero height width = none
height_loop (suc fuel) height width = elim (bit_at height) [
  | none ↦ none
  | some bit ↦ elim (leb bit width) [
    | true ↦ height_loop fuel (height + 1) width
    | false ↦ some height
  ]
]

-- `width & (1u128 << position) != 0`
abbrev pub has_bit : ℕ → ℕ → Bool
has_bit width position = (width / 2 ^ position) % 2 == 1

-- The rounds of `for i in (1..=i).rev()`.
unfoldable pub peak_loop : ℕ → ℕ → ℕ → Option (List ℕ)
peak_loop zero width running_size = some []
peak_loop (suc i) width running_size = elim (has_bit width i) [
  | false ↦ peak_loop i width running_size
  | true ↦ elim (bit_at (suc i)) [
    | none ↦ none
    | some bit ↦ elim (ltb (running_size + bit) (2 ^ 128)) [
      | false ↦ none
      | true ↦ elim (peak_loop i width (running_size + bit - 1)) [
        | none ↦ none
        | some rest ↦ some ((running_size + bit - 1) ∷ rest)
      ]
    ]
  ]
]

unfoldable pub get_peak_indexes : ℕ → Option (List ℕ)
get_peak_indexes width = elim (num_of_peaks width) [
  | none ↦ none
  | some num_peaks ↦ if width == 0 then some [] else elim (height_loop 128 1 width) [
    | none ↦ none
    | some max_height ↦ elim (peak_loop max_height width 0) [
      | none ↦ none
      | some peak_indexes ↦ if length peak_indexes == num_peaks then some peak_indexes else none
    ]
  ]
]
