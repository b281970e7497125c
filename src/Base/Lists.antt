-- ===== src/Base/Lists.antt =====
-- Lists counted by native numbers.
use Prim.Native.Nat.{ℕ, suc, ◌+◌, ◌≤◌}
use mathlib.Core.Path.{◌≡◌, refl}
use mathlib.Core.Bool.{Bool, true, false, ◌||◌}
use mathlib.Core.List.{List, [], ◌∷◌, ◌++◌}
use native.Mathlib.Omega.{arith}
use proofbridge_contracts.Base.Tests.{if◌then◌else◌, nat_beq, nat_beq_iff, Bool-cases}
use mathlib.Core.Logic.{inl, inr}

module _ {ℓ} {A : Type ℓ} where
  abbrev pub length : List A → ℕ
  length [] = 0
  length (x ∷ xs) = suc (length xs)

  pub length-append : (xs ys : List A) → length (xs ++ ys) ≡ length xs + length ys
  length-append [] ys = omega arith
  length-append (x ∷ xs) ys = omega (arith, length-append xs ys)

  -- How many entries pass a test.
  abbrev pub count_if : (A → Bool) → List A → ℕ
  count_if p [] = 0
  count_if p (x ∷ xs) = (if p x then 1 else 0) + count_if p xs

  pub count_if-le-length : (p : A → Bool) (xs : List A) → count_if p xs ≤ length xs
  count_if-le-length p [] = omega arith
  count_if-le-length p (x ∷ xs) = ground (arith, count_if-le-length p xs)

-- `iter().any(|s| s == x)`
abbrev pub contains : List ℕ → ℕ → Bool
contains [] x = false
contains (y ∷ ys) x = nat_beq y x || contains ys x

-- Two entries at different places are equal.
abbrev pub has_duplicate : List ℕ → Bool
has_duplicate [] = false
has_duplicate (x ∷ xs) = contains xs x || has_duplicate xs

-- Counting by tests that agree, that agree outside one value, and by one that always fails.
module _ {ℓ} {A : Type ℓ} (p q : A → Bool) where
  pub count_if-eq : ((x : A) → p x ≡ q x) → (xs : List A) → count_if p xs ≡ count_if q xs
  count_if-eq h [] = refl
  count_if-eq h (x ∷ xs) = ground (arith, h x, count_if-eq h xs)

module _ (p q : ℕ → Bool) (new : ℕ) where
  count_if-absent :
      (xs : List ℕ)
      → contains xs new ≡ false
      → ((x : ℕ) → q x ≡ (if nat_beq x new then true else p x))
      → count_if q xs ≡ count_if p xs
  count_if-absent [] c h = refl
  count_if-absent (x ∷ xs) c h =
      let rest : contains xs new ≡ false → count_if q xs ≡ count_if p xs =
        λ e. count_if-absent xs e h in
      ground (arith, h x, rest)

  -- One more value passes, and it stands once in the list.
  pub count_if-new :
      (xs : List ℕ)
      → has_duplicate xs ≡ false
      → contains xs new ≡ true
      → p new ≡ false
      → ((x : ℕ) → q x ≡ (if nat_beq x new then true else p x))
      → count_if q xs ≡ count_if p xs + 1
  count_if-new [] d c f h = cc
  count_if-new (x ∷ xs) d c f h = elim (Bool-cases (nat_beq x new)) [
    | inl same ↦
        let e : x ≡ new = (nat_beq_iff x new).0 same in
        let absent : contains xs new ≡ false = rw (← e) (ground arith) in
        ground (arith, h x, count_if-absent xs absent h)
    | inr other ↦ ground (arith, h x, count_if-new xs (ground arith) (ground arith) f h)
  ]

pub count_if-none {ℓ} :
    {A : Type ℓ} (p : A → Bool) (xs : List A) → ((x : A) → p x ≡ false) → count_if p xs ≡ 0
count_if-none p [] h = refl
count_if-none p (x ∷ xs) h = ground (arith, h x, count_if-none p xs h)
