-- ===== src/Base/Totals.antt =====
-- The total of a measure over the entries of a storage map.
use Prim.Native.Nat.{ℕ, ◌+◌, ◌≤◌}
use mathlib.Core.Path.{◌≡◌}
use mathlib.Core.Option.{Option, none, some}
use mathlib.Core.List.{[], ◌∷◌}
use mathlib.Core.Logic.{inl, inr}
use native.Mathlib.Omega.{arith}
use proofbridge_contracts.Base.Tests.{Bool-cases}
use proofbridge_contracts.Base.Equality.{StorageKey, ◌==◌}
use proofbridge_contracts.Base.Storage.{Map, lookup, insert, erase}

module _ {κ ν} {K : Type κ} ⦃key : StorageKey K⦄ {V : Type ν} (f : K → V → ℕ) where
  abbrev pub total : Map K V → ℕ
  total [] = 0
  total ((k, v) ∷ m) = f k v + total m

  -- What the key's entry adds.
  abbrev pub share : K → Option V → ℕ
  share k none = 0
  share k (some v) = f k v

  pub total-insert :
      (k : K) (v : V) (m : Map K V) → total (insert k v m) + share k (lookup k m) ≡ total m + f k v
  total-insert k v [] = omega arith
  total-insert k v ((j, w) ∷ m) = elim (Bool-cases (j == k)) [
    | inl same ↦ let e : j ≡ k = (key.same_iff j k).0 same in rw (same, e) (omega arith)
    | inr other ↦ rw other (omega (arith, total-insert k v m))
  ]

  pub total-erase : (k : K) (m : Map K V) → total (erase k m) + share k (lookup k m) ≤ total m
  total-erase k [] = omega arith
  total-erase k ((j, w) ∷ m) = elim (Bool-cases (j == k)) [
    | inl same ↦
        let e : j ≡ k = (key.same_iff j k).0 same in rw (same, e) (omega (arith, total-erase k m))
    | inr other ↦ rw other (omega (arith, total-erase k m))
  ]
