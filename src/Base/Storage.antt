-- ===== src/Base/Storage.antt =====
-- Contract storage: one map for each key prefix, as an association list.

use mathlib.Core.Path.{◌≡◌, refl, subst}
use mathlib.Core.Option.{Option, none, some}
use mathlib.Core.List.{List, [], ◌∷◌}
use native.Mathlib.Omega.{arith}
use proofbridge_contracts.Base.Tests.{if◌then◌else◌, Bool-cases}
use mathlib.Core.Logic.{inl, inr}
use proofbridge_contracts.Base.Equality.{StorageKey, ◌==◌}

abbrev pub Map {κ ν} : Type κ → Type ν → Type (κ ⊔ ν)
Map K V = List (K × V)

module _ {κ ν} {K : Type κ} ⦃key : StorageKey K⦄ {V : Type ν} where
  abbrev pub lookup : K → Map K V → Option V
  lookup k [] = none
  lookup k ((j, v) ∷ m) = if j == k then some v else lookup k m

  abbrev pub insert : K → V → Map K V → Map K V
  insert k v [] = (k, v) ∷ []
  insert k v ((j, w) ∷ m) = if j == k then (k, v) ∷ m else (j, w) ∷ insert k v m

  -- Every entry of the key goes.
  abbrev pub erase : K → Map K V → Map K V
  erase k [] = []
  erase k ((j, w) ∷ m) = if j == k then erase k m else (j, w) ∷ erase k m

  pub lookup-insert :
      (k j : K) (v : V) (m : Map K V)
      → lookup j (insert k v m) ≡ (if k == j then some v else lookup j m)
  lookup-insert k j v [] = refl
  lookup-insert k j v ((i, w) ∷ m) =
      ground (arith, key.same_iff k j, key.same_iff i k, key.same_iff i j, lookup-insert k j v m)

  pub lookup-erase :
      (k j : K) (m : Map K V) → lookup j (erase k m) ≡ (if k == j then none else lookup j m)
  lookup-erase k j [] = ground arith
  lookup-erase k j ((i, w) ∷ m) =
      ground (arith, key.same_iff k j, key.same_iff i k, key.same_iff i j, lookup-erase k j m)

  pub lookup-erase_self : (k : K) (m : Map K V) → lookup k (erase k m) ≡ none
  lookup-erase_self k m = ground (arith, lookup-erase k k m, key.same_iff k k)

  pub lookup-insert_self : (k : K) (v : V) (m : Map K V) → lookup k (insert k v m) ≡ some v
  lookup-insert_self k v m = ground (arith, lookup-insert k k v m, key.same_iff k k)

  -- Every value that the map gives passes.
  abbrev pub AllAt {ℓ} : (V → Type ℓ) → Map K V → Type (κ ⊔ ν ⊔ ℓ)
  AllAt P m = (k : K) (v : V) → lookup k m ≡ some v → P v

  pub AllAt-insert {ℓ} :
      (P : V → Type ℓ) (k : K) (v : V) (m : Map K V) → P v → AllAt P m → AllAt P (insert k v m)
  AllAt-insert P k v m pv all j u found = elim (Bool-cases (k == j)) [
    | inl same ↦ let e : v ≡ u = ground (arith, lookup-insert k j v m) in subst P e pv
    | inr other ↦ all j u (ground (arith, lookup-insert k j v m))
  ]

  pub AllAt-erase {ℓ} : (P : V → Type ℓ) (k : K) (m : Map K V) → AllAt P m → AllAt P (erase k m)
  AllAt-erase P k m all j u found = all j u (ground (arith, lookup-erase k j m))
