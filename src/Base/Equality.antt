-- ===== src/Base/Equality.antt =====
-- Equality as an interface, for the keys of storage maps.
use Prim.Native.Nat.{ℕ}
use mathlib.Core.Path.{◌≡◌}
use mathlib.Core.Logic.{◌↔◌}
use mathlib.Core.Bool.{Bool, true, ◌&&◌}
use native.Mathlib.Omega.{arith}
use proofbridge_contracts.Base.Tests.{nat_beq, nat_beq_iff}

-- A type of storage keys: a test that decides whether two keys are the same.
pub record StorageKey {κ} (K : Type κ) : Type κ where
  pub same : K → K → Bool
  pub same_iff : (j k : K) → (same j k ≡ true) ↔ (j ≡ k)

abbrev pair_same : ℕ × ℕ → ℕ × ℕ → Bool
pair_same a b = nat_beq a.0 b.0 && nat_beq a.1 b.1

pub pair_same_iff : (a b : ℕ × ℕ) → (pair_same a b ≡ true) ↔ (a ≡ b)
pair_same_iff a b = ground arith

abbrev triple_same : ℕ × ℕ × ℕ → ℕ × ℕ × ℕ → Bool
triple_same a b = nat_beq a.0 b.0 && nat_beq a.1 b.1 && nat_beq a.2 b.2

pub triple_same_iff : (a b : ℕ × ℕ × ℕ) → (triple_same a b ≡ true) ↔ (a ≡ b)
triple_same_iff a b = ground arith

instance abbrev pub triple_eq : StorageKey (ℕ × ℕ × ℕ)
triple_eq = record { same = triple_same; same_iff = triple_same_iff }

instance abbrev pub pair_eq : StorageKey (ℕ × ℕ)
pair_eq = record { same = pair_same; same_iff = pair_same_iff }

instance abbrev pub nat_eq : StorageKey ℕ
nat_eq = record { same = nat_beq; same_iff = nat_beq_iff }

infix 50 ◌==◌
abbrev pub ◌==◌ {κ} : {K : Type κ} ⦃key : StorageKey K⦄ → K → K → Bool
◌==◌ ⦃key⦄ j k = key.same j k
