-- ===== src/Base/Contract.antt =====
-- The execution model of the host: an entry point takes the storage and returns a value and the new
-- storage, a contract error, or a trap (a panic, a failed authorization, an arithmetic overflow: the
-- release profile has `overflow-checks`). An error or a trap reverts the storage.
use Prim.Native.Nat.{ℕ, ◌+◌, ◌-◌, ◌^◌}
use mathlib.Core.Path.{◌≡◌, refl}
use native.Mathlib.Omega.{arith}
use mathlib.Core.Bool.{Bool, true, false}
use mathlib.Core.Option.{Option, none, some}
use proofbridge_contracts.Base.Tests.{ltb, leb}

pub data Result {ℓ κ} (E : Type ℓ) (A : Type κ) : Type (ℓ ⊔ κ) where
  ok : A → Result E A
  err : E → Result E A
  trap : Result E A

abbrev pub Action : Type 0 → Type 0 → Type 0 → Type 0
Action S E A = S → Result E (A × S)

-- What an invocation sees of the ledger: its time, its own address, and which addresses have
-- authorized the invocation.
pub record Env : Type 0 where
  pub timestamp : ℕ
  pub current_contract : ℕ
  pub authorized : ℕ → Bool

module _ {S E : Type 0} where
  infixl 5 ◌>>=◌ ◌>>◌
  abbrev pub ◌>>=◌ : {A B : Type 0} → Action S E A → (A → Action S E B) → Action S E B
  ◌>>=◌ m f s = elim (m s) [ ok (a, s') ↦ f a s' | err x ↦ err x | trap ↦ trap ]

  abbrev pub ◌>>◌ : {A B : Type 0} → Action S E A → Action S E B → Action S E B
  m >> k = m >>= λ _. k

  abbrev pub pure : {A : Type 0} → A → Action S E A
  pure a s = ok (a, s)

  abbrev pub fail : {A : Type 0} → E → Action S E A
  fail x s = err x

  abbrev pub panic : {A : Type 0} → Action S E A
  panic s = trap

  abbrev pub gets : {A : Type 0} → (S → A) → Action S E A
  gets f s = ok (f s, s)

  abbrev pub modify : (S → S) → Action S E (Unit {0})
  modify f s = ok (tt, f s)

  -- `if !test { m }`
  abbrev pub unless : Bool → Action S E (Unit {0}) → Action S E (Unit {0})
  unless true m s = ok (tt, s)
  unless false m s = m s

  -- `if test { return Err(x) }`
  abbrev pub fail_if : Bool → E → Action S E (Unit {0})
  fail_if true x s = err x
  fail_if false x s = ok (tt, s)

  -- `assert!`
  abbrev pub assert : Bool → Action S E (Unit {0})
  assert true s = ok (tt, s)
  assert false s = trap

  -- `ok_or(x)?`
  abbrev pub ok_or : {A : Type 0} → Option A → E → Action S E A
  ok_or none x s = err x
  ok_or (some a) x s = ok (a, s)

  -- `address.require_auth()`
  abbrev pub require_auth : Env → ℕ → Action S E (Unit {0})
  require_auth env who = assert (env.authorized who)

  -- `a + b` at w bits
  abbrev pub add_checked : ℕ → ℕ → ℕ → Action S E ℕ
  add_checked w a b s = elim (ltb (a + b) (2 ^ w)) [ true ↦ ok (a + b, s) | false ↦ trap ]

  -- `a - b` of unsigned numbers
  abbrev pub sub_checked : ℕ → ℕ → Action S E ℕ
  sub_checked a b s = elim (leb b a) [ true ↦ ok (a - b, s) | false ↦ trap ]

  -- `unwrap()`
  abbrev pub unwrap : {A : Type 0} → Option A → Action S E A
  unwrap none s = trap
  unwrap (some a) s = ok (a, s)

  -- The result of a pure check.
  abbrev pub from_result : {A : Type 0} → Result E A → Action S E A
  from_result (ok a) s = ok (a, s)
  from_result (err x) s = err x
  from_result trap s = trap

-- Inversion of a successful bind.
module _ {S E A B : Type 0} where
  bind_result :
      (r : Result E (A × S)) (f : A → Action S E B) {q : B × S}
      → (elim r [ ok (a, s') ↦ f a s' | err x ↦ err x | trap ↦ trap ]) ≡ ok q
      → (a : A) × (s' : S) × (r ≡ ok (a, s')) × (f a s' ≡ ok q)
  bind_result (ok (a, s')) f h = (a, s', refl, h)
  bind_result (err x) f h = cc
  bind_result trap f h = cc

  pub >>=-eq-ok :
      (m : Action S E A) (f : A → Action S E B) (s : S) {q : B × S}
      → (m >>= f) s ≡ ok q
      → (a : A) × (s' : S) × (m s ≡ ok (a, s')) × (f a s' ≡ ok q)
  >>=-eq-ok m f s h = bind_result (m s) f h

module _ {S E A : Type 0} where
  pub from_result-ok :
      (r : Result E A) (s : S) {q : A × S} → from_result r s ≡ ok q → (r ≡ ok q.0) × (q.1 ≡ s)
  from_result-ok (ok a) s h = ground arith
  from_result-ok (err x) s h = cc
  from_result-ok trap s h = cc
