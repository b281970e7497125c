-- ===== src/Tests/Bank.antt =====
-- Token contracts for the tests: one table of balances, and transfers that move exactly what they say.
use proofbridge_contracts.Base.{
  ℕ, ◌+◌, ◌-◌, ◌^◌, ◌≤◌, ◌≡◌, ◌≢◌, true, none, some, ltb, leb, Map, lookup, insert, lookup-insert,
  pair_eq, if◌then◌else◌, arith,
}
use proofbridge_contracts.DisputeManager.State.{Tokens, or_zero}
use proofbridge_contracts.DisputeManager.Solvency.{IsLawful}

abbrev pub Table : Type 0
Table = Map (ℕ × ℕ) ℕ

abbrev held : Table → ℕ → ℕ → ℕ
held w token who = or_zero (lookup (token, who) w)

abbrev taken : Table → ℕ → ℕ → ℕ → Table
taken w token from amount = insert (token, from) (held w token from - amount) w

abbrev moved : Table → ℕ → ℕ → ℕ → ℕ → Table
moved w token from to amount =
    let paid = taken w token from amount in insert (token, to) (held paid token to + amount) paid

abbrev pub bank : Tokens Table
bank = record {
  balance = held;
  try_transfer = λ w token from to amount.
      if leb (2 ^ 127) amount
      then none
      else if ltb (held w token from) amount
      then none
      else some (moved w token from to amount, true);
}

moved_same :
    (w : Table) (token from to amount here : ℕ)
    → held w token here ≤ held (moved w token from to amount) token here + amount
moved_same w token from to amount here = ground (
  arith,
  lookup-insert (token, to) (token, here) (held (taken w token from amount) token to + amount)
      (taken w token from amount),
  lookup-insert (token, from) (token, here) (held w token from - amount) w,
  lookup-insert (token, from) (token, to) (held w token from - amount) w,
)

moved_other :
    (w : Table) (token other from to amount here : ℕ)
    → token ≢ other
    → held (moved w token from to amount) other here ≡ held w other here
moved_other w token other from to amount here ne = ground (
  arith,
  lookup-insert (token, to) (other, here) (held (taken w token from amount) token to + amount)
      (taken w token from amount),
  lookup-insert (token, from) (other, here) (held w token from - amount) w,
)

pub bank-IsLawful : (here : ℕ) → IsLawful bank here
bank-IsLawful here = record {
  debit = λ w w' token from to amount decoded h.
      let done : w' ≡ moved w token from to amount = ground arith in
      rw done (moved_same w token from to amount here);
  other_token = λ w w' token other from to amount decoded h ne.
      let done : w' ≡ moved w token from to amount = ground arith in
      ground (arith, moved_other w token other from to amount here ne);
  negative_refused = λ w token from to amount big. ground arith;
}

-- A transfer from somebody else credits the whole amount.
pub bank_credits :
    (w w' : Table) (token from here amount : ℕ)
    → from ≢ here
    → bank.try_transfer w token from here amount ≡ some (w', true)
    → bank.balance w token here + amount ≤ bank.balance w' token here
bank_credits w w' token from here amount other h =
    let done : w' ≡ moved w token from here amount = ground arith in
    ground (
      arith,
      lookup-insert (token, here) (token, here)
          (held (taken w token from amount) token here + amount) (taken w token from amount),
      lookup-insert (token, from) (token, here) (held w token from - amount) w,
    )
