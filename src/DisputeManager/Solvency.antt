-- ===== src/DisputeManager/Solvency.antt =====
-- The module holds every bond and every credit that it owes.
use proofbridge_contracts.Base.{
  ℕ, ◌+◌, ◌^◌, ◌≤◌, ◌≡◌, ◌≢◌, inl, inr, Bool, true, false, Option, none, some, [], lookup, total,
  total-insert, nat_eq, pair_eq, ◌==◌, if◌then◌else◌, Env, arith, Bool-cases,
}
use proofbridge_contracts.Core.Orders.{DisputeRecord}
use proofbridge_contracts.DisputeManager.State.{State, Tokens, get_claimable, get_token_claimable}
use proofbridge_contracts.DisputeManager.Transfers.{filed_rec, Opened}
use proofbridge_contracts.DisputeManager.Deliveries.{
  Delivered, Withdrawn, direct, credited, credited_token, native_credit, token_credit,
}

abbrev pub bond_in : ℕ → ℕ → DisputeRecord → ℕ
bond_in token _ d = if d.bond_token == token then d.bond else 0

abbrev pub credit_of : ℕ → ℕ → ℕ
credit_of _ n = n

abbrev pub credit_in : ℕ → ℕ × ℕ → ℕ → ℕ
credit_in token key n = if key.1 == token then n else 0

abbrev pub is_named : Option ℕ → ℕ → Bool
is_named none token = false
is_named (some w) token = w == token

-- What the module owes in a token: the bonds of its open disputes and the credits.
abbrev pub owed : ℕ → State → ℕ
owed token s =
    total (bond_in token) s.disputes
    + (if is_named s.w_native token then total credit_of s.claims else 0)
    + total (credit_in token) s.token_claims

-- What the token contracts document: a transfer takes at most its amount from an address and takes no
-- other token, and a negative amount is refused.
pub record IsLawful {World : Type 0} (tokens : Tokens World) (here : ℕ) : Type 0 where
  pub debit :
      (w w' : World) (token from to amount : ℕ) (decoded : Bool)
      → tokens.try_transfer w token from to amount ≡ some (w', decoded)
      → tokens.balance w token here ≤ tokens.balance w' token here + amount
  pub other_token :
      (w w' : World) (token other from to amount : ℕ) (decoded : Bool)
      → tokens.try_transfer w token from to amount ≡ some (w', decoded)
      → token ≢ other
      → tokens.balance w other here ≤ tokens.balance w' other here
  pub negative_refused :
      (w : World) (token from to amount : ℕ)
      → 2 ^ 127 ≤ amount
      → tokens.try_transfer w token from to amount ≡ none

-- Before the wiring there is no wrapped native token and no credit.
abbrev pub IsWired : State → Type 0
IsWired s = s.admin ≡ none → (s.w_native ≡ none) × (s.claims ≡ [])

abbrev pub Backed : {World : Type 0} → Tokens World → ℕ → State → World → Type 0
Backed tokens here s w = (token : ℕ) → owed token s ≤ tokens.balance w token here

module _ {World : Type 0} (tokens : Tokens World) (env : Env)
    (law : IsLawful tokens env.current_contract) (s s' : State) (w w' : World)
    (b : Backed tokens env.current_contract s w) where
  pub Opened-Backed :
      (escrow order chain filer evidence deadline buffer token amount : ℕ) {p : _}
      (bond_token bond : ℕ)
      → Opened tokens env s s' w w' escrow order chain filer evidence deadline buffer token amount p
          bond_token bond
      → Backed tokens env.current_contract s' w'
  Opened-Backed escrow order chain filer evidence deadline buffer token amount {p} bond_token bond o
        t =
      let d = filed_rec env p escrow filer evidence deadline buffer bond_token bond in
      let add = total-insert (bond_in t) order d s.disputes in
      elim (Bool-cases (bond_token == t)) [
        | inl same ↦ ground (
          arith,
          b t,
          add,
          o.new,
          o.exact,
          o.moved,
          o.written,
          law.negative_refused w bond_token filer env.current_contract bond,
        )
        | inr other ↦ ground (
          arith,
          b t,
          add,
          o.new,
          o.written,
          law.other_token w w' bond_token t filer env.current_contract bond true o.moved,
        )
      ]

  -- An amount that leaves the disputes is paid or credited.
  pub Delivered-Backed :
      (gone : State) (to token amount : ℕ)
      → ((t : ℕ)
          → owed t gone + (if token == t then amount else 0)
            ≤ tokens.balance w t env.current_contract)
      → Delivered tokens env gone s' w w' to token amount
      → Backed tokens env.current_contract s' w'
  Delivered-Backed gone to token amount left (direct decoded moved e) t =
      elim (Bool-cases (token == t)) [
        | inl same ↦
            ground
              (arith, left t, law.debit w w' token env.current_contract to amount decoded moved)
        | inr other ↦ ground (
          arith,
          left t,
          law.other_token w w' token t env.current_contract to amount decoded moved,
        )
      ]
  Delivered-Backed gone to token amount left (credited refused kept named e) t = ground (
    arith,
    left t,
    total-insert credit_of to (get_claimable to gone + amount) gone.claims,
    lookup to gone.claims,
  )
  Delivered-Backed gone to token amount left (credited_token native refused kept named other e) t =
      ground (
        arith,
        left t,
        total-insert (credit_in t) (to, token) (get_token_claimable to token gone + amount)
            gone.token_claims,
        lookup (to, token) gone.token_claims,
      )

  pub Withdrawn-Backed :
      (recipient token : ℕ)
      → Withdrawn tokens env s s' w w' recipient token
      → Backed tokens env.current_contract s' w'
  Withdrawn-Backed recipient token (native_credit named moved e) t =
      elim (Bool-cases (token == t)) [
        | inl same ↦ ground (
          arith,
          b t,
          total-insert credit_of recipient 0 s.claims,
          law.debit w w' token env.current_contract recipient (get_claimable recipient s) true
              moved,
        )
        | inr other ↦ ground (
          arith,
          b t,
          law.other_token w w' token t env.current_contract recipient (get_claimable recipient s)
              true moved,
        )
      ]
  Withdrawn-Backed recipient token (token_credit moved e) t =
      let credit = get_token_claimable recipient token s in
      elim (Bool-cases (token == t)) [
        | inl same ↦ ground (
          arith,
          b t,
          total-insert (credit_in t) (recipient, token) 0 s.token_claims,
          law.debit w w' token env.current_contract recipient credit true moved,
        )
        | inr other ↦ ground (
          arith,
          b t,
          total-insert (credit_in t) (recipient, token) 0 s.token_claims,
          law.other_token w w' token t env.current_contract recipient credit true moved,
        )
      ]
