-- ===== src/Core/Timelock/Gate.antt =====
-- What a proposal and a gate do to the storage, once they succeed.
use proofbridge_contracts.Base.{
  ℕ, String, ◌+◌, ◌-◌, ◌^◌, ◌≤◌, ◌<◌, ◌≡◌, true, ◌==◌, nat_eq, Option, none, some, List, ◌⊎◌, inl,
  inr, lookup, insert, erase, Env, Host, Val, ok, trap, arith, if◌then◌else◌, ltb, leb, Bool-cases,
  Option-cases,
}
use proofbridge_contracts.Core.Timelock.{
  Timelock, delay, grace, eta, propose, propose_call, gate_active, check_brake, gate_keyed,
  action_id,
}

-- When the brake on a key was last pulled; 0 for never, and for no key.
abbrev pub braked_at : Option ℕ → Timelock → ℕ
braked_at none t = 0
braked_at (some k) t = elim (lookup k t.brakes) [ none ↦ 0 | some b ↦ b ]

-- What a gate that passed after activation has checked, and what it changed: the proposal of exactly
-- this call, of this epoch, ripe, unexpired and not braked, is consumed, and nothing else changes.
pub record Ripe (t : Timelock) (now id at : ℕ) (key : Option ℕ) (t' : Timelock) : Type 0 where
  pub proposed : lookup id t.etas ≡ some (at, t.epoch)
  pub not_early : at ≤ now
  pub not_expired : now ≤ at + grace
  pub not_braked : (braked_at key t ≡ 0) ⊎ (braked_at key t < at - delay)
  pub consumed : t' ≡ record t { etas = erase id t.etas }

check_brake-ok :
    (at : ℕ) (key : Option ℕ) (t : Timelock) {r : Unit {0} × Timelock}
    → check_brake at key t ≡ ok r
    → (r.1 ≡ t) × ((braked_at key t ≡ 0) ⊎ (braked_at key t < at - delay))
unfolding check_brake
check_brake-ok at none t e = ground arith
check_brake-ok at (some key) t e = ground arith

gate_active-Ripe :
    (env : Env) (id at e : ℕ) (key : Option ℕ) (t : Timelock) {r : Unit {0} × Timelock}
    → lookup id t.etas ≡ some (at, e)
    → gate_active env id key t ≡ ok r
    → Ripe t env.timestamp id at key r.1
unfolding gate_active
gate_active-Ripe env id at e key t found h = ground (arith, check_brake-ok at key t)

gate_active-proposed :
    (env : Env) (id : ℕ) (key : Option ℕ) (t : Timelock) {r : Unit {0} × Timelock}
    → gate_active env id key t ≡ ok r
    → (at : ℕ) × (e : ℕ) × (lookup id t.etas ≡ some (at, e))
unfolding gate_active
gate_active-proposed env id key t h = elim (Option-cases (lookup id t.etas)) [
  | inl missing ↦ absurd (ground arith)
  | inr ((at, e), found) ↦ (at, e, found)
]

-- Once the timelock is active, a gate passes only for a proposal of exactly this call.
pub gate-Ripe :
    (host : Host) (env : Env) (admin : ℕ) (fn_name : String) (args : List Val) (key : Option ℕ)
    (t : Timelock) {r : Unit {0} × Timelock}
    → t.active ≡ true
    → gate_keyed host env admin fn_name args key t ≡ ok r
    → (at : ℕ) × Ripe t env.timestamp (action_id host fn_name args) at key r.1
unfolding gate_keyed
gate-Ripe host env admin fn_name args key t active h =
    let id = action_id host fn_name args in
    let passed : gate_active env id key t ≡ ok _ = ground arith in
    let (at, e, found) = gate_active-proposed env id key t passed in
    (at, gate_active-Ripe env id at e key t found passed)

eta_cases :
    (env : Env) (id : ℕ) (t : Timelock)
    → (eta env id t ≡ trap) ⊎ ((at : ℕ) × (eta env id t ≡ ok (at, t)))
unfolding eta
eta_cases env id t = elim (Option-cases (lookup id t.etas)) [
  | inl missing ↦ inr (0, ground arith)
  | inr ((at, e), found) ↦ elim (Bool-cases (e == t.epoch)) [
    | inl current ↦ elim (Bool-cases (ltb (at + grace) (2 ^ 64))) [
      | inl fits ↦ inr (if leb env.timestamp (at + grace) then at else 0, ground arith)
      | inr over ↦ inl (ground arith)
    ]
    | inr voided ↦ inr (0, ground arith)
  ]
]

-- What a successful proposal does.
propose_call-ok :
    (host : Host) (env : Env) (fn_name : String) (args : List Val) (t : Timelock) {r : ℕ × Timelock}
    → propose_call host env fn_name args t ≡ ok r
    → (r.0 ≡ action_id host fn_name args)
      × (r.1 ≡ record t {
        active = true;
        etas = insert (action_id host fn_name args) (env.timestamp + delay, t.epoch) t.etas;
      })
unfolding propose_call
propose_call-ok host env fn_name args t h =
    ground (arith, eta_cases env (action_id host fn_name args) (record t { active = true }))

-- A gate that passes consumes one proposal or, before activation, changes nothing.
pub gate_keyed-ok :
    (host : Host) (env : Env) (admin : ℕ) (fn_name : String) (args : List Val) (key : Option ℕ)
    (t : Timelock) {r : Unit {0} × Timelock}
    → gate_keyed host env admin fn_name args key t ≡ ok r
    → (r.1 ≡ t) ⊎ (r.1 ≡ record t { etas = erase (action_id host fn_name args) t.etas })
gate_keyed-ok host env admin fn_name args key t h = elim (Bool-cases t.active) [
  | inl active ↦ inr (gate-Ripe host env admin fn_name args key t active h).1.consumed
  | inr open_setup ↦ inl (unfold gate_keyed in ground arith)
]

pub propose-ok :
    (host : Host) (env : Env) (fn_name : String) (bytes : ℕ) (t : Timelock) {r : ℕ × Timelock}
    → propose host env fn_name bytes t ≡ ok r
    → (r.1.etas ≡ insert r.0 (env.timestamp + delay, t.epoch) t.etas)
      × (r.1.epoch ≡ t.epoch)
      × (r.1.brakes ≡ t.brakes)
      × (r.1.active ≡ true)
propose-ok host env fn_name bytes t {r} h = elim (Option-cases (host.args_from_xdr bytes)) [
  | inl bad ↦ absurd (unfold propose in ground arith)
  | inr (args, decoded) ↦
      let done = propose_call-ok host env fn_name args t {r = r} (unfold propose in ground arith) in
      ground arith
]
