-- ===== src/Tests/Platform.antt =====
-- A host for the tests: names and arguments give small numbers, and any bytes decode.
use proofbridge_contracts.Base.{
  ℕ, ◌+◌, ◌*◌, true, List, [], ◌∷◌, some, Host, Env, Val, word, flag, fields, if◌then◌else◌,
}

abbrev number : Val → ℕ
number (word n) = n + 1
number (flag b) = if b then 2 else 1
number (fields []) = 0
number (fields (x ∷ xs)) = x + 3

abbrev digest : List Val → ℕ
digest [] = 7
digest (v ∷ vs) = number v + 10 * digest vs

abbrev pub host : Host
host = record {
  sha256_call = λ name args. digest args;
  sha256_key = λ name what. number what;
  args_from_xdr = λ bytes. some (word bytes ∷ []);
}

-- Everybody has authorized the call.
abbrev pub at : ℕ → Env
at now = record { timestamp = now; current_contract = 99; authorized = λ who. true }
