-- ===== src/Base/Platform.antt =====
-- What the Soroban host computes for a contract: values, symbols, XDR and SHA-256. The functions are
-- parameters of the model.
use Prim.Native.Nat.{ℕ}
use Prim.Native.String.{String}
use mathlib.Core.Bool.{Bool}
use mathlib.Core.Option.{Option}
use mathlib.Core.List.{List}

-- An argument of a call, as the host encodes it.
pub data Val : Type 0 where
  word : ℕ → Val
  flag : Bool → Val
  fields : List ℕ → Val

pub record Host : Type 0 where
  -- `sha256` of the XDR of a function name and an argument list
  pub sha256_call : String → List Val → ℕ
  -- `sha256` of the XDR of a function name and one value
  pub sha256_key : String → Val → ℕ
  -- `Vec::<Val>::from_xdr`
  pub args_from_xdr : ℕ → Option (List Val)
