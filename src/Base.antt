-- ===== src/Base.antt =====
-- What the other modules share: library names passed on, Boolean tests on native numbers, lists
-- measured by native numbers, equality as an interface, storage maps, and the contract monad.
mod Tests
mod Lists
mod Equality
mod Storage
mod Totals
mod Contract
mod Platform
pub use Tests.*
pub use Lists.*
pub use Equality.*
pub use Storage.*
pub use Totals.*
pub use Contract.*
pub use Platform.*
pub use Prim.Native.String.{String}
pub use Prim.Native.Nat.{ℕ, zero, suc, ◌+◌, ◌-◌, ◌*◌, ◌/◌, ◌%◌, ◌^◌, ◌≤◌, ◌<◌}
pub use mathlib.Core.Path.{◌≡◌, refl, sym, ap, subst, ◌∙◌}
pub use mathlib.Core.Logic.{◌≢◌, ◌↔◌, ◌⊎◌, inl, inr}
pub use mathlib.Core.Bool.{Bool, true, false, not, ◌&&◌, ◌||◌}
pub use mathlib.Core.Option.{Option, none, some}
pub use mathlib.Core.List.{List, [], ◌∷◌, ◌++◌}
pub use native.Mathlib.Omega.{arith}
