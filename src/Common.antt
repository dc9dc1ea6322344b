-- ===== src/Common.antt =====
-- The names that every module shares: those of the libraries, passed on, and the helpers on
-- tests, lists, integers and results that the language's own library provides in Go.
mod Tests
mod Lists
mod Results
pub mod Int
pub mod BigInt
pub mod Congruence
pub mod Database
pub mod Dict
pub mod Effects
pub mod Equality
pub mod Table
pub mod WellFounded
pub mod Wire
unfoldable pub use Tests.*
pub use Lists.*
pub use Results.*
pub use Prim.Native.Nat.{ℕ, zero, suc, ◌+◌, ◌-◌, ◌*◌, ◌/◌, ◌%◌, ◌^◌, ◌≤◌, ◌<◌}
pub use mathlib.Core.Path.{◌≡◌, refl, sym, ap, ◌∙◌}
pub use mathlib.Core.Logic.{◌≢◌, ◌↔◌, ◌⊎◌, inl, inr}
pub use mathlib.Core.Bool.{Bool, true, false, not, ◌&&◌, ◌||◌}
pub use mathlib.Core.Option.{Option, none, some}
pub use mathlib.Core.List.{List, [], ◌∷◌, ◌++◌, map}
pub use native.Mathlib.Omega.{arith}
