-- ===== src/Common.antt =====
-- The names that the other modules share: the libraries', passed on, with Boolean tests on the
-- native numbers, lists measured by them, machine words and a result that may be a fault.
mod Tests
mod Lists
mod Words
mod Faults
pub mod Bits
pub mod Int
pub use Tests.*
pub use Lists.*
unfoldable pub use Words.*
pub use Faults.*
pub use Prim.Native.Nat.{ℕ, zero, suc, ◌+◌, ◌-◌, ◌*◌, ◌/◌, ◌%◌, ◌^◌, ◌≤◌, ◌<◌, min}
pub use mathlib.Core.Path.{◌≡◌, refl, sym, ap, subst, ◌∙◌}
pub use mathlib.Core.Logic.{◌≢◌, ◌↔◌, ◌⊎◌, inl, inr}
pub use mathlib.Core.Bool.{Bool, true, false, not, ◌&&◌, ◌||◌}
pub use mathlib.Core.Option.{Option, none, some}
pub use mathlib.Core.List.{List, [], ◌∷◌, ◌++◌, map, reverse}
pub use native.Mathlib.Omega.{arith}
