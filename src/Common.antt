-- ===== src/Common.antt =====
-- Names that the components share: the libraries', passed on, and those of the children, which
-- hold Boolean tests, lists over the native numbers, bytes and well-founded recursion.
mod Tests
mod Lists
pub mod Bytes
pub mod Text
pub mod Order
pub mod Maybe
pub mod Int
pub mod Try
pub mod Step
pub mod Decimal
pub mod Dict
pub mod Sorted
pub use Tests.*
pub use Lists.*
pub use Prim.Native.Nat.{ℕ, zero, suc, ◌+◌, ◌-◌, ◌*◌, ◌/◌, ◌%◌, ◌^◌, ◌≤◌, ◌<◌, min, max}
pub use mathlib.Core.Path.{◌≡◌, refl, sym, ap, ◌∙◌, fun_ext}
pub use mathlib.Core.Logic.{◌≢◌, ◌↔◌, ◌⊎◌, inl, inr}
pub use mathlib.Core.Bool.{Bool, true, false, ◌&&◌, ◌||◌, not}
pub use mathlib.Core.Option.{Option, none, some}
pub use mathlib.Core.List.{List, [], ◌∷◌, ◌++◌, map}
pub use native.Mathlib.Omega.{arith}
