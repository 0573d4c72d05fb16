-- ===== src/Common.antt =====
-- The names that the other modules share: those of the libraries, passed on, bytes and texts,
-- Boolean tests, lists measured by native numbers, and results of code that can fail.
mod Tests
mod Lists
mod Outcome
mod Search
pub mod Order
pub mod Decimal
pub use Tests.*
pub use Lists.*
pub use Outcome.*
unfoldable pub use Search.*
pub use Prim.Native.Nat.{ℕ, zero, suc, ◌+◌, ◌-◌, ◌*◌, ◌/◌, ◌%◌, ◌^◌, ◌≤◌, ◌<◌}
pub use mathlib.Core.Path.{◌≡◌, refl, sym, ap, ◌∙◌, subst}
pub use mathlib.Core.Logic.{◌≢◌, ◌↔◌, ◌⊎◌, inl, inr}
pub use mathlib.Core.Bool.{Bool, true, false, not, ◌&&◌, ◌||◌}
pub use mathlib.Core.Option.{Option, none, some}
pub use mathlib.Core.List.{List, [], ◌∷◌, ◌++◌, map, reverse, append-nil, append_assoc}
pub use native.Mathlib.Omega.{arith}
