-- ===== src/Common.antt =====
-- What the modules of this library share: names of the libraries, tests on numbers, lists over the
-- native numbers. It models no code.
mod Tests
mod Lists
mod Partial
mod Int
mod Ranges
pub use Tests.*
pub use Lists.*
unfoldable pub use Ranges.*
pub use Int.{ℤ, pos, negsuc}
pub use Partial.*
pub use Prim.Native.Nat.{ℕ, zero, suc, ◌+◌, ◌-◌, ◌*◌, ◌/◌, ◌%◌, ◌^◌, ◌≤◌, ◌<◌}
pub use mathlib.Core.Path.{◌≡◌, refl, sym, ap, subst, ◌∙◌}
pub use mathlib.Core.Logic.{◌≢◌, ◌↔◌, ◌⊎◌, inl, inr}
pub use mathlib.Core.Bool.{Bool, true, false, not, ◌&&◌, ◌||◌}
pub use mathlib.Core.Option.{Option, none, some}
pub use mathlib.Core.List.{List, [], ◌∷◌, ◌++◌}
pub use native.Mathlib.Omega.{arith}
