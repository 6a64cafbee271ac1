-- ===== src/Prelude.antt =====
-- Shared notation and lemmas: the library names that the components use, Boolean tests on native
-- numbers, lists measured by native numbers.
mod Tests
mod Lists
mod Int
mod Strings
mod Results
pub use Tests.*
pub use Lists.*
pub use Int.*
pub use Strings.*
pub use Results.*
unfoldable pub use Int.{◌+ℤ◌, ◌-ℤ◌}
unfoldable pub use Strings.{is_space}
pub use Prim.Native.Nat.{ℕ, zero, suc, ◌+◌, ◌-◌, ◌*◌, ◌/◌, ◌%◌, ◌≤◌, ◌<◌, min, max}
pub use mathlib.Core.Path.{◌≡◌, refl, sym, ap, ◌∙◌}
pub use mathlib.Core.Logic.{◌≢◌, ◌↔◌, ◌⊎◌, inl, inr}
pub use mathlib.Core.Bool.{Bool, true, false, not, ◌&&◌, ◌||◌}
pub use mathlib.Core.Option.{Option, none, some}
pub use mathlib.Core.List.{List, [], ◌∷◌, ◌++◌, map}
pub use native.Mathlib.Omega.{arith}
