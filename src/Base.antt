-- ===== src/Base.antt =====
-- The names that the modules of this library share: the libraries' names passed on, the Boolean
-- tests on numbers, lists over native numbers, Go's signed integers and texts.
mod Tests
mod Lists
mod Int
mod Strings
mod Trim
mod Assoc
mod Error
mod Distinct
mod Filters
mod Decimal
pub use Tests.*
unfoldable pub use Lists.*
pub use Int.*
unfoldable pub use Strings.*
unfoldable pub use Trim.*
unfoldable pub use Assoc.*
pub use Error.*
pub use Distinct.*
pub use Filters.*
pub use Decimal.*
pub use Prim.Native.Nat.{
  ℕ, zero, suc, ◌+◌, ◌-◌, ◌*◌, ◌/◌, ◌%◌, ◌≤◌, ◌<◌, min, max, compare, Ordering,
}
pub use mathlib.Core.Path.{◌≡◌, refl, sym, ap, subst, ◌∙◌}
pub use mathlib.Core.Logic.{◌≢◌, ◌↔◌, ◌⊎◌, inl, inr}
pub use mathlib.Core.Bool.{Bool, true, false, ◌&&◌, ◌||◌, not}
pub use mathlib.Core.Option.{Option, none, some}
pub use mathlib.Core.List.{List, [], ◌∷◌, ◌++◌, map, append_assoc, append-nil, Permᴰ}
pub use native.Mathlib.Omega.{arith}
