-- ===== src/Common.antt =====
-- The names that every other module shares: the libraries' names passed on, Boolean tests on the
-- native numbers, lists measured by them, and Python's notion of a blank text. No code of the
-- program is modelled here.
mod Tests
mod Lists
mod Counts
mod Text
pub mod Int
mod Sort
pub use Tests.*
pub use Lists.*
pub use Counts.*
pub use Text.*
unfoldable pub use Sort.{insert_by, sorted_by}
pub use Sort.{text_le, length-sorted_by, Elem-sorted_by}
pub use Prim.Native.Nat.{ℕ, zero, suc, ◌+◌, ◌-◌, ◌*◌, ◌/◌, ◌%◌, ◌≤◌, ◌<◌, min}
pub use Prim.Native.String.{String}
pub use mathlib.Core.Path.{◌≡◌, refl, sym, ap, ◌∙◌, subst}
pub use mathlib.Core.Logic.{◌≢◌, ◌↔◌, ◌⊎◌, inl, inr}
pub use mathlib.Core.Bool.{Bool, true, false, not, ◌&&◌, ◌||◌}
pub use mathlib.Core.Option.{Option, none, some}
pub use mathlib.Core.List.{List, [], ◌∷◌, ◌++◌, map}
pub use native.Mathlib.Omega.{arith}
