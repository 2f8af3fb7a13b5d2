-- ===== src/Prelude.antt =====
-- The names that the other modules share: the libraries', passed on, and those of the children.
-- Nothing here models code of the repository itself; `Result`, `Text` and `Datetime` are the parts
-- of Python that the sources use: raised exceptions, `str` and `datetime`.
mod Tests
mod Lists
mod Sorting
pub mod Result
pub mod Text
pub mod Datetime
pub mod Int
pub mod Decimal
pub use Tests.*
pub use Lists.*
unfoldable pub use Sorting.{sort_by}
pub use Sorting.Filtered.{sort_by-filter}
pub use Sorting.{
  sum_of, Ascending, IsOrder, All-sort_by, sort_by-perm, sort_by-Ascending, sum_of-append,
  sum_of-sort_by, sum_of-take, length-take,
}
pub use Prim.Native.Nat.{ℕ, zero, suc, ◌+◌, ◌-◌, ◌*◌, ◌/◌, ◌%◌, ◌^◌, ◌≤◌, ◌<◌}
pub use mathlib.Core.Path.{◌≡◌, refl, sym, ap, ◌∙◌}
pub use mathlib.Core.Logic.{◌≢◌, ◌↔◌, ◌⊎◌, inl, inr}
pub use mathlib.Core.Bool.{Bool, true, false, not, ◌&&◌, ◌||◌}
pub use mathlib.Core.Option.{Option, none, some}
pub use mathlib.Core.List.{List, [], ◌∷◌, ◌++◌, map}
pub use native.Mathlib.Omega.{arith}
