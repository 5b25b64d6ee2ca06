-- ===== src/Base.antt =====
-- The names that the modules share: the libraries', passed on, and those of the children: the
-- conditional and Go's results (Control), native lists (Lists), ordered keys (Order), maps (Dict),
-- sorted lists (Sorted), `sort.Search` (Search), `sort.Sort` (Sort), tests on lists (Cuts) and signed numbers (Int).
mod Control
mod Lists
pub mod Int
mod Order
pub mod Dict
pub mod Sorted
pub mod Search
pub mod Sort
pub mod Cuts
pub use Control.*
unfoldable pub use Lists.*
pub use Order.*
pub use Prim.Native.Nat.{
  ℕ, zero, suc, ◌+◌, ◌-◌, ◌*◌, ◌/◌, ◌%◌, ◌^◌, ◌≤◌, ◌<◌, compare, Ordering, min, max,
}
pub use mathlib.Core.Path.{◌≡◌, refl, sym, ap, ◌∙◌}
pub use mathlib.Core.Logic.{◌≢◌, ◌↔◌, ◌⊎◌, inl, inr}
pub use mathlib.Core.Bool.{Bool, true, false, ◌&&◌, ◌||◌, not}
pub use mathlib.Core.Option.{Option, none, some}
pub use mathlib.Core.List.{List, [], ◌∷◌, ◌++◌, map}
pub use native.Mathlib.Omega.{arith}
