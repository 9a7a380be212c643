-- ===== src/Base.antt =====
-- The names that the other modules share: the libraries', passed on, and those of the children.
mod Tests
mod Lists
mod Texts
pub mod Retrying
mod Members
mod Sorting
mod Counting
pub use Tests.*
pub use Members.*
pub use Sorting.{In-sorted}
unfoldable pub use Counting.{id_mem, tally}
pub use Counting.{
  length-filter, tally-le-length, tally-append, tally-map, length-tally, tally-filter, tally_ext,
  filter_ext, filter-filter, tally_split, tally-pos, tally-In, tally-sorted, length-sorted, In-take,
  length-map,
}
unfoldable pub use Sorting.{str_lt, insert_sorted, sort_by, sorted}
pub use Lists.{length, take, All, length-append, length-take, All-append}
unfoldable pub use Lists.{filter, any}
unfoldable pub use Texts.{is_space, lstrip, rstrip, strip, str_mem, count, prefix}
pub use Texts.{str_eq, eq_iff, eq_refl}
pub use Prim.Native.Nat.{ℕ, zero, suc, ◌+◌, ◌-◌, ◌*◌, ◌/◌, ◌%◌, ◌^◌, ◌≤◌, ◌<◌, min, max}
pub use Prim.Native.String.{String}
pub use mathlib.Core.Path.{◌≡◌, refl, sym, ap, ◌∙◌}
pub use mathlib.Core.Logic.{◌≢◌, ◌↔◌, ◌⊎◌, inl, inr}
pub use mathlib.Core.Bool.{Bool, true, false, not, ◌&&◌, ◌||◌}
pub use mathlib.Core.Option.{Option, none, some}
pub use mathlib.Core.List.{List, [], ◌∷◌, ◌++◌, map}
pub use native.Mathlib.Omega.{arith}
