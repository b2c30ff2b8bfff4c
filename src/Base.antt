-- ===== src/Base.antt =====
-- The names that all modules share: the libraries', passed on, and those of the children.
mod Tests
mod Int
mod Dicts
mod Lists
mod Sets
mod PairSets
pub use Tests.*
pub use Int.*
pub use Lists.{length, drop, take, get_or, length-drop, length-last_items}
unfoldable pub use Lists.{last_items, insert_sorted, sort, contains, insert_set, sorted_set, any_of}
unfoldable pub use Int.{◌+ℤ◌, ◌-ℤ◌, floor_div}
unfoldable pub use Dicts.{lookup, insert, erase, keys_of, total}
pub use Dicts.{
  Dict, has_key, get_or_default, get_or_default-some, get_or_default-none, get, get-insert,
  get-insert_self, lookup-insert, lookup-erase_ne, total-insert, AllNonneg, get-nonneg,
  insert-AllNonneg, total-nonneg, DistinctKeys, insert-DistinctKeys, erase-DistinctKeys,
  lookup-erase_self, contains-keys_of,
}
pub use Sets.{
  Above, Above-weaken, IsAscending, tail-IsAscending, contains-insert_set, contains-sorted_set,
  insert_set-IsAscending, insert_set-Above, sorted_set-IsAscending, ascending_ext, sorted_set_ext,
  length-insert_set,
}
pub use PairSets.{eq_pair, ltb_pair, sorted_pairs_ext, contains_pair-sorted_pairs}
unfoldable pub use PairSets.{contains_pair, insert_pair, sorted_pairs}
pub use Prim.Native.Nat.{ℕ, zero, suc, ◌+◌, ◌-◌, ◌*◌, ◌/◌, ◌%◌, ◌^◌, ◌≤◌, ◌<◌, min, max}
pub use mathlib.Core.Path.{◌≡◌, refl, sym, ap, ◌∙◌}
pub use mathlib.Core.Logic.{◌≢◌, ◌↔◌, ◌⊎◌, inl, inr}
pub use mathlib.Core.Bool.{Bool, true, false, not, ◌&&◌, ◌||◌}
pub use mathlib.Core.Option.{Option, none, some}
pub use mathlib.Core.List.{List, [], ◌∷◌, ◌++◌, map, append_assoc}
pub use native.Mathlib.Omega.{arith}
