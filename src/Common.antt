-- ===== src/Common.antt =====
-- The names that the other modules share: the libraries', passed on, and those of the children.
mod Tests
mod Lists
mod Dicts
mod Sort
mod Int
mod Pigeons
pub mod Effects
pub mod Texts
pub use Tests.*
pub use Lists.{
  concat, length, is_empty, length-append, All, All-append, count-append, count-no_repeats,
  count-mem,
}
unfoldable pub use Lists.{count, mem, no_repeats}
pub use Prim.Native.Nat.{ℕ, zero, suc, ◌+◌, ◌-◌, ◌*◌, ◌/◌, ◌%◌, ◌^◌, ◌≤◌, ◌<◌, min, max}
pub use Prim.Native.String.{String}
pub use mathlib.Core.Path.{◌≡◌, refl, sym, ap, ◌∙◌, subst}
pub use mathlib.Core.Logic.{◌≢◌, ◌↔◌, ◌⊎◌, inl, inr}
pub use mathlib.Core.Bool.{Bool, true, false, not, ◌&&◌, ◌||◌}
pub use mathlib.Core.Option.{Option, none, some}
pub use mathlib.Core.List.{List, [], ◌∷◌, ◌++◌, map, reverse, append_assoc, append-nil}
pub use native.Mathlib.Omega.{arith}
pub use text.Mathlib.Text.{◌==◌ as str_eq}
pub use text.Mathlib.TextEquality.{eq_iff}
unfoldable pub use Dicts.{lookup, insert, delete, keys, lookup_or}
pub use Dicts.{
  Dict, IsDict, lookup-insert, lookup-delete, lookup-none, lookup-of_count_zero, count-keys-insert,
  insert-IsDict, delete-IsDict, length-keys,
}
unfoldable pub use Sort.{text_le, sorted}
pub use Sort.{IsSorted, sorted-IsSorted, count-sorted, length-sorted}
pub use Int.{ℤ, pos, negsuc}
unfoldable pub use Int.{increment, decrement}
pub use Pigeons.{IsWithin, length-le_of_within, count_of_full}
