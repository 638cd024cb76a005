-- ===== src/Base.antt =====
-- The names that the other modules share.
mod Tests
mod Lists
mod Strings
mod Maps
mod Keys
mod Sorting
mod Orders
mod Found
mod Ascii
mod Int
mod Results
pub use Results.*
pub use Tests.*
pub use Lists.*
unfoldable pub use Strings.{text_eq, text_lt}
pub use Strings.*
unfoldable pub use Maps.{lookup, insert, listed, distinct, find_key, index_by}
pub use Maps.*
unfoldable pub use Keys.{append_at}
pub use Keys.*
unfoldable pub use Ascii.{
  to_lower, to_upper, trim_left, trim_right, trim_space, replace_byte, has_prefix, without_prefix,
  trim_prefix, has_suffix, trim_suffix, contains, fields,
}
pub use Ascii.*
pub use Int.*
unfoldable pub use Sorting.{insert_sorted, sort_by}
pub use Sorting.*
unfoldable pub use Orders.{insert_with, sort_with}
pub use Orders.*
pub use Found.*
pub use mathlib.Core.List.{Perm, reverse}
pub use Prim.Native.Nat.{ℕ, zero, suc, ◌+◌, ◌-◌, ◌*◌, ◌/◌, ◌%◌, ◌≤◌, ◌<◌, min}
pub use Prim.Native.String.{String}
pub use mathlib.Core.Path.{◌≡◌, refl, sym, ap, ◌∙◌, subst}
pub use mathlib.Core.Logic.{◌≢◌, ◌↔◌, ◌⊎◌, inl, inr}
pub use mathlib.Core.Bool.{Bool, true, false, not, ◌&&◌, ◌||◌}
pub use mathlib.Core.Option.{Option, none, some}
pub use mathlib.Core.List.{List, [], ◌∷◌, ◌++◌, map, append-nil, append_assoc, map-append}
pub use native.Mathlib.Omega.{arith}
