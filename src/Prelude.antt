-- ===== src/Prelude.antt =====
-- The names that the other modules share: the libraries', passed on, and those of the children.
mod Tests
mod Lists
mod Text
mod Assoc
mod Sorting
mod Results
mod Counts
pub mod Int
pub use Tests.*
pub use Lists.{
  length, get_elem?, set, length-set, get_elem?-set, get_elem?-append, lt-length_of_get_elem?, In,
  Distinct, All, length-append, length-keep-le, In-append, In-keep, length-map, In-reverse,
  List-cases, All-of_In, In-map_of_In, In-map_cases, length-keep_mono, length-keep_lt,
}
unfoldable pub use Sorting.{sort_strings}
pub use Sorting.{In-sort_strings}
pub use Counts.{
  occ, occ-append, occ-sort_strings, In-occ, occ-In, length-le_of_occ, occ-cons-le, position,
  position-lt, position-append,
}
unfoldable pub use Lists.{keep}
unfoldable pub use Text.{str_eq, str_leb}
pub use Text.{Str, codes, str_eq_iff, str_eq_refl, str_leb_total, str_leb_trans, str_leb_antisymm}
pub use Results.{IsOk, Result, ok, err, ◌>>=◌, ◌>>◌, bind-ok, check-ok}
unfoldable pub use Assoc.{lookup_str, has_str, list_at, append_at}
pub use Assoc.{has_str_iff, list_at-append_at, lookup_str-map}
pub use Prim.Native.Nat.{ℕ, zero, suc, ◌+◌, ◌-◌, ◌*◌, ◌/◌, ◌%◌, ◌^◌, ◌≤◌, ◌<◌}
pub use mathlib.Core.Path.{◌≡◌, refl, sym, ap, ◌∙◌, subst}
pub use mathlib.Core.Logic.{◌≢◌, ◌↔◌, ◌⊎◌, inl, inr}
pub use mathlib.Core.Bool.{Bool, true, false, not, ◌&&◌, ◌||◌}
pub use mathlib.Core.Option.{Option, none, some}
pub use mathlib.Core.List.{List, [], ◌∷◌, ◌++◌, map, foldl}
pub use native.Mathlib.Omega.{arith}
unfoldable pub use native.Mathlib.Decide.{ℕ_discrete}
