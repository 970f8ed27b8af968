-- ===== src/Base.antt =====
-- The names that the other modules share: the libraries', passed on, and those of the children,
-- which hold tests on numbers, lists, Go strings and Go maps, panics, and the 64-bit `int`.
mod Tests
mod Lists
mod Strings
mod Panics
mod Maps
mod Slices
pub mod Decimal
pub mod Int64
pub use Tests.*
pub use Lists.*
unfoldable pub use Strings.{
  text_eq, has_prefix, has_suffix, trim_prefix, trim_suffix, contains_text,
}
pub use Strings.{
  has_prefix-append, has_prefix-trim_prefix, trim_prefix-append, trim_suffix-append, text_neq,
  Distinct, without, contains_text-append, contains_text-without, Distinct-append, Distinct-without,
  without_absent, without-append_self, Text, codes, text_eq_iff, text_eq_refl, text_eq-false,
}
pub use Panics.*
unfoldable pub use Slices.{at, set_at, copy_within, search}
pub use Slices.{search-eq-ok, shift_set}
unfoldable pub use Maps.{lookup, insert, delete}
pub use Maps.{Assoc, keys, lookup-insert, lookup-delete}
pub use Prim.Native.Nat.{ℕ, zero, suc, ◌+◌, ◌-◌, ◌*◌, ◌/◌, ◌%◌, ◌^◌, ◌≤◌, ◌<◌, min}
pub use mathlib.Core.Path.{◌≡◌, refl, sym, ap, ap₂, subst, ◌∙◌, fun_ext}
pub use mathlib.Core.Logic.{◌≢◌, ◌↔◌, ◌⊎◌, inl, inr}
pub use mathlib.Core.Bool.{Bool, true, false, not, ◌&&◌, ◌||◌}
pub use mathlib.Core.Option.{Option, none, some}
pub use mathlib.Core.List.{List, [], ◌∷◌, ◌++◌, map, append-nil, append_assoc}
pub use native.Mathlib.Omega.{arith}
