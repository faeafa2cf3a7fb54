-- ===== src/Base.antt =====
-- The names that the other modules share: the libraries', passed on, and those of the children.
mod Tests
mod Lists
mod Maps
mod Text
mod Cuts
mod Decimal
mod Integers
mod Splits
mod Trims
pub mod Outcomes
unfoldable pub use Tests.*
pub use Lists.{length, take, drop, keep, any_of, all_of, All, All-append, All-keep}
pub use Lists.{length-append, take-append-drop, length-take, take_of_length-le, length-keep-le}
pub use Lists.{get_elem?-set, weigh-set, get_elem?-replicate, weigh-replicate, all_of-get_elem?}
pub use Lists.{weigh_of_all, weigh-get_elem?-le}
unfoldable pub use Lists.{get_elem?, set, weigh, replicate}
pub use Decimal.{format_uint-injective}
unfoldable pub use Decimal.{format_uint}
pub use Maps.{Key, nat_key, Map, Distinct}
pub use Maps.{lookup-insert, lookup-delete, length-delete-le, length-insert-le, length-insert_old}
pub use Maps.{insert-Distinct, delete-Distinct, beq_refl, beq_of_ne}
pub use Maps.{retain-count, lookup-retain, retain-Distinct}
unfoldable pub use Maps.{lookup, insert, delete, retain, count_failing, passing}
pub use Text.{Bytes, codes, bytes_key, bytes_eq-to, bytes_eq_refl, bytes_eq_iff}
pub use Integers.{
  ℤ, pos, negsuc, is_digit, number_byte, Fits, parse_int-format_int, format_int-bytes,
}
unfoldable pub use Integers.{parse_digits, parse_uint, positive, negative, parse_int, format_int}
pub use Text.{lower_byte, spaces}
unfoldable pub use Text.{bytes_eq, cut_prefix, cut_suffix, cut, trim_suffix_byte}
unfoldable pub use Text.{strip_one, strip_all, trim_space, to_lower, equal_fold}
pub use Cuts.*
pub use Trims.{graphic, all-append, trim_space-graphic}
pub use Splits.{free_of, split-append, split_free}
unfoldable pub use Splits.{split, onto_first}
pub use Prim.Native.Nat.{ℕ, zero, suc, ◌+◌, ◌-◌, ◌*◌, ◌/◌, ◌%◌, ◌^◌, ◌≤◌, ◌<◌, min, max}
pub use mathlib.Core.Path.{◌≡◌, refl, sym, ap, ◌∙◌, fun_ext}
pub use mathlib.Core.Logic.{◌≢◌, ◌↔◌, ◌⊎◌, inl, inr}
pub use mathlib.Core.Bool.{Bool, true, false, not, ◌&&◌, ◌||◌}
pub use mathlib.Core.Option.{Option, none, some}
pub use mathlib.Core.List.{List, [], ◌∷◌, ◌++◌, map, append-nil, append_assoc}
pub use native.Mathlib.Omega.{arith}
