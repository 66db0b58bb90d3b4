-- ===== src/Base.antt =====
-- The names that the other modules share: tests, integers, byte strings, lists.
mod Tests
pub mod Int
pub mod Lists
pub mod Bytes
pub mod Assoc
pub mod Sort
pub mod Strings
pub mod Decimal
pub mod Numerals
pub use Tests.*
unfoldable pub use Strings.{
  text_eq, text_dec, has_prefix, has_suffix, index_of, last_index, path_base, trim_left, trim_right,
  trim_quotes, trim_prefix,
}
pub use Strings.{Text, codes, slash, is_empty}
unfoldable pub use Int.{int_eq, int_dec}
unfoldable pub use Int.{add64}
pub use Int.{add64_zero, add64-add64_pos, ℤ, pos, negsuc, lt_int, ◌≤ℤ◌, InRange64}
pub use Lists.{length-append, get_elem?-append_one, length, get_elem?, take, drop}
pub use Prim.Native.Nat.{ℕ, zero, suc, ◌+◌, ◌-◌, ◌*◌, ◌/◌, ◌%◌, ◌^◌, ◌≤◌, ◌<◌, min}
pub use mathlib.Core.Path.{◌≡◌, refl, sym, ap, ap₂, ◌∙◌, subst}
pub use mathlib.Core.Logic.{if_pos, if_neg, ◌≢◌, ◌↔◌, ◌⊎◌, inl, inr, ite}
pub use mathlib.Core.Bool.{Bool, true, false, not, ◌&&◌, ◌||◌}
pub use mathlib.Core.Option.{Option, none, some}
pub use mathlib.Core.List.{List, [], ◌∷◌, ◌++◌, map}
pub use native.Mathlib.Omega.{arith}
unfoldable pub use native.Mathlib.Decide.{ℕ_discrete, dec_lt}
