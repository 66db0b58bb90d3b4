-- ===== src/Base/Strings.antt =====
-- Go strings as byte sequences, and what the program uses of the packages `strings` and `path`.
use Prim.Native.Char.{code}
use Prim.Native.Nat.{ℕ, suc}
use Prim.Native.String.{String}
use mathlib.Core.Bool.{Bool, true, false, ◌&&◌}
use mathlib.Core.List.{List, [], ◌∷◌, reverse}
use mathlib.Core.Option
use mathlib.Core.Option.{Option, none, some}
use native.Mathlib.Decide.{ℕ_discrete}
use s3db.Base.Tests.{Eq, nat_eq, ◌==◌, if◌then◌else◌}
use s3db.Base.Lists.{drop, length}

abbrev pub Text : Type 0
Text = List ℕ

-- The bytes of an ASCII literal.
abbrev pub codes : String → Text
codes String.[] = []
codes (String.◌∷◌ c s) = code c ∷ codes s

unfoldable pub text_dec : Discrete Text
unfolding ℕ_discrete
text_dec = hlevel ℕ_discrete

-- `==` at `string`
instance abbrev pub text_eq : Eq Text
text_eq = record { dec = text_dec }

abbrev pub slash : ℕ
slash = b'/'

abbrev pub is_empty : Text → Bool
is_empty [] = true
is_empty (_ ∷ _) = false

-- `strings.HasPrefix(s, p)`, here `has_prefix p s`
unfoldable pub has_prefix : Text → Text → Bool
has_prefix [] s = true
has_prefix (c ∷ p) [] = false
has_prefix (c ∷ p) (d ∷ s) = c == d && has_prefix p s

-- `strings.HasSuffix(s, p)`, here `has_suffix p s`
unfoldable pub has_suffix : Text → Text → Bool
unfolding has_prefix
has_suffix p s = has_prefix (reverse p) (reverse s)

-- `strings.Index(s, c)` for one byte; `none` is -1
unfoldable pub index_of : ℕ → Text → Option ℕ
index_of c [] = none
index_of c (d ∷ s) = if d == c then some 0 else Option.map suc (index_of c s)

-- `strings.LastIndex(s, c)` for one byte
unfoldable pub last_index : ℕ → Text → Option ℕ
last_index c [] = none
last_index c (d ∷ s) = elim (last_index c s) [
  | some i ↦ some (suc i)
  | none ↦ if d == c then some 0 else none
]

-- `strings.TrimPrefix`
unfoldable pub trim_prefix : Text → Text → Text
unfolding has_prefix
trim_prefix p s = if has_prefix p s then drop (length p) s else s

unfoldable pub trim_right : ℕ → Text → Text
trim_right c [] = []
trim_right c (d ∷ s) = let rest = trim_right c s in if d == c && is_empty rest then [] else d ∷ rest

unfoldable pub trim_left : ℕ → Text → Text
trim_left c [] = []
trim_left c (d ∷ s) = let rest = trim_left c s in if d == c then rest else d ∷ s

-- `strings.Trim(s, "\"")`
unfoldable pub trim_quotes : Text → Text
unfolding trim_right trim_left
trim_quotes s = trim_right b'"' (trim_left b'"' s)

abbrev pub after_slash : Text → Option ℕ → Text
after_slash s none = s
after_slash s (some i) = drop (suc i) s

abbrev pub or_slash : Text → Text
or_slash [] = slash ∷ []
or_slash (c ∷ s) = c ∷ s

-- `path.Base`: the last element of a path, "." for the empty path, "/" for slashes alone.
unfoldable pub path_base : Text → Text
unfolding trim_right last_index
path_base [] = codes "."
path_base (c ∷ p) =
    let s = trim_right slash (c ∷ p) in or_slash (after_slash s (last_index slash s))
