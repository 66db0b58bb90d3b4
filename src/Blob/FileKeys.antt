-- ===== src/Blob/FileKeys.antt =====
-- blob_fs.go: the keys that can be the names of files. Go's tests on Unicode are a parameter.
pub mod Valid
pub mod Reserved
use s3db.Base.{
  ℕ, zero, suc, Text, text_eq, codes, slash, is_empty, has_prefix, last_index, Bool, true, false,
  not, ◌&&◌, ◌||◌, ◌==◌, nat_eq, Option, none, some, List, [], ◌∷◌, ◌++◌, take, if◌then◌else◌,
}
use s3db.Errors.{Error, bad_key}
use s3db.Result.{Result, ok, err, fail_if, ◌>>◌}

-- `utf8.ValidString` and `strings.ToLower`
pub record Unicode : Type 0 where
  pub valid : Text → Bool
  pub lower : Text → Text

abbrev pub fs_lock_name : Text
fs_lock_name = codes ".s3db.lock"

abbrev pub fs_tmp_prefix : Text
fs_tmp_prefix = codes ".s3db-tmp-"

-- a byte before the first part of a split
abbrev pub onto_first : ℕ → List Text → List Text
onto_first c [] = (c ∷ []) ∷ []
onto_first c (part ∷ parts) = (c ∷ part) ∷ parts

-- `strings.Split(s, "/")`
unfoldable pub split : Text → List Text
split [] = [] ∷ []
split (c ∷ s) = let rest = split s in if c == slash then [] ∷ rest else onto_first c rest

abbrev pub any : (Text → Bool) → List Text → Bool
any test [] = false
any test (x ∷ xs) = test x || any test xs

-- an element that `fs.ValidPath` refuses
abbrev pub is_bad_element : Text → Bool
is_bad_element part = is_empty part || (part == codes "." || part == codes "..")

-- `fs.ValidPath`
unfoldable pub valid_path : Unicode → Text → Bool
unfolding split
valid_path u name = u.valid name && (name == codes "." || not (any is_bad_element (split name)))

-- `strings.ContainsRune(key, '\\')`
unfoldable pub has_backslash : Text → Bool
has_backslash [] = false
has_backslash (c ∷ s) = c == b'\\' || has_backslash s

abbrev pub is_reserved : Unicode → Text → Bool
is_reserved u part = u.lower part == fs_lock_name || has_prefix fs_tmp_prefix (u.lower part)

-- `isReservedKey`
unfoldable pub is_reserved_key : Unicode → Text → Bool
unfolding split
is_reserved_key u key = any (is_reserved u) (split key)

-- `validateKey`
unfoldable pub validate_key : Unicode → Text → Result (Unit {0})
unfolding valid_path has_backslash is_reserved_key
validate_key u key = do
  fail_if (is_empty key) (bad_key key)
  fail_if (not (valid_path u key) || key == codes ".") (bad_key key)
  fail_if (has_backslash key) (bad_key key)
  fail_if (is_reserved_key u key) (bad_key key)

abbrev pub up_to : Text → Option ℕ → Text
up_to name none = codes "."
up_to name (some i) = take i name

-- `filepath.Dir` of a path without empty, "." and ".." elements
unfoldable pub dir_of : Text → Text
dir_of name = up_to name (last_index slash name)

-- `filepath.Join(dir, base)` of such a directory
unfoldable pub join : Text → Text → Text
join dir base = if dir == codes "." then base else dir ++ slash ∷ base
