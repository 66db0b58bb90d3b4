-- ===== src/Cli.antt =====
-- cmd/s3db/main.go: the target that a command names, and the number that a push expects.
pub mod Targets
pub mod Shell
pub mod Files
pub mod Upkeep
pub mod Main
pub mod Pulled
pub mod Workflow
use s3db.Base.{
  ℕ, ℤ, pos, negsuc, int_eq, nat_eq, text_eq, Text, codes, slash, is_empty, has_prefix, has_suffix,
  drop, length, Bool, true, false, not, ◌||◌, ◌==◌, Option, none, some, List, [], ◌∷◌, ◌++◌,
  if◌then◌else◌,
}
use s3db.Errors.{Error, bad_target}
use s3db.Result.{Result, ok, err, fail_if, ◌>>=◌, ◌>>◌}

-- `target`
pub record Target : Type 0 where
  pub bucket : Text
  pub prefix : Text

-- `String`
abbrev pub show_target : Target → Text
show_target t = codes "s3://" ++ (t.bucket ++ slash ∷ t.prefix)

-- `strings.Cut(s, "/")`, without whether there was a slash
unfoldable pub cut : Text → Text × Text
cut [] = ([], [])
cut (c ∷ s) = let (before, after) = cut s in if c == slash then ([], s) else (c ∷ before, after)

-- `if !strings.HasSuffix(prefix, "/") { prefix += "/" }`
unfoldable pub with_slash : Text → Text
with_slash prefix = if has_suffix (codes "/") prefix then prefix else prefix ++ slash ∷ []

-- The parts of what follows "s3://".
unfoldable pub from_parts : Text × Text → Result Target
unfolding with_slash
from_parts (bucket, prefix) = do
  fail_if (is_empty bucket) bad_target
  fail_if (is_empty prefix) bad_target
  ok (record { bucket = bucket; prefix = with_slash prefix })

-- what follows "s3://"
abbrev pub rest_of : Text → Text
rest_of u = drop (length (codes "s3://")) u

-- `parseS3URL`
unfoldable pub parse_s3_url : Text → Result Target
unfolding cut from_parts
parse_s3_url u =
    if has_prefix (codes "s3://") u then from_parts (cut (rest_of u)) else err bad_target

-- `parseTarget`, by the positional arguments and the two flags
unfoldable pub parse_target : List Text → Text → Text → Result Target
unfolding parse_s3_url
parse_target (arg ∷ args) bucket prefix =
    if has_prefix (codes "s3://") arg then parse_s3_url arg else err bad_target
parse_target [] bucket prefix =
    if is_empty bucket || is_empty prefix
    then err bad_target
    else ok (record { bucket = bucket; prefix = with_slash prefix })

-- What `cmdPush` expects, by `-seq`, `-force`, `-create` and what reading the sidecar file and
-- its number gives.
unfoldable pub expected_seq : ℤ → Bool → Bool → Result Text → (Text → Result ℤ) → Result ℤ
expected_seq seq force create sidecar parse_int =
    if force
    then ok (negsuc 0)
    else if seq == negsuc 1
    then elim sidecar [ ok text ↦ parse_int text | err e ↦ (if create then ok (pos 0) else err e) ]
    else ok seq
