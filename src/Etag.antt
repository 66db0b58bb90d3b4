-- ===== src/Etag.antt =====
-- internal/etag/etag.go: entity tags. The hash of `Compute` (Etag/Md5) is
-- a parameter wherever it is used.
pub mod Trim
pub mod Md5
use s3db.Base.{Text, trim_quotes, [], ◌∷◌, ◌++◌}

-- `Normalize`
unfoldable pub normalize : Text → Text
unfolding trim_quotes
normalize s = trim_quotes s

-- `"\"" + tag + "\""`
abbrev pub quoted : Text → Text
quoted tag = b'"' ∷ tag ++ b'"' ∷ []
