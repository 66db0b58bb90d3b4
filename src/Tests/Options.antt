-- ===== src/Tests/Options.antt =====
-- Options in the order in which they are given.
use s3db.Base.{pos, ◌≡◌, refl, List, [], ◌∷◌}
use s3db.Settings.{Setting, with_max_retries, with_auto_compact, default_options, apply_settings}
use s3db.Tests.Outside.{Rows}

abbrev given : List (Setting Rows (Unit {0}))
given = with_max_retries (pos 7) ∷ with_auto_compact (pos 3) ∷ with_max_retries (pos 0) ∷ []

given_retries : (apply_settings given default_options).max_retries ≡ pos 1
unfolding apply_settings default_options
given_retries = refl

given_compact : (apply_settings given default_options).auto_compact_after ≡ pos 3
unfolding apply_settings default_options
given_compact = refl
