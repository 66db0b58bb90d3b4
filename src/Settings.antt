-- ===== src/Settings.antt =====
-- options.go: what `Open` is told, and the schema version that it expects (s3db.go).
use s3db.Base.{
  ℤ, pos, lt_int, Text, Bool, true, false, Option, none, some, List, [], ◌∷◌, if◌then◌else◌, ◌≤ℤ◌,
  arith, Bool-cases, inl, inr,
}
use s3db.Manifest.{Manifest}
use s3db.Migrate.{Migration}

-- `options`; `H` is what may handle the error of a compaction. The period is in nanoseconds.
pub record Options (C H : Type 0) : Type 0 where
  pub local_path : Text
  pub max_retries : ℤ
  pub auto_compact_after : ℤ
  pub migrations : List (Migration C)
  pub gc_grace_period : ℤ
  pub on_compact_error : Option H
  pub schema_unchecked : Bool

-- `Option`, by the functions that make one
pub data Setting (C H : Type 0) : Type 0 where
  with_local_path : Text → Setting C H
  with_max_retries with_auto_compact : ℤ → Setting C H
  with_compact_error_handler : H → Setting C H
  with_gc_grace_period : ℤ → Setting C H
  with_migrations : List (Migration C) → Setting C H
  with_schema_unchecked : Setting C H

-- the highest version, from `found` on
unfoldable pub highest : {C : Type 0} → ℤ → List (Migration C) → ℤ
highest found [] = found
highest found (mig ∷ migs) = highest (if lt_int found mig.version then mig.version else found) migs

module _ {C H : Type 0} where
  unfoldable pub default_options : Options C H
  default_options = record {
    local_path = [];
    max_retries = pos 10;
    auto_compact_after = pos 0;
    migrations = [];
    gc_grace_period = pos 300000000000;
    on_compact_error = none;
    schema_unchecked = false;
  }

  unfoldable pub apply_setting : Setting C H → Options C H → Options C H
  apply_setting (with_local_path path) o = record o { local_path = path }
  apply_setting (with_max_retries n) o = record o {
    max_retries = if lt_int n (pos 1) then pos 1 else n;
  }
  apply_setting (with_auto_compact threshold) o = record o { auto_compact_after = threshold }
  apply_setting (with_compact_error_handler fn) o = record o { on_compact_error = some fn }
  apply_setting (with_gc_grace_period d) o = record o { gc_grace_period = d }
  apply_setting (with_migrations ms) o = record o { migrations = ms }
  apply_setting with_schema_unchecked o = record o { schema_unchecked = true }

  -- `for _, opt := range opts { opt(&o) }`
  unfoldable pub apply_settings : List (Setting C H) → Options C H → Options C H
  unfolding apply_setting
  apply_settings [] o = o
  apply_settings (s ∷ settings) o = apply_settings settings (apply_setting s o)

  -- `schemaVer`
  unfoldable pub expected_schema : Options C H → Manifest → ℤ
  unfolding highest
  expected_schema o m =
      if o.schema_unchecked then m.schema_version else highest (pos 0) o.migrations

  setting-max_retries :
      (s : Setting C H) (o : Options C H)
      → pos 1 ≤ℤ o.max_retries
      → pos 1 ≤ℤ (apply_setting s o).max_retries
  unfolding apply_setting
  setting-max_retries (with_local_path path) o h = h
  setting-max_retries (with_max_retries n) o h = elim (Bool-cases (lt_int n (pos 1))) [
    | inl small ↦ rw small (omega arith)
    | inr large ↦ rw large (ground (arith, large))
  ]
  setting-max_retries (with_auto_compact threshold) o h = h
  setting-max_retries (with_compact_error_handler fn) o h = h
  setting-max_retries (with_gc_grace_period d) o h = h
  setting-max_retries (with_migrations ms) o h = h
  setting-max_retries with_schema_unchecked o h = h

  settings-max_retries :
      (settings : List (Setting C H)) (o : Options C H)
      → pos 1 ≤ℤ o.max_retries
      → pos 1 ≤ℤ (apply_settings settings o).max_retries
  unfolding apply_settings
  settings-max_retries [] o h = h
  settings-max_retries (s ∷ settings) o h =
      settings-max_retries settings (apply_setting s o) (setting-max_retries s o h)

  -- Whatever options `Open` is given, an update has at least one attempt.
  apply_settings-max_retries :
      (settings : List (Setting C H))
      → pos 1 ≤ℤ (apply_settings settings default_options).max_retries
  unfolding default_options
  apply_settings-max_retries settings = settings-max_retries settings default_options (omega arith)
