-- ===== src/Errors.antt =====
-- errors.go: the sentinel errors, and the other errors that the program tells apart. A wrapped
-- error (`%w`) is its cause, since callers look at errors by `errors.Is` and `errors.As`.
use s3db.Base.{ℕ, ℤ, Text, List, Bool, true, false}

-- The invariant that `validate` found violated.
pub data ManifestFault : Type 0 where
  empty_snapshot_key : ManifestFault
  negative_snapshot_seq : ℤ → ManifestFault
  format_too_new : ℤ → ManifestFault
  negative_schema_version : ℤ → ManifestFault
  empty_log_key : ℕ → ManifestFault
  log_gap : ℕ → ℤ → ℤ → ManifestFault
  wrong_seq : ℤ → ℤ → ManifestFault

pub data Error : Type 0 where
  not_found precondition_failed conflict schema_mismatch schema_too_new : Error
  seq_mismatch both_conditions : Error
  -- `errChangesetConflict`, with SQLite's number of the kind of conflict
  changeset_conflict : ℕ → Error
  -- `ErrUnrecordedChanges`
  unrecorded_changes : ℤ → List Text → Error
  invalid_manifest : ManifestFault → Error
  manifest_decode : Error
  -- a slice out of range
  panic : Error
  bad_prefix : Error
  -- a file that is not a sound database
  bad_file : Error
  -- a key that cannot be a file's name, and one that names a directory
  bad_key is_directory : Text → Error
  no_temp_file : Error
  -- what a command was told is no target, misses a file or names no number
  bad_target missing_file bad_number : Error
  bad_versions : Error
  no_migration : Error
  -- the first key that a batch could not delete, and how many there are
  delete_failed : Text → ℕ → Error
  -- an error of the network, the file system, SQLite, a context or the caller's function
  external : ℕ → Error

-- `errors.Is(err, ErrNotFound)`
abbrev pub is_not_found : Error → Bool
is_not_found not_found = true
is_not_found _ = false

-- `errors.Is(err, ErrPreconditionFailed)`
abbrev pub is_precondition_failed : Error → Bool
is_precondition_failed precondition_failed = true
is_precondition_failed _ = false

-- `errors.As(err, &ce)` for `*errChangesetConflict`
abbrev pub is_changeset_conflict : Error → Bool
is_changeset_conflict (changeset_conflict _) = true
is_changeset_conflict _ = false
