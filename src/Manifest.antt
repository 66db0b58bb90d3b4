-- ===== src/Manifest.antt =====
-- manifest.go: the manifest, its validation and its updates.
pub mod Valid
pub mod Update
pub mod Io
use s3db.Base.{
  ℕ, zero, suc, ◌+◌, ℤ, pos, lt_int, add64, int_eq, Text, is_empty, not, Option, none, some, List,
  [], ◌∷◌, ◌++◌, ◌==◌, take, last_index, path_base, if◌then◌else◌,
}
use s3db.Errors.{
  invalid_manifest, empty_snapshot_key, negative_snapshot_seq, format_too_new,
  negative_schema_version, empty_log_key, log_gap, wrong_seq,
}
use s3db.Result.{Result, ok, err, ◌>>◌, fail_if}

abbrev pub manifest_format_version : ℤ
manifest_format_version = pos 1

-- `blobRef`
pub record BlobRef : Type 0 where
  pub key : Text
  pub seq : ℤ
  pub size : ℤ

-- `logEntry`
pub record LogEntry : Type 0 where
  pub key : Text
  pub seq : ℤ
  pub size : ℤ

-- `manifest`
pub record Manifest : Type 0 where
  pub format_version : ℤ
  pub seq : ℤ
  pub schema_version : ℤ
  pub snapshot : BlobRef
  pub log : List LogEntry

-- `if i := strings.LastIndex(base, "."); i > 0`
abbrev pub strip_extension : Text → Option ℕ → Text
strip_extension base none = base
strip_extension base (some zero) = base
strip_extension base (some (suc i)) = take (suc i) base

unfoldable pub epoch_of_key : Text → Text
unfolding path_base last_index
epoch_of_key key = let base = path_base key in strip_extension base (last_index b'.' base)

-- `(m *manifest) epoch`
unfoldable pub epoch : Manifest → Text
unfolding epoch_of_key
epoch m = epoch_of_key m.snapshot.key

-- The loop of `validate`, from entry `i` with sequence number `want`.
unfoldable pub validate_log : ℕ → ℤ → List LogEntry → Result (Unit {0})
validate_log i want [] = ok tt
validate_log i want (e ∷ log) =
    let rest = validate_log (i + 1) (add64 want (pos 1)) log in
    if is_empty e.key
    then err (invalid_manifest (empty_log_key i))
    else if not (e.seq == want)
    then err (invalid_manifest (log_gap i e.seq want))
    else rest

-- `m.Log[n-1].Seq`, or the snapshot's sequence number
abbrev pub last_seq : ℤ → List LogEntry → ℤ
last_seq s [] = s
last_seq s (e ∷ log) = last_seq e.seq log

-- `(m *manifest) validate`
unfoldable pub validate : Manifest → Result (Unit {0})
unfolding validate_log
validate m = do
  fail_if (is_empty m.snapshot.key) (invalid_manifest empty_snapshot_key)
  fail_if (lt_int m.snapshot.seq (pos 0)) (invalid_manifest (negative_snapshot_seq m.snapshot.seq))
  fail_if (lt_int manifest_format_version m.format_version)
      (invalid_manifest (format_too_new m.format_version))
  fail_if (lt_int m.schema_version (pos 0))
      (invalid_manifest (negative_schema_version m.schema_version))
  validate_log 0 (add64 m.snapshot.seq (pos 1)) m.log
  fail_if (not (m.seq == last_seq m.snapshot.seq m.log))
      (invalid_manifest (wrong_seq m.seq (last_seq m.snapshot.seq m.log)))

-- `(m *manifest) appendLog`
unfoldable pub append_log : LogEntry → Manifest → Manifest
append_log entry m = record m { log = m.log ++ entry ∷ []; seq = entry.seq }

-- `(m *manifest) withSnapshot`
unfoldable pub with_snapshot : BlobRef → Manifest → Manifest
with_snapshot snapshot m = record {
  format_version = manifest_format_version;
  seq = snapshot.seq;
  schema_version = m.schema_version;
  snapshot = snapshot;
  log = [];
}
