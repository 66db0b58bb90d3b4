-- ===== src/Transfer.antt =====
-- pullpush.go: a database as one file, created from a file, fetched into one and replaced by one.
pub mod Moves
pub mod Kept
pub mod Pushed
pub mod Initialised
pub mod Fetched
pub mod Again
use s3db.Base.{
  ℕ, ℤ, pos, negsuc, lt_int, int_eq, Text, text_eq, codes, has_suffix, Bool, true, false, not, ◌&&◌,
  ◌==◌, Option, none, some, List, [], ◌∷◌, ◌++◌, length, if◌then◌else◌,
}
use s3db.Errors.{
  Error, precondition_failed, seq_mismatch, bad_prefix, bad_file, is_not_found,
  is_precondition_failed,
}
use s3db.Result.{Result, ok, err, fail_if}
use s3db.Result.Exec.{Exec, pure, raise, lift, attempt, ◌>>=◌, ◌>>◌}
use s3db.Blob.{BlobInfo, if_match, if_none_match}
use s3db.Env.{Env}
use s3db.Sqlite.{Sqlite}
use s3db.Manifest.{Manifest, BlobRef, LogEntry, with_snapshot}
use s3db.Manifest.Io.{load_manifest, put_manifest}
use s3db.Client.{manifest_key}
use s3db.Sync.{download_snapshot, newer, fetch_bodies, apply_bodies}
use s3db.Compact.{upload_file}
use s3db.Db.{initial}

-- `PullInfo`
pub record PullInfo : Type 0 where
  pub seq : ℤ
  pub schema_version : ℤ
  pub snapshot_size : ℤ
  pub log_entries : ℕ

-- `if !strings.HasSuffix(prefix, "/")`
abbrev pub check_prefix : Text → Result (Unit {0})
check_prefix prefix = fail_if (not (has_suffix (codes "/") prefix)) bad_prefix

-- "%ssnapshots/snap-init-%s.sqlite" and "%ssnapshots/snap-push-%s.sqlite"
abbrev pub init_key : Text → Text → Text
init_key prefix uuid = prefix ++ (codes "snapshots/snap-init-" ++ (uuid ++ codes ".sqlite"))

abbrev pub push_key : Text → Text → Text
push_key prefix uuid = prefix ++ (codes "snapshots/snap-push-" ++ (uuid ++ codes ".sqlite"))

-- The first row of the check.
unfoldable pub check_row : Option Text → Result (Unit {0})
check_row none = err bad_file
check_row (some row) = if row == codes "ok" then ok tt else err bad_file

-- `expectedSeq >= 0 && m.Seq != expectedSeq`
abbrev pub is_stale : ℤ → ℤ → Bool
is_stale expected found = not (lt_int expected (pos 0)) && not (found == expected)

module _ {S : Type 0} (env : Env S) (lib : Sqlite) where
  open lib use {Conn}

  -- `validateSQLiteFile`, by what reading the file gives
  unfoldable pub validate_sqlite_file : Result Text → Exec S Text
  unfolding check_row
  validate_sqlite_file src = do
    bytes ← lift src
    conn ← lift (lib.open_read bytes)
    row ← lift (lib.quick_check conn)
    lift (check_row row)
    pure bytes

  -- A stat that succeeds, or fails otherwise than by a missing key, ends `Init`.
  unfoldable pub must_be_new : Result BlobInfo → Exec S (Unit {0})
  must_be_new (ok info) = raise precondition_failed
  must_be_new (err e) = if is_not_found e then pure tt else raise e

  -- The first snapshot: the file's, or an empty database's.
  unfoldable pub upload_first : Text → Option (Result Text) → Result Text → Exec S (Text × ℤ)
  unfolding validate_sqlite_file
  upload_first prefix (some src) empty = do
    bytes ← validate_sqlite_file src
    uuid ← env.uuid
    size ← upload_file env (init_key prefix uuid) bytes
    pure (init_key prefix uuid, size)
  upload_first prefix none empty = do
    bytes ← lift empty
    size ← upload_file env (prefix ++ codes "snapshots/snap-init.sqlite") bytes
    pure (prefix ++ codes "snapshots/snap-init.sqlite", size)

  -- `Init`; `src` is the file, if a path was given, and `empty` the file of an empty database.
  unfoldable pub init : Text → Option (Result Text) → Result Text → Exec S (Unit {0})
  unfolding must_be_new upload_first
  init prefix src empty = do
    lift (check_prefix prefix)
    r ← attempt (env.store.stat (manifest_key prefix))
    must_be_new r
    (key, size) ← upload_first prefix src empty
    put_manifest env (manifest_key prefix) (initial env key size) if_none_match
    pure tt

  -- The end of the replay: the first error is that of the log, then that of the close.
  unfoldable pub replayed : Result (Unit {0}) → Conn → Result Text
  replayed (ok _) conn = elim (lib.close conn) [ ok _ ↦ ok (lib.file conn) | err e ↦ err e ]
  replayed (err e) conn = err e

  -- The file after `applyLog` on it.
  unfoldable pub replay : Conn → ℤ → List LogEntry → Exec S Text
  unfolding replayed
  replay conn from log = do
    r ← attempt (fetch_bodies env (newer env from log))
    lift (elim r [
      | ok bodies ↦
          let (seq, applied, end) = apply_bodies env lib from bodies conn in replayed applied end
      | err e ↦ replayed (err e) conn
    ])

  unfoldable pub pull_log : Text → Manifest → List LogEntry → Exec S Text
  unfolding replay
  pull_log file m [] = pure file
  pull_log file m (e ∷ log) = do
    conn ← lift (lib.open_conn file)
    replay conn m.snapshot.seq (e ∷ log)

  -- `Pull`: the bytes of the file at `destPath`, with what is known of it
  unfoldable pub pull : Text → Exec S (PullInfo × Text)
  unfolding pull_log
  pull prefix = do
    lift (check_prefix prefix)
    (m, etag) ← load_manifest env (manifest_key prefix)
    file ← download_snapshot env m.snapshot.key m.snapshot.size
    end ← pull_log file m m.log
    pure (
      record {
        seq = m.seq;
        schema_version = m.schema_version;
        snapshot_size = m.snapshot.size;
        log_entries = length m.log;
      },
      end,
    )

  -- A lost race is a mismatch.
  unfoldable pub or_mismatch : Result (Manifest × Text) → Exec S (Unit {0})
  or_mismatch (ok _) = pure tt
  or_mismatch (err e) = if is_precondition_failed e then raise seq_mismatch else raise e

  -- `Push`
  unfoldable pub push : Text → Result Text → ℤ → Exec S (Unit {0})
  unfolding or_mismatch validate_sqlite_file
  push prefix src expected = do
    lift (check_prefix prefix)
    bytes ← validate_sqlite_file src
    (m, etag) ← load_manifest env (manifest_key prefix)
    lift (fail_if (is_stale expected m.seq) seq_mismatch)
    uuid ← env.uuid
    size ← upload_file env (push_key prefix uuid) bytes
    let new = with_snapshot (record { key = push_key prefix uuid; seq = m.seq; size = size }) m
    r ← attempt (put_manifest env (manifest_key prefix) new (if_match etag))
    or_mismatch r
