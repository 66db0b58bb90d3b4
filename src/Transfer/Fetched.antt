-- ===== src/Transfer/Fetched.antt =====
-- Pulls, and the first part of pushes, in a store at rest.
use s3db.Base.{
  ℕ, pos, codes, ◌≡◌, ◌≢◌, refl, ap, ◌∙◌, Text, List, text_eq, text_dec, int_eq, some, length, [],
  ◌∷◌, ◌++◌, arith,
}
use s3db.Base.Bytes.{byte, append-left_cancel}
use s3db.Result.{ok}
use s3db.Blob.{Contents}
use s3db.Env.{Env}
use s3db.Env.Quiet.{Runs, IsQuiet, runs_read, runs_step, runs_pure}
use s3db.Env.Quiet.Manifests.{Holds, load_manifest-runs, download_snapshot-runs}
use s3db.Sqlite.{Sqlite}
use s3db.Manifest.{Manifest, LogEntry}
use s3db.Client.{manifest_key}
use s3db.Transfer.{PullInfo, check_row, check_prefix, validate_sqlite_file, pull, pull_log}

-- The manifest lies outside `snapshots/`.
pub manifest_key-ne-under :
    (prefix name : Text) → prefix ++ (codes "snapshots/" ++ name) ≢ manifest_key prefix
manifest_key-ne-under prefix name h =
    let heads : ◌≡◌ {A = ℕ} b's' b'm' = ap (λ t. byte t 0) (append-left_cancel prefix _ _ h) in
    absurd (omega (arith, heads))

check_row_ok : check_row (some (codes "ok")) ≡ ok tt
unfolding check_row text_dec
check_row_ok = refl

-- What a pull says of a manifest.
abbrev pub info_of : Manifest → PullInfo
info_of m = record {
  seq = m.seq;
  schema_version = m.schema_version;
  snapshot_size = m.snapshot.size;
  log_entries = length m.log;
}

-- SQLite accepts the file.
pub record Accepts (lib : Sqlite) (bytes : Text) : Type 1 where
  pub conn : lib.Conn
  pub opens : lib.open_read bytes ≡ ok conn
  pub checks : lib.quick_check conn ≡ ok (some (codes "ok"))

module _ {S : Type 0} (env : Env S) (lib : Sqlite) (hash : Text → Text) (at : S → Contents)
    (rest : S → Type 0) (quiet : IsQuiet env hash at rest) where
  pub validate_sqlite_file-runs :
      (bytes : Text) (s : S)
      → rest s
      → Accepts lib bytes
      → Runs at rest (validate_sqlite_file env lib (ok bytes)) s bytes (at s)
  unfolding validate_sqlite_file
  validate_sqlite_file-runs bytes s r a = runs_step at rest _ _ s bytes bytes refl (
      runs_step at rest _ _ s a.conn bytes a.opens (
        runs_step at rest _ _ s (some (codes "ok")) bytes a.checks
          (runs_step at rest _ _ s tt bytes check_row_ok (runs_pure at rest bytes s r))))

  pull_log-runs :
      (file : Text) (m : Manifest) (log : List LogEntry) (s : S)
      → rest s
      → log ≡ []
      → Runs at rest (pull_log env lib file m log) s file (at s)
  unfolding pull_log
  pull_log-runs file m [] s r e = runs_pure at rest file s r
  pull_log-runs file m (x ∷ log) s r e = absurd (cc e)

  -- A snapshot without a log is pulled as it is stored.
  pub pull-runs :
      (prefix : Text) (m : Manifest) (tag bytes btag : Text) (s : S)
      → rest s
      → check_prefix prefix ≡ ok tt
      → Holds env hash at rest quiet (manifest_key prefix) m tag s
      → m.log ≡ []
      → m.snapshot.size ≡ pos (length bytes)
      → at s m.snapshot.key ≡ some (bytes, btag)
      → Runs at rest (pull env lib prefix) s (info_of m, bytes) (at s)
  unfolding pull
  pull-runs prefix m tag bytes btag s r named h short sized held =
      runs_step at rest _ _ s tt _ named (
        runs_read at rest _ _ s (m, tag) _
          (load_manifest-runs env hash at rest quiet (manifest_key prefix) m tag s r h)
          λ t rt at_t.
            runs_read at rest _ _ t bytes _
              (rw sized (
                download_snapshot-runs env hash at rest quiet m.snapshot.key bytes btag t rt
                  (at_t _ ∙ held)))
              λ u ru at_u.
                runs_read at rest _ _ u bytes _ (pull_log-runs bytes m m.log u ru short)
                  λ v rv at_v. runs_pure at rest (info_of m, bytes) v rv)
