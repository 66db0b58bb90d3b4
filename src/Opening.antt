-- ===== src/Opening.antt =====
-- s3db.go: `Open`, from the manifest to the handle.
pub mod Ready
use s3db.Base.{
  ℕ, ℤ, pos, negsuc, is_empty, Text, Bool, true, false, Option, none, some, List, [], ◌∷◌,
  if◌then◌else◌,
}
use s3db.Errors.{Error}
use s3db.Result.{Result, ok, err}
use s3db.Result.Exec.{Exec, pure, lift, attempt, ◌>>=◌, ◌>>◌}
use s3db.Env.{Env}
use s3db.Sqlite.{Sqlite}
use s3db.Manifest.{Manifest, LogEntry}
use s3db.Client.{live, CommitConfig, CommitState, Client}
use s3db.Sync.{download_snapshot, newer, fetch_bodies, apply_bodies}
use s3db.Db.{first_manifest, close}
use s3db.Migrate.{Migration, run_migrations}
use s3db.Settings.{Options, expected_schema}

-- `maxRetries`, which no option makes less than 1
abbrev pub retries : ℤ → ℕ
retries (pos n) = n
retries (negsuc n) = 0

module _ {S : Type 0} (env : Env S) (lib : Sqlite) {H : Type 0} (o : Options lib.Conn H) where
  open lib use {Conn}

  -- The end of `applyLog` on the new connection: its number and the connection.
  unfoldable pub log_applied : ℤ → Conn → Result (Unit {0}) → Result (ℤ × Conn)
  log_applied seq conn (ok _) = ok (seq, conn)
  log_applied seq conn (err e) = err e

  -- `applyLog` on the new connection
  unfoldable pub bring_up : Manifest → Conn → Exec S (ℤ × Conn)
  unfolding log_applied
  bring_up m conn = do
    bodies ← fetch_bodies env (newer env m.snapshot.seq m.log)
    let (seq, end, applied) = apply_bodies env lib m.snapshot.seq bodies conn
    lift (log_applied seq applied end)

  -- `db.cfg`
  abbrev pub config : Text → Manifest → CommitConfig
  config prefix m = record {
    prefix = prefix;
    max_retries = retries o.max_retries;
    schema_ver = expected_schema o m;
  }

  -- `db` before the migrations
  abbrev pub fresh : Manifest → Text → ℤ → Conn → S → Client S Conn
  fresh m etag seq conn s = record {
    out = s;
    st = record {
      conn = live conn;
      local_seq = seq;
      snapshot_key = m.snapshot.key;
      manifest = m;
      etag = etag;
    };
    disk = [];
    saved = false;
  }

  -- What follows the migrations.
  unfoldable pub migrated :
      (S → S)
      → CommitConfig
      → Result (Option (Unit {0}))
      → Client S Conn
      → Result (Option (CommitConfig × Client S Conn)) × S
  migrated remove cfg (ok (some _)) c = (ok (some (cfg, c)), c.out)
  migrated remove cfg (ok none) c = (ok none, c.out)
  migrated remove cfg (err e) c =
      let s = (close env lib cfg (is_empty o.local_path) c).1.out in
      (err e, if is_empty o.local_path then remove s else s)

  unfoldable pub migrate :
      (S → S)
      → ℕ
      → CommitConfig
      → Client S Conn
      → Result (Option (CommitConfig × Client S Conn)) × S
  unfolding migrated
  migrate remove rounds cfg c =
      if o.schema_unchecked
      then (ok (some (cfg, c)), c.out)
      else let (r, d) = run_migrations env lib cfg o.migrations rounds c in migrated remove cfg r d

  -- What an error of a step leaves: an own local file is removed.
  unfoldable pub or_removed : {A : Type 0} → (S → S) → Result A → Exec S A
  or_removed remove (ok a) s = (ok a, s)
  or_removed remove (err e) s = (err e, if is_empty o.local_path then remove s else s)

  unfoldable pub or_remove : {A : Type 0} → (S → S) → Exec S A → Exec S A
  unfolding or_removed
  or_remove remove m = attempt m >>= or_removed remove

  -- `Open`, with the file that a temporary one is made as, its removal, the file of an empty
  -- database, and a number of rounds for the migrations; `none` says that these have not ended by
  -- then.
  unfoldable pub open_db :
      Text
      → Result Text
      → (S → S)
      → Result Text
      → ℕ
      → Exec S (Option (CommitConfig × Client S Conn))
  unfolding bring_up migrate or_remove
  open_db prefix temp remove empty rounds = do
    (m, etag) ← first_manifest env prefix empty
    lift (if is_empty o.local_path then temp else ok o.local_path)
    file ← or_remove remove (download_snapshot env m.snapshot.key m.snapshot.size)
    conn ← or_remove remove (lift (lib.open_conn file))
    (seq, up) ← or_remove remove (bring_up m conn)
    (λ s. migrate remove rounds (config prefix m) (fresh m etag seq up s))
