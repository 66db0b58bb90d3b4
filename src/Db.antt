-- ===== src/Db.antt =====
-- s3db.go: the handle of a database, and what its callers run.
pub mod Updated
pub mod Viewed
use s3db.Base.{
  ℕ, zero, suc, ◌+◌, ℤ, pos, negsuc, lt_int, add64, Text, codes, has_suffix, Bool, true, false, not,
  ◌&&◌, Option, none, some, List, [], ◌∷◌, ◌++◌, length, leb, if◌then◌else◌,
}
use s3db.Errors.{Error, panic, bad_prefix, is_not_found, is_precondition_failed}
use s3db.Result.{Result, ok, err, fail_if}
use s3db.Result.Exec.{Exec, pure, raise, lift, current, modify, attempt, ◌>>=◌, ◌>>◌}
use s3db.Blob.{if_none_match}
use s3db.Env.{Env}
use s3db.Sqlite.{Sqlite}
use s3db.Manifest.{Manifest, BlobRef, LogEntry}
use s3db.Manifest.Io.{load_manifest, put_manifest}
use s3db.Client.{
  ConnRef, nil, closed, live, CommitConfig, manifest_key, CommitState, Client, outside, on_conn,
}
use s3db.Sync.{refresh_manifest, download_snapshot, apply_log}
use s3db.Commit.{do_update}
use s3db.Compact.{upload_file, compact}
use s3db.Migrate.{Migration, run_migrations}

-- `Stats`
pub record Stats : Type 0 where
  pub seq : ℤ
  pub schema_version : ℤ
  pub snapshot_size : ℤ
  pub log_entries : ℕ
  pub log_bytes : ℤ

-- The loop of `Stats`.
unfoldable pub log_bytes_from : ℤ → List LogEntry → ℤ
log_bytes_from sum [] = sum
log_bytes_from sum (e ∷ log) = log_bytes_from (add64 sum e.size) log

-- `Stats`
unfoldable pub stats : {C : Type 0} → CommitState C → Stats
unfolding log_bytes_from
stats st = record {
  seq = st.local_seq;
  schema_version = st.manifest.schema_version;
  snapshot_size = st.manifest.snapshot.size;
  log_entries = length st.manifest.log;
  log_bytes = log_bytes_from (pos 0) st.manifest.log;
}

module _ {S : Type 0} (env : Env S) where
  -- The manifest of `bootstrap`; its format is stamped when it is written.
  abbrev pub initial : Text → ℤ → Manifest
  initial key size = record {
    format_version = pos 0;
    seq = pos 0;
    schema_version = pos 0;
    snapshot = record { key = key; seq = pos 0; size = size };
    log = [];
  }

  unfoldable pub or_winner : Text → Result (Manifest × Text) → Exec S (Manifest × Text)
  or_winner prefix (ok got) = pure got
  or_winner prefix (err e) =
      if is_precondition_failed e then load_manifest env (manifest_key prefix) else raise e

  -- `bootstrap`; `empty` is the file of an empty database, which SQLite makes.
  unfoldable pub bootstrap : Text → Result Text → Exec S (Manifest × Text)
  unfolding or_winner
  bootstrap prefix empty = do
    bytes ← lift empty
    let key = prefix ++ codes "snapshots/snap-init.sqlite"
    size ← upload_file env key bytes
    r ← attempt (put_manifest env (manifest_key prefix) (initial key size) if_none_match)
    or_winner prefix r

  unfoldable pub or_bootstrap :
      Text → Result Text → Result (Manifest × Text) → Exec S (Manifest × Text)
  unfolding bootstrap
  or_bootstrap prefix empty (ok got) = pure got
  or_bootstrap prefix empty (err e) = if is_not_found e then bootstrap prefix empty else raise e

  -- The manifest that `Open` starts from.
  unfoldable pub first_manifest : Text → Result Text → Exec S (Manifest × Text)
  unfolding or_bootstrap
  first_manifest prefix empty = do
    lift (fail_if (not (has_suffix (codes "/") prefix)) bad_prefix)
    r ← attempt (load_manifest env (manifest_key prefix))
    or_bootstrap prefix empty r

  module _ (lib : Sqlite) (cfg : CommitConfig) where
    open lib use {Conn}

    -- `SetInterrupt`, which panics without an open connection
    abbrev set_interrupt : Exec (Client S Conn) (Unit {0})
    set_interrupt = on_conn (λ conn. (ok tt, conn))

    abbrev reset_interrupt : ConnRef Conn → Exec (Client S Conn) (Unit {0})
    reset_interrupt nil c = (ok tt, c)
    reset_interrupt closed c = (err panic, c)
    reset_interrupt (live conn) c = (ok tt, c)

    -- `withInterrupt`
    unfoldable pub with_interrupt :
        Exec (Client S Conn) (Unit {0}) → Exec (Client S Conn) (Unit {0})
    with_interrupt m = do
      set_interrupt
      r ← attempt m
      c ← current
      reset_interrupt c.st.conn
      lift r

    -- The result of the caller's function, or the error of the rollback if there is none.
    abbrev viewed : Result (Unit {0}) → Result (Unit {0}) → Result (Unit {0})
    viewed (ok _) rolled = rolled
    viewed (err e) rolled = err e

    -- `View`
    unfoldable pub view : Exec Conn (Unit {0}) → Exec (Client S Conn) (Unit {0})
    unfolding with_interrupt
    view fn = do
      refresh_manifest env lib cfg
      with_interrupt (
          on_conn
            do lib.begin; r ← attempt fn; rolled ← attempt lib.roll_back; lift (viewed r rolled))

    -- `autoCompactAfter > 0 && len(log) >= autoCompactAfter`
    abbrev pub is_due : ℤ → Manifest → Bool
    is_due after m = lt_int (pos 0) after && not (lt_int (pos (length m.log)) after)

    -- `onCompactError`, if there is one, is called with the error.
    unfoldable pub report :
        Option (Error → S → S) → Result (Unit {0}) → Exec (Client S Conn) (Unit {0})
    report handler (ok _) = pure tt
    report none (err e) = pure tt
    report (some handle) (err e) = modify (λ c. record c { out = handle e c.out })

    -- The hook of `Update`; an error of the compaction is only reported.
    unfoldable pub auto_compact : ℤ → Option (Error → S → S) → Exec (Client S Conn) (Unit {0})
    unfolding report
    auto_compact after handler = do
      c ← current
      if is_due after c.st.manifest
          then (attempt (compact env lib cfg) >>= report handler)
          else pure tt

    -- `Update`
    unfoldable pub update :
        ℤ → Option (Error → S → S) → Exec Conn (Unit {0}) → Exec (Client S Conn) (Unit {0})
    unfolding with_interrupt auto_compact
    update after handler fn = do
      refresh_manifest env lib cfg
      with_interrupt (do_update env lib cfg fn)
      auto_compact after handler

    abbrev close_ref : ConnRef Conn → Exec (Client S Conn) (Unit {0})
    close_ref nil c = (ok tt, c)
    close_ref closed c = (lib.close_again, record c { st = record c.st { conn = nil } })
    close_ref (live conn) c =
        (lib.close conn, record c { st = record c.st { conn = nil }; disk = lib.file conn })

    -- `Close`; an own local file is emptied in place of its removal.
    unfoldable pub close : Bool → Exec (Client S Conn) (Unit {0})
    close own = do
      c ← current
      r ← attempt (close_ref c.st.conn)
      modify (λ d. if own then record d { disk = [] } else d)
      lift r
