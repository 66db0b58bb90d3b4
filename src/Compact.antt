-- ===== src/Compact.antt =====
-- compact.go: replacing the snapshot and the log by one new snapshot.
pub mod Stored
pub mod Steps
pub mod Moves
pub mod Found
pub mod Compacted
use s3db.Base.{
  ℕ, zero, suc, ℤ, pos, Text, codes, Bool, true, false, List, [], ◌∷◌, ◌++◌, length, Option, none,
  some, if◌then◌else◌,
}
use s3db.Errors.{Error, conflict, is_precondition_failed, panic}
use s3db.Result.{Result, ok, err}
use s3db.Result.Exec.{Exec, pure, raise, lift, current, modify, attempt, ◌>>=◌, ◌>>◌}
use s3db.Blob.{no_condition, if_match}
use s3db.Env.{Env, open_file, stat_file, file_calls}
use s3db.Sqlite.{Sqlite}
use s3db.Manifest.{Manifest, BlobRef, with_snapshot}
use s3db.Manifest.Io.{put_manifest}
use s3db.Client.{
  ConnRef, nil, closed, live, CommitConfig, manifest_key, CommitState, Client, outside, on_conn,
}
use s3db.Sync.{refresh_manifest, reopen_conn}

-- "%ssnapshots/snap-%s.sqlite"
abbrev pub snapshot_key : Text → Text → Text
snapshot_key prefix uuid = prefix ++ (codes "snapshots/snap-" ++ (uuid ++ codes ".sqlite"))

module _ {S : Type 0} (env : Env S) where
  -- `uploadFile` on a file with these bytes; the size of the file comes back.
  unfoldable pub upload_file : Text → Text → Exec S ℤ
  unfolding file_calls
  upload_file key bytes = do
    file_calls env (open_file ∷ stat_file ∷ [])
    env.store.put key bytes no_condition
    pure (pos (length bytes))

  module _ (lib : Sqlite) where
    open lib use {Conn}

    -- `db.st.conn.Close()`, after which `st.conn` still points at the connection
    abbrev pub close_conn : ConnRef Conn → Exec (Client S Conn) (Unit {0})
    close_conn nil c = (err panic, c)
    close_conn closed c = (lib.close_again, c)
    close_conn (live conn) c = elim (lib.close conn) [
      | ok _ ↦ (ok tt, record c { st = record c.st { conn = closed }; disk = lib.file conn })
      | err e ↦ (err e, record c { st = record c.st { conn = closed } })
    ]

    -- `if err != nil { db.reopenConn(); return err }`
    unfoldable pub or_reopen : Result ℤ → Exec (Client S Conn) ℤ
    or_reopen (ok size) = pure size
    or_reopen (err e) = attempt (reopen_conn env lib) >> raise e

    -- The file as the blob `key`, with the connection closed meanwhile; its size comes back.
    unfoldable pub upload_local : Text → Exec (Client S Conn) ℤ
    unfolding upload_file or_reopen
    upload_local key = do
      c ← current
      r ← attempt (outside (upload_file key c.disk))
      size ← or_reopen r
      reopen_conn env lib
      pure size

    module _ (cfg : CommitConfig) where
      -- What follows the swap; `false` is a lost race.
      unfoldable pub after_swap : Text → Result (Manifest × Text) → Exec (Client S Conn) Bool
      after_swap key (ok (m, etag)) = do
        modify
            (λ c. record c { st = record c.st { manifest = m; etag = etag; snapshot_key = key } })
        pure true
      after_swap key (err e) = if is_precondition_failed e then pure false else raise e

      -- The swap of the manifest for one with this snapshot.
      unfoldable pub swap_snapshot : Text → ℤ → Exec (Client S Conn) Bool
      unfolding after_swap
      swap_snapshot key size = do
        c ← current
        let new =
            with_snapshot (record { key = key; seq = c.st.manifest.seq; size = size }) c.st.manifest
        r ← attempt (outside (put_manifest env (manifest_key cfg.prefix) new (if_match c.st.etag)))
        after_swap key r

      -- The vacuumed file as a new blob, whose key and size come back.
      unfoldable pub upload_snapshot : Exec (Client S Conn) (Text × ℤ)
      unfolding upload_local
      upload_snapshot = do
        on_conn lib.vacuum
        c ← current
        close_conn c.st.conn
        uuid ← outside env.uuid
        size ← upload_local (snapshot_key cfg.prefix uuid)
        pure (snapshot_key cfg.prefix uuid, size)

      -- One attempt after the refresh, with a log that is not empty.
      unfoldable pub compact_once : Exec (Client S Conn) Bool
      unfolding upload_snapshot swap_snapshot
      compact_once = upload_snapshot >>= λ (key, size). swap_snapshot key size

      -- `len(db.st.manifest.Log) == 0`
      abbrev no_log : Manifest → Bool
      no_log m = elim m.log [ [] ↦ true | _ ∷ _ ↦ false ]

      -- The loop of `compactLocked`, with `n` attempts left.
      unfoldable pub compact_loop : ℕ → Exec (Client S Conn) (Unit {0})
      unfolding compact_once
      compact_loop zero = raise conflict
      compact_loop (suc n) =
          let again = compact_loop n in
          refresh_manifest env lib cfg
          >> (current >>= λ c.
              if no_log c.st.manifest
              then pure tt
              else (compact_once >>= λ won. if won then pure tt else again))

      -- `Compact`
      unfoldable pub compact : Exec (Client S Conn) (Unit {0})
      unfolding compact_loop
      compact = compact_loop cfg.max_retries
