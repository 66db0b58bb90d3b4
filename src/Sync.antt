-- ===== src/Sync.antt =====
-- sync.go: downloading a snapshot and applying the log; `syncToManifest` and `refreshManifest` of
-- commit.go.
pub mod Frame
pub mod Reads
pub mod Parts
pub mod Whole
use s3db.Base.{
  ℕ, zero, suc, ◌+◌, ◌-◌, ◌*◌, ◌/◌, ℤ, pos, negsuc, lt_int, Text, text_eq, int_eq, nat_eq, Bool,
  true, false, not, ◌||◌, Option, none, some, List, [], ◌∷◌, ◌++◌, ◌==◌, leb, length, take, drop,
  if◌then◌else◌,
}
use s3db.Base.Lists.{replicate}
use s3db.Errors.{Error, panic, schema_mismatch, schema_too_new}
use s3db.Result.{Result, ok, err}
use s3db.Result.Exec.{Exec, pure, raise, lift, current, modify, ◌>>=◌, ◌>>◌}
use s3db.Env.{Env, create_temp, sync_file, close_file, rename_file, file_calls}
use s3db.Sqlite.{Sqlite}
use s3db.Session.{apply_changeset}
use s3db.Manifest.{Manifest, BlobRef, LogEntry}
use s3db.Manifest.Io.{load_manifest}
use s3db.Client.{
  ConnRef, nil, closed, live, CommitConfig, manifest_key, CommitState, Client, outside, on_conn,
}

abbrev pub parallel_download_threshold : ℕ
parallel_download_threshold = 4 * 1048576

abbrev pub parallel_download_parts : ℕ
parallel_download_parts = 4

-- `WriteAt`: a file grows with zeros up to the offset, and bytes that were there are replaced.
unfoldable pub write_at : ℕ → Text → Text → Text
write_at off p file =
    take off (file ++ replicate (off - length file) 0) ++ p ++ drop (off + length p) file

-- The ranges of `downloadParallel` from part `i` on, `n` of them left; both ends are inclusive.
unfoldable pub ranges : ℕ → ℕ → ℕ → ℕ → List (ℕ × ℕ)
ranges size chunk zero i = []
ranges size chunk (suc n) i =
    let start = i * chunk in
    (start, if n == 0 then size - 1 else start + chunk - 1) ∷ ranges size chunk n (i + 1)

-- `chunkSize`, and the ranges of all parts
unfoldable pub split_ranges : ℕ → ℕ → List (ℕ × ℕ)
unfolding ranges
split_ranges size parts =
    let chunk = size / parts in
    if chunk == 0 then ranges size size 1 0 else ranges size chunk parts 0

module _ {S : Type 0} (env : Env S) where
  -- One goroutine after the other; each writes its range at its offset.
  unfoldable pub fetch_ranges : Text → List (ℕ × ℕ) → Text → Exec S Text
  unfolding write_at
  fetch_ranges key [] file = pure file
  fetch_ranges key ((start, end) ∷ rest) file =
      env.store.get_range key (pos start) (pos end) >>= λ body.
      fetch_ranges key rest (write_at start body file)

  unfoldable pub download_parallel : Text → ℕ → ℕ → Exec S Text
  unfolding fetch_ranges split_ranges
  download_parallel key size parts = fetch_ranges key (split_ranges size parts) []

  unfoldable pub download_single : Text → Exec S Text
  download_single key = do got ← env.store.get key; pure got.0

  -- What `downloadSnapshot` writes to the temporary file.
  unfoldable pub fetch_snapshot : Text → ℤ → Exec S Text
  unfolding download_parallel download_single
  fetch_snapshot key (negsuc _) = download_single key
  fetch_snapshot key (pos size) =
      if leb parallel_download_threshold size
      then download_parallel key size parallel_download_parts
      else download_single key

  -- `downloadSnapshot`: the new bytes of the local file, which a rename puts in place.
  unfoldable pub download_snapshot : Text → ℤ → Exec S Text
  unfolding fetch_snapshot file_calls
  download_snapshot key size = do
    file_calls env (create_temp ∷ [])
    body ← fetch_snapshot key size
    file_calls env (sync_file ∷ close_file ∷ rename_file ∷ [])
    pure body

  -- `need` of `applyLog`
  unfoldable pub newer : ℤ → List LogEntry → List LogEntry
  newer from [] = []
  newer from (e ∷ log) = let rest = newer from log in if lt_int from e.seq then e ∷ rest else rest

  -- The fetches of `applyLog`, in the order of the log.
  unfoldable pub fetch_bodies : List LogEntry → Exec S (List (ℤ × Text))
  fetch_bodies [] = pure []
  fetch_bodies (e ∷ need) =
      env.store.get e.key >>= λ got. fetch_bodies need >>= λ rest. pure ((e.seq, got.0) ∷ rest)

  module _ (lib : Sqlite) where
    open lib use {Conn}

    -- The sequential part of `applyLog`: the number that it reached comes back also with an
    -- error.
    unfoldable pub apply_bodies : ℤ → List (ℤ × Text) → Conn → ℤ × Result (Unit {0}) × Conn
    apply_bodies seq [] c = (seq, ok tt, c)
    apply_bodies seq ((next, cs) ∷ rest) c =
        let (r, c') = apply_changeset lib cs c in
        elim r [ ok _ ↦ apply_bodies next rest c' | err e ↦ (seq, err e, c') ]

    -- What `applyLog` does with the bodies, and `st.localSeq = seq` after it, on success and on
    -- error.
    abbrev apply_fetched : ConnRef Conn → Result (List (ℤ × Text)) → Exec (Client S Conn) (Unit {0})
    apply_fetched ref (err e) c = (err e, c)
    apply_fetched (live conn) (ok bodies) c =
        let (seq, r, conn') = apply_bodies c.st.local_seq bodies conn in
        (r, record c { st = record c.st { conn = live conn'; local_seq = seq } })
    apply_fetched nil (ok _) c = (err panic, c)
    apply_fetched closed (ok _) c = (err panic, c)

    abbrev apply_needed : List LogEntry → Exec (Client S Conn) (Unit {0})
    apply_needed [] c = (ok tt, c)
    apply_needed (e ∷ need) c =
        let (r, out) = fetch_bodies (e ∷ need) c.out in
        apply_fetched c.st.conn r (record c { out = out })

    -- `applyLog` on `st.conn` from `st.localSeq`, and the assignment of the number that it
    -- reached
    unfoldable pub apply_log : List LogEntry → Exec (Client S Conn) (Unit {0})
    unfolding newer fetch_bodies apply_bodies
    apply_log log c = apply_needed (newer c.st.local_seq log) c

    abbrev needs_refresh : CommitState Conn → Bool
    needs_refresh st =
        let stale =
          lt_int st.local_seq st.manifest.snapshot.seq
          || not (st.snapshot_key == st.manifest.snapshot.key) in
        elim st.conn [ nil ↦ true | closed ↦ stale | live _ ↦ stale ]

    -- `st.conn.Close()` and `st.conn = nil`
    abbrev close_ref : ConnRef Conn → Exec (Client S Conn) (Unit {0})
    close_ref nil c = (ok tt, c)
    close_ref closed c = elim lib.close_again [
      | ok _ ↦ (ok tt, record c { st = record c.st { conn = nil } })
      | err e ↦ (err e, c)
    ]
    close_ref (live conn) c = elim (lib.close conn) [
      | ok _ ↦ (ok tt, record c { st = record c.st { conn = nil }; disk = lib.file conn })
      | err e ↦ (err e, record c { st = record c.st { conn = closed } })
    ]

    -- `openLocalConn(localPath)`, assigned to `st.conn`
    unfoldable pub reopen_conn : Exec (Client S Conn) (Unit {0})
    reopen_conn c = elim (lib.open_conn c.disk) [
      | ok conn ↦ (ok tt, record c { st = record c.st { conn = live conn } })
      | err e ↦ (err e, c)
    ]

    -- The full refresh of `syncToManifest`.
    unfoldable pub refresh : BlobRef → Exec (Client S Conn) (Unit {0})
    unfolding reopen_conn download_snapshot
    refresh snapshot = do
      c ← current
      close_ref c.st.conn
      body ← outside (download_snapshot snapshot.key snapshot.size)
      modify (λ d. record d { disk = body })
      reopen_conn
      modify (λ d. record d {
        st = record d.st { local_seq = snapshot.seq; snapshot_key = snapshot.key };
      })

    -- `syncToManifest`
    unfoldable pub sync_to_manifest : Exec (Client S Conn) (Unit {0})
    unfolding refresh apply_log
    sync_to_manifest = do
      c ← current
      if needs_refresh c.st then refresh c.st.manifest.snapshot else pure tt
      apply_log c.st.manifest.log

    -- The test of the schema version in `refreshManifest`.
    unfoldable pub check_schema : ℤ → ℤ → Result (Unit {0})
    check_schema found expected =
        if found == expected
        then ok tt
        else if lt_int expected found
        then err schema_too_new
        else err schema_mismatch

    -- `refreshManifest`
    unfoldable pub refresh_manifest : CommitConfig → Exec (Client S Conn) (Unit {0})
    unfolding check_schema sync_to_manifest
    refresh_manifest cfg = do
      (m, etag) ← outside (load_manifest env (manifest_key cfg.prefix))
      lift (check_schema m.schema_version cfg.schema_ver)
      modify (λ c. record c { st = record c.st { manifest = m; etag = etag } })
      sync_to_manifest
