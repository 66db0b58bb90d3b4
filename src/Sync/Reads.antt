-- ===== src/Sync/Reads.antt =====
-- Syncing only reads from the store.
use s3db.Base.{ℕ, ℤ, pos, negsuc, Text, List, [], ◌∷◌, arith}
use s3db.Result.{Result, ok, err}
use s3db.Result.Exec.{Exec}
use s3db.Result.Keeps.{Keeps, Keeps-modify, Keeps-bind, Keeps-pure, keeps_rules}
use s3db.Env.{Env}
use s3db.Env.Kept.{file_calls-Keeps}
use s3db.Sqlite.{Sqlite}
use s3db.Manifest.{BlobRef, LogEntry}
use s3db.Manifest.Io.{load_manifest}
use s3db.Client
use s3db.Client.{ConnRef, nil, closed, live, Client, CommitConfig, outside, on_conn}
use s3db.Sync.{
  write_at, fetch_ranges, download_parallel, download_single, download_snapshot, fetch_snapshot,
  fetch_bodies, close_ref, reopen_conn, refresh, apply_fetched, apply_needed, apply_log,
  sync_to_manifest, refresh_manifest,
}

module _ {S : Type 0} (env : Env S) (Q : S → Type 0) (get : (k : Text) → Keeps Q (env.store.get k))
    (get_range : (k : Text) (start end : ℤ) → Keeps Q (env.store.get_range k start end)) where
  fetch_ranges-Keeps :
      (key : Text) (rs : List (ℕ × ℕ)) (file : Text) → Keeps Q (fetch_ranges env key rs file)
  unfolding fetch_ranges
  fetch_ranges-Keeps key [] file = search keeps_rules
  fetch_ranges-Keeps key ((start, end) ∷ rs) file =
      Keeps-bind _ (λ body. fetch_ranges-Keeps key rs (write_at start body file)) _
        (get_range key (pos start) (pos end))

  download_parallel-Keeps :
      (key : Text) (size parts : ℕ) → Keeps Q (download_parallel env key size parts)
  unfolding download_parallel
  download_parallel-Keeps key size parts = fetch_ranges-Keeps key _ []

  download_single-Keeps : (key : Text) → Keeps Q (download_single env key)
  unfolding download_single
  download_single-Keeps key = search (keeps_rules, get)

  fetch_snapshot-Keeps : (key : Text) (size : ℤ) → Keeps Q (fetch_snapshot env key size)
  unfolding fetch_snapshot
  fetch_snapshot-Keeps key (negsuc n) = download_single-Keeps key
  fetch_snapshot-Keeps key (pos n) =
      search (keeps_rules, download_parallel-Keeps, download_single-Keeps)

  download_snapshot-Keeps : (key : Text) (size : ℤ) → Keeps Q (download_snapshot env key size)
  unfolding download_snapshot
  download_snapshot-Keeps key size =
      search (keeps_rules, file_calls-Keeps env Q, fetch_snapshot-Keeps)

  fetch_bodies-Keeps : (need : List LogEntry) → Keeps Q (fetch_bodies env need)
  unfolding fetch_bodies
  fetch_bodies-Keeps [] = search keeps_rules
  fetch_bodies-Keeps (e ∷ need) =
      Keeps-bind _ (λ got. Keeps-bind _ (λ rest. Keeps-pure _) _ (fetch_bodies-Keeps need)) _
        (get e.key)

  pub load_manifest-Keeps : (key : Text) → Keeps Q (load_manifest env key)
  unfolding load_manifest
  load_manifest-Keeps key = search (keeps_rules, get)

  module _ (lib : Sqlite) where
    open lib use {Conn}

    abbrev pub OfOut : Client S Conn → Type 0
    OfOut c = Q c.out

    pub outside-Keeps : {A : Type 0} (m : Exec S A) → Keeps Q m → Keeps OfOut (outside m)
    unfolding outside
    outside-Keeps m k = record { at = λ c h. k.at c.out h }

    on_ref-Keeps :
        {A : Type 0} (m : Exec Conn A) (ref : ConnRef Conn) (c : Client S Conn)
        → OfOut c
        → OfOut (Client.on_ref ref m c).1
    on_ref-Keeps m nil c h = h
    on_ref-Keeps m closed c h = h
    on_ref-Keeps m (live conn) c h = h

    pub on_conn-Keeps : {A : Type 0} (m : Exec Conn A) → Keeps OfOut (on_conn m)
    unfolding on_conn
    on_conn-Keeps m = record { at = λ c h. on_ref-Keeps m c.st.conn c h }

    close_ref-Keeps : (ref : ConnRef Conn) → Keeps OfOut (close_ref env lib ref)
    close_ref-Keeps nil = record { at = λ c h. h }
    close_ref-Keeps closed = record { at = λ c h. ground (arith, h) }
    close_ref-Keeps (live conn) = record { at = λ c h. ground (arith, h) }

    pub reopen_conn-Keeps : Keeps OfOut (reopen_conn env lib)
    unfolding reopen_conn
    reopen_conn-Keeps = record { at = λ c h. ground (arith, h) }

    refresh-Keeps : (b : BlobRef) → Keeps OfOut (refresh env lib b)
    unfolding refresh
    refresh-Keeps b =
        search
          (
            keeps_rules, Keeps-modify, close_ref-Keeps, outside-Keeps, download_snapshot-Keeps,
            reopen_conn-Keeps,
          )
          depth 9

    apply_fetched-Keeps :
        (ref : ConnRef Conn) (r : Result (List (ℤ × Text)))
        → Keeps OfOut (apply_fetched env lib ref r)
    apply_fetched-Keeps ref (err e) = record { at = λ c h. h }
    apply_fetched-Keeps nil (ok bodies) = record { at = λ c h. h }
    apply_fetched-Keeps closed (ok bodies) = record { at = λ c h. h }
    apply_fetched-Keeps (live conn) (ok bodies) = record { at = λ c h. h }

    apply_needed-Keeps : (need : List LogEntry) → Keeps OfOut (apply_needed env lib need)
    apply_needed-Keeps [] = record { at = λ c h. h }
    apply_needed-Keeps (e ∷ need) = record {
      at = λ c h.
          (apply_fetched-Keeps c.st.conn _).at _ ((fetch_bodies-Keeps (e ∷ need)).at c.out h);
    }

    apply_log-Keeps : (log : List LogEntry) → Keeps OfOut (apply_log env lib log)
    unfolding apply_log
    apply_log-Keeps log = record { at = λ c. (apply_needed-Keeps _).at c }

    pub sync_to_manifest-Keeps : Keeps OfOut (sync_to_manifest env lib)
    unfolding sync_to_manifest
    sync_to_manifest-Keeps = search (keeps_rules, refresh-Keeps, apply_log-Keeps)

    -- What `refreshManifest` does to the store is some gets of whole blobs and of ranges.
    pub refresh_manifest-Keeps : (cfg : CommitConfig) → Keeps OfOut (refresh_manifest env lib cfg)
    unfolding refresh_manifest
    refresh_manifest-Keeps cfg =
        search
          (keeps_rules, Keeps-modify, outside-Keeps, load_manifest-Keeps, sync_to_manifest-Keeps)
          depth 9
