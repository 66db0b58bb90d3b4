-- ===== src/Sync/Frame.antt =====
-- Syncing the local database leaves the manifest and its tag as they are.
use s3db.Base.{ℤ, Text, arith, List, [], ◌∷◌}
use s3db.Result.{Result, ok, err}
use s3db.Result.Exec.{Exec}
use s3db.Result.Keeps.{Keeps, Keeps-modify, keeps_rules}
use s3db.Env.{Env}
use s3db.Sqlite.{Sqlite}
use s3db.Manifest.{Manifest, BlobRef, LogEntry}
use s3db.Client
use s3db.Client.{ConnRef, nil, closed, live, CommitState, Client, outside, on_conn}
use s3db.Sync.{
  refresh, reopen_conn, apply_log, apply_needed, apply_fetched, sync_to_manifest, close_ref,
}

-- `P` may speak of the manifest and the tag that the client has.
module _ {S C : Type 0} (P : Manifest → Text → Type 0) where
  abbrev pub OfManifest : Client S C → Type 0
  OfManifest c = P c.st.manifest c.st.etag

  pub outside-Keeps : {A : Type 0} (m : Exec S A) → Keeps OfManifest (outside {C = C} m)
  unfolding outside
  outside-Keeps m = record { at = λ c h. h }

  on_ref-Keeps :
      {A : Type 0} (m : Exec C A) (ref : ConnRef C) (c : Client S C)
      → OfManifest c
      → OfManifest (Client.on_ref ref m c).1
  on_ref-Keeps m nil c h = h
  on_ref-Keeps m closed c h = h
  on_ref-Keeps m (live conn) c h = h

  pub on_conn-Keeps : {A : Type 0} (m : Exec C A) → Keeps OfManifest (on_conn {S = S} m)
  unfolding on_conn
  on_conn-Keeps m = record { at = λ c h. on_ref-Keeps m c.st.conn c h }

module _ {S : Type 0} (env : Env S) (lib : Sqlite) (P : Manifest → Text → Type 0) where
  open lib use {Conn}

  abbrev Q : Client S Conn → Type 0
  Q = OfManifest P

  close_ref-Keeps : (ref : ConnRef Conn) → Keeps Q (close_ref env lib ref)
  close_ref-Keeps nil = record { at = λ c h. h }
  close_ref-Keeps closed = record { at = λ c h. ground (arith, h) }
  close_ref-Keeps (live conn) = record { at = λ c h. ground (arith, h) }

  pub reopen_conn-Keeps : Keeps Q (reopen_conn env lib)
  unfolding reopen_conn
  reopen_conn-Keeps = record { at = λ c h. ground (arith, h) }

  refresh-Keeps : (b : BlobRef) → Keeps Q (refresh env lib b)
  unfolding refresh
  refresh-Keeps b =
      search (keeps_rules, Keeps-modify, close_ref-Keeps, outside-Keeps, reopen_conn-Keeps) depth 9

  apply_fetched-Keeps :
      (ref : ConnRef Conn) (r : Result (List (ℤ × Text))) → Keeps Q (apply_fetched env lib ref r)
  apply_fetched-Keeps ref (err e) = record { at = λ c h. h }
  apply_fetched-Keeps nil (ok bodies) = record { at = λ c h. h }
  apply_fetched-Keeps closed (ok bodies) = record { at = λ c h. h }
  apply_fetched-Keeps (live conn) (ok bodies) = record { at = λ c h. h }

  apply_needed-Keeps : (need : List LogEntry) → Keeps Q (apply_needed env lib need)
  apply_needed-Keeps [] = record { at = λ c h. h }
  apply_needed-Keeps (e ∷ need) = record { at = λ c h. (apply_fetched-Keeps c.st.conn _).at _ h }

  apply_log-Keeps : (log : List LogEntry) → Keeps Q (apply_log env lib log)
  unfolding apply_log
  apply_log-Keeps log = record { at = λ c. (apply_needed-Keeps _).at c }

  -- Whatever happens, success or failure, `syncToManifest` leaves the client's manifest and tag
  -- alone.
  pub sync_to_manifest-Keeps : Keeps Q (sync_to_manifest env lib)
  unfolding sync_to_manifest
  sync_to_manifest-Keeps = search (keeps_rules, refresh-Keeps, apply_log-Keeps)
