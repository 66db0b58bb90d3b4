-- ===== src/Compact/Steps.antt =====
-- What the steps of a compaction do to the manifest and the tag that the client has.
use s3db.Base.{ℤ, Text, ◌≡◌, ap, subst, arith}
use s3db.Result.{Result, ok, err}
use s3db.Result.Exec.{modify, by_bind}
use s3db.Result.Keeps.{Keeps, keeps_rules}
use s3db.Env.{Env}
use s3db.Sqlite.{Sqlite}
use s3db.Manifest.{Manifest}
use s3db.Manifest.Io.{load_manifest}
use s3db.Client.{ConnRef, nil, closed, live, Client, CommitConfig, manifest_key, outside, on_conn}
use s3db.Sync.{refresh_manifest}
use s3db.Sync.Frame.{
  OfManifest, outside-Keeps, reopen_conn-Keeps, sync_to_manifest-Keeps, on_conn-Keeps,
}
use s3db.Compact.{close_conn, or_reopen, upload_local, upload_snapshot}

-- A refresh that succeeds gives the client a manifest and a tag that were loaded together.
module _ {S : Type 0} (env : Env S) (lib : Sqlite) (cfg : CommitConfig)
    (P : Manifest → Text → Type 0) where
  open lib use {Conn}

  pub refresh_manifest-sets :
      ((s : S) (m : Manifest) (etag : Text) (s' : S)
        → load_manifest env (manifest_key cfg.prefix) s ≡ (ok (m, etag), s')
        → P m etag)
      → (c c' : Client S Conn) → refresh_manifest env lib cfg c ≡ (ok tt, c')
      → OfManifest P c'
  unfolding refresh_manifest modify outside
  refresh_manifest-sets loaded c c' h = by_bind _ _ c h λ (m, etag) t got rest.
      by_bind _ _ t rest λ u t1 checked rest1. by_bind _ _ t1 rest1 λ v t2 set rest2.
        let there : OfManifest P t2 =
          subst (OfManifest P) (ap (λ q. q.1) set)
            (loaded c.out m etag t.out (λ i. ((got i).0, (got i).1.out))) in
        subst (OfManifest P) (ap (λ q. q.1) rest2) ((sync_to_manifest-Keeps env lib P).at t2 there)

  pub close_conn-Keeps : (ref : ConnRef Conn) → Keeps (OfManifest P) (close_conn env lib ref)
  close_conn-Keeps nil = record { at = λ c h. h }
  close_conn-Keeps closed = record { at = λ c h. h }
  close_conn-Keeps (live conn) = record { at = λ c h. ground (arith, h) }

  or_reopen-Keeps : (r : Result ℤ) → Keeps (OfManifest P) (or_reopen env lib r)
  unfolding or_reopen
  or_reopen-Keeps (ok size) = search keeps_rules
  or_reopen-Keeps (err e) = search (keeps_rules, reopen_conn-Keeps)

  pub upload_local-Keeps : (key : Text) → Keeps (OfManifest P) (upload_local env lib key)
  unfolding upload_local
  upload_local-Keeps key =
      search (keeps_rules, outside-Keeps, or_reopen-Keeps, reopen_conn-Keeps) depth 9

  vacuum_lem : Keeps (OfManifest P) (on_conn {S = S} lib.vacuum)
  vacuum_lem = on_conn-Keeps P lib.vacuum

  pub upload_snapshot-Keeps : Keeps (OfManifest P) (upload_snapshot env lib cfg)
  unfolding upload_snapshot
  upload_snapshot-Keeps =
      search (keeps_rules, vacuum_lem, close_conn-Keeps, outside-Keeps, upload_local-Keeps) depth 12
