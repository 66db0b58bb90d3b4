-- ===== src/Commit/Recorded.antt =====
-- The swap of phase 2, and what the client records of it.
use s3db.Base.{Text, ◌≡◌, refl, true, false, arith}
use s3db.Result.{Result, ok, err}
use s3db.Result.Exec.{◌>>=◌}
use s3db.Blob.{if_match}
use s3db.Env.{Env}
use s3db.Sqlite.{Sqlite}
use s3db.Manifest.{Manifest, append_log}
use s3db.Manifest.Io.{put_manifest}
use s3db.Client.{Client, CommitConfig, manifest_key, outside, on_conn}
use s3db.Commit.{Attempt, new_entry, after_put, cas_phase}

module _ {S : Type 0} (env : Env S) (lib : Sqlite) (cfg : CommitConfig) where
  open lib use {Conn}

  -- What the client has after a swap that succeeded.
  pub record Recorded (r : Result (Manifest × Text)) (c c' : Client S Conn) : Type 0 where
    pub put : r ≡ ok (c'.st.manifest, c'.st.etag)
    pub same_out : c'.out ≡ c.out
    pub synced : c'.st.local_seq ≡ c'.st.manifest.seq
    pub closed : c'.saved ≡ false

  pub after_put-Recorded :
      (r : Result (Manifest × Text)) (c c' : Client S Conn)
      → after_put env lib cfg r c ≡ (ok true, c')
      → Recorded r c c'
  unfolding after_put on_conn ◌>>=◌
  after_put-Recorded (ok (m, etag)) c c' h = ground arith
  after_put-Recorded (err e) c c' h = ground arith

  -- the put of phase 2, and what follows it
  abbrev pub put_new : Attempt → Client S Conn → Result (Manifest × Text) × S
  put_new l c =
      put_manifest env (manifest_key cfg.prefix)
        (append_log (new_entry env lib cfg l c.st.manifest) c.st.manifest) (if_match c.st.etag)
        c.out

  pub cas_phase-eq :
      (l : Attempt) (c : Client S Conn)
      → cas_phase env lib cfg l c
        ≡ after_put env lib cfg (put_new l c).0 (record c { out = (put_new l c).1 })
  unfolding cas_phase outside ◌>>=◌
  cas_phase-eq l c = refl
