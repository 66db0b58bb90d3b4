-- ===== src/Commit/Finish.antt =====
-- How the loop of `doUpdate` ends.
use s3db.Base.{◌≡◌, ap, arith, true, false}
use s3db.Errors.{Error}
use s3db.Result.{Result, ok, err}
use s3db.Result.Exec.{◌>>=◌, raise}
use s3db.Env.{Env}
use s3db.Sqlite.{Sqlite}
use s3db.Client.{Client, CommitConfig, on_conn, live}
use s3db.Commit.{finish}

module _ {S : Type 0} (env : Env S) (lib : Sqlite) (cfg : CommitConfig) where
  open lib use {Conn}

  pub not_raised : (e : Error) (t c' : Client S Conn) → raise {A = Unit {0}} e t ≡ (ok tt, c') → ⊥
  unfolding raise
  not_raised e t c' h = cc (ap (λ (q : Result (Unit {0}) × Client S Conn). q.0) h)

  -- the deferred release changes only the local database
  pub finish-ok :
      (r : Result (Unit {0})) (t c' : Client S Conn)
      → finish env lib cfg r t ≡ (ok tt, c')
      → (r ≡ ok tt)
        × (c'.out ≡ t.out)
        × (c'.st.manifest ≡ t.st.manifest)
        × (c'.st.etag ≡ t.st.etag)
        × (c'.st.local_seq ≡ t.st.local_seq)
  unfolding finish on_conn ◌>>=◌
  finish-ok (ok u) t c' h = ground arith
  finish-ok (err e) t c' h = ground arith

  -- with an open savepoint and no error, the release is all that it does
  pub finish-releases :
      (r : Result (Unit {0})) (end : Conn) (t c' : Client S Conn)
      → finish env lib cfg r t ≡ (ok tt, c')
      → t.st.conn ≡ live end
      → t.saved ≡ true
      → c' ≡ record t { st = record t.st { conn = live (lib.release end) }; saved = false }
  unfolding finish on_conn ◌>>=◌
  finish-releases (ok u) end t c' h e saved = ground (arith, h, e, saved)
  finish-releases (err x) end t c' h e saved = ground (arith, h, e, saved)
