-- ===== src/Db/Viewed.antt =====
-- `View` only reads from the store.
use s3db.Base.{ℤ, Text}
use s3db.Result.Exec.{Exec}
use s3db.Result.Keeps.{Keeps, Keeps-bind, Keeps-lift, Keeps-current, Keeps-attempt, keeps_rules}
use s3db.Env.{Env}
use s3db.Sqlite.{Sqlite}
use s3db.Client.{ConnRef, nil, closed, live, Client, CommitConfig}
use s3db.Sync.Reads.{OfOut, on_conn-Keeps, refresh_manifest-Keeps}
use s3db.Db.{reset_interrupt, with_interrupt, view}

module _ {S : Type 0} (env : Env S) (Q : S → Type 0) (get : (k : Text) → Keeps Q (env.store.get k))
    (get_range : (k : Text) (start end : ℤ) → Keeps Q (env.store.get_range k start end))
    (lib : Sqlite) (cfg : CommitConfig) where
  open lib use {Conn}

  abbrev Here : Client S Conn → Type 0
  Here = OfOut env Q get get_range lib

  reset_interrupt-Keeps : (ref : ConnRef Conn) → Keeps Here (reset_interrupt env lib cfg ref)
  reset_interrupt-Keeps nil = record { at = λ c h. h }
  reset_interrupt-Keeps closed = record { at = λ c h. h }
  reset_interrupt-Keeps (live conn) = record { at = λ c h. h }

  with_interrupt-Keeps :
      (m : Exec (Client S Conn) (Unit {0}))
      → Keeps Here m
      → Keeps Here (with_interrupt env lib cfg m)
  unfolding with_interrupt
  with_interrupt-Keeps m k =
      Keeps-bind _
        (λ u.
          Keeps-bind _
            (λ r.
              Keeps-bind _
                (λ c. Keeps-bind _ (λ v. Keeps-lift r) _ (reset_interrupt-Keeps c.st.conn)) _
                Keeps-current)
            _ (Keeps-attempt m k))
        _ (on_conn-Keeps env Q get get_range lib _)

  -- Whatever gets and ranged gets keep of the outside, `View` keeps, on success and on error: it
  -- calls nothing else of the store, whatever the caller's function does to its connection.
  pub view-Keeps : (fn : Exec Conn (Unit {0})) → Keeps Here (view env lib cfg fn)
  unfolding view
  view-Keeps fn =
      search
        (
          keeps_rules,
          refresh_manifest-Keeps env Q get get_range lib,
          with_interrupt-Keeps,
          on_conn-Keeps env Q get get_range lib,
        )
        depth 9
