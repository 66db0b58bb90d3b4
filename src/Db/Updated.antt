-- ===== src/Db/Updated.antt =====
-- `Update` from any state of the client, and `View`.
use s3db.Base.{ℤ, Text, ◌≡◌, ◌⊎◌, true, false}
use s3db.Base.{Option}
use s3db.Errors.{Error}
use s3db.Result.{Result, ok}
use s3db.Result.Exec.{Exec}
use s3db.Blob.{IsLawful, IsTag, Contents}
use s3db.Env.{Env}
use s3db.Sqlite.{Sqlite}
use s3db.Client
use s3db.Client.{Client, CommitConfig}
use s3db.Sync.{refresh_manifest}
use s3db.Commit.{do_update}
use s3db.Commit.Moves
use s3db.Env.Kept.{IsSteady}
use s3db.Commit.Uploaded.{Unchanged}
use s3db.Commit.Committed.{IsCommitted}
use s3db.Compact.{compact}
use s3db.Db.{report, is_due}

module _ {S : Type 0} (env : Env S) (lib : Sqlite) (cfg : CommitConfig) where
  open lib use {Conn}

  -- A compaction, and the call of the handler if it failed.
  abbrev pub compacted_by : Option (Error → S → S) → Client S Conn → Client S Conn
  compacted_by handler c = let (r, d) = compact env lib cfg c in (report env lib cfg handler r d).1

  module _ (hash : Text → Text) (at : S → Contents) (reaches : S → S → Type 0)
      (law : IsLawful env.store hash at reaches) (tags : IsTag hash) (steady : IsSteady env reaches)
      (fn : Exec Conn (Unit {0})) where
    -- The steps of an `Update` that returned nil.
    pub record Updated (after : ℤ) (handler : Option (Error → S → S)) (c c' : Client S Conn)
        : Type 0 where
      pub fresh : Client S Conn
      pub refreshed : refresh_manifest env lib cfg c ≡ (ok tt, fresh)
      pub since : reaches c.out fresh.out
      pub done : Client S Conn
      pub ran : do_update env lib cfg fn fresh ≡ (ok tt, done)
      pub outcome :
          Unchanged env lib cfg hash at reaches law fn lib.release false fresh.out done
          ⊎ IsCommitted env lib cfg hash at reaches law fn fresh.out done
      pub compacted :
          ((is_due env lib cfg after done.st.manifest ≡ false) × (c' ≡ done))
          ⊎ ((is_due env lib cfg after done.st.manifest ≡ true) × (c' ≡ compacted_by handler done))
