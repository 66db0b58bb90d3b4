-- ===== src/Commit/Committed.antt =====
-- A successful `doUpdate` has committed the caller's changes on top of the manifest that it
-- replaced.
use s3db.Base.{ℤ, pos, add64, Text, ◌≡◌, ◌⊎◌, true, false, length}
use s3db.Result.{Result}
use s3db.Result.Exec.{Exec, attempt, attempt}
use s3db.Result.Keeps.{Keeps}
use s3db.Blob.{IsLawful, IsTag, Contents}
use s3db.Env.{Env}
use s3db.Sqlite.{Sqlite}
use s3db.Manifest.{Manifest, LogEntry, append_log}
use s3db.Manifest.Io.{stamp}
use s3db.Manifest.Io.Atomic.{Stands, Swapped}
use s3db.Client.{Client, CommitConfig, manifest_key}
use s3db.Commit.{Attempt, Phase}
use s3db.Env.Kept.{IsSteady}
use s3db.Commit.Moves.{Moves}
use s3db.Commit.Uploaded.{Uploaded, Unchanged, Shown}
use s3db.Commit.Coherent

module _ {S : Type 0} (env : Env S) (lib : Sqlite) (cfg : CommitConfig) (hash : Text → Text)
    (at : S → Contents) (reaches : S → S → Type 0) (law : IsLawful env.store hash at reaches)
    (fn : Exec lib.Conn (Unit {0})) where
  open lib use {Conn}

  -- At some moment after `begin` the changeset `cs` of the caller's function was stored under the
  -- key of `entry`. At a later moment the store's manifest was `before`; the next state `out`
  -- holds the manifest `m` in its place, which has one more entry, `entry`, with the next number.
  pub record Committed (begin out : S) (m : Manifest) (etag : Text) (local_seq : ℤ) : Type 0 where
    pub before : Manifest
    pub entry : LogEntry
    pub moment : S
    pub since : reaches begin moment
    pub swapped : Swapped env hash at (manifest_key cfg.prefix) before m etag moment out
    pub appended : m ≡ stamp (append_log entry before)
    pub numbered : entry.seq ≡ add64 before.seq (pos 1)
    pub synced : local_seq ≡ m.seq
    pub cs : Text
    pub sized : entry.size ≡ pos (length cs)
    pub uploaded : Uploaded env lib cfg hash at reaches law fn begin moment cs entry.key

  abbrev pub IsCommitted : S → Client S Conn → Type 0
  IsCommitted begin c = Committed begin c.out c.st.manifest c.st.etag c.st.local_seq

  abbrev pub IsCoherent : Client S Conn → Type 0
  IsCoherent c = Stands env hash at c.st.manifest c.st.etag

  module _ (tags : IsTag hash) (steady : IsSteady env reaches) (begin : S) where
    abbrev Up : S → Text → Text → Type 0
    Up = Uploaded env lib cfg hash at reaches law fn begin

    abbrev Known : Client S Conn → Phase → Type 0
    Known = Shown env lib cfg hash at reaches law fn begin

    -- How a loop that succeeds ends.
    abbrev Ends : Client S Conn → Type 0
    Ends c =
        Unchanged env lib cfg hash at reaches law fn (λ conn. conn) true begin c
        ⊎ IsCommitted begin c

    -- What the loop knows of its variables: no capture is needed only for a changeset that was
    -- uploaded.
    abbrev Knows : S → Attempt → Type 0
    Knows now l = l.need_capture ≡ false → Up now l.cs l.cs_key

    -- What holds at the start of each attempt.
    record Holds (l : Attempt) (c : Client S Conn) : Type 0 where
      knows : Knows c.out l
      coherent : IsCoherent c
      since : reaches begin c.out
