-- ===== src/Gc/Collects.antt =====
-- What `GC` leaves in a store at rest.
use s3db.Base.{
  Text, has_prefix, text_eq, ◌≡◌, refl, ◌∙◌, false, not, ◌&&◌, none, List, ◌==◌, if◌then◌else◌,
}
use s3db.Base.Assoc
use s3db.Base.Assoc.{Assoc}
use s3db.Result.{ok}
use s3db.Result.Exec.{current, ◌>>=◌}
use s3db.Blob.{Contents}
use s3db.Env.{Env}
use s3db.Sqlite.{Sqlite}
use s3db.Client.{Client, CommitConfig, outside}
use s3db.Sync.{refresh_manifest}
use s3db.Gc.{changesets_prefix, snapshots_prefix, group_by_epoch, gc}
use s3db.Gc.Sweeping.{IsSweepable, Garbage, sweep-runs}

module _ {S : Type 0} (env : Env S) (order : Assoc (List Text) → Assoc (List Text)) (lib : Sqlite)
    (orders : (keys : List Text) (cs_prefix e : Text)
      → Assoc.lookup e (order (group_by_epoch keys cs_prefix))
        ≡ Assoc.lookup e (group_by_epoch keys cs_prefix))
    (cfg : CommitConfig) (at : S → Contents) (rest : S → Type 0)
    (sweepable : IsSweepable env.store at rest) where
  -- In a store where nobody else writes and no call fails, and where Go visits each group once,
  -- `GC` without a grace period succeeds once its refresh does. A key outside `changesets/` is
  -- then gone if it is under `snapshots/` and not the current snapshot, and as it was otherwise;
  -- a key under `changesets/` of an epoch that is not the current one and of which the log has
  -- no key is gone.
  pub gc-collects :
      (c d : Client S lib.Conn) (j e k : Text)
      → refresh_manifest env lib cfg c ≡ (ok tt, d)
      → rest d.out
      → has_prefix (changesets_prefix cfg.prefix) j ≡ false
      → Garbage (changesets_prefix cfg.prefix) d.st.manifest e k
      → (end : S) × (gc env 0 order lib cfg c ≡ (ok tt, record d { out = end }))
        × (at end j ≡ (
            if has_prefix (snapshots_prefix cfg.prefix) j && not (j == d.st.manifest.snapshot.key)
            then none
            else at d.out j))
        × (at end k ≡ none)
  unfolding gc current outside ◌>>=◌
  gc-collects c d j e k refreshed r outer garbage =
      let (after, runs, spared, clean) =
        sweep-runs env order orders at rest sweepable cfg.prefix d.st.manifest d.out r in
      (
        runs.end,
        rw refreshed (rw (runs.run) refl),
        runs.holds j ∙ spared j outer,
        runs.holds k ∙ clean e k garbage,
      )
