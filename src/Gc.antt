-- ===== src/Gc.antt =====
-- gc.go: deleting the blobs that the current manifest does not need.
pub mod Groups
pub mod Epochs
pub mod Spares
pub mod Sweeping
pub mod Collects
pub mod Shared
pub mod Keys
use s3db.Base.{
  ℕ, zero, suc, ◌-◌, Text, text_eq, nat_eq, codes, slash, Bool, true, false, not, ◌||◌, ◌==◌, ltb,
  Option, none, some, List, [], ◌∷◌, ◌++◌, map, take, index_of, trim_prefix, if◌then◌else◌,
}
use s3db.Base.Assoc
use s3db.Base.Assoc.{Assoc, contains}
use s3db.Result.{Result, ok, err}
use s3db.Result.Exec.{Exec, pure, current, attempt, ◌>>=◌, ◌>>◌}
use s3db.Blob.{BlobInfo}
use s3db.Env.{Env}
use s3db.Sqlite.{Sqlite}
use s3db.Manifest.{Manifest, LogEntry, epoch}
use s3db.Client.{Client, CommitConfig, outside}
use s3db.Sync.{refresh_manifest}

-- `liveChangesets`
abbrev pub live_changesets : List LogEntry → List Text
live_changesets = map (λ e. e.key)

-- `rest[:i]` with `i > 0`
abbrev pub epoch_at : Text → Option ℕ → Option Text
epoch_at rest none = none
epoch_at rest (some zero) = none
epoch_at rest (some (suc i)) = some (take (suc i) rest)

-- The epoch of a changeset's key, `none` where the key is skipped.
unfoldable pub epoch_of : Text → Text → Option Text
unfolding trim_prefix index_of
epoch_of cs_prefix key = let rest = trim_prefix cs_prefix key in epoch_at rest (index_of slash rest)

abbrev pub or_empty : Option (List Text) → List Text
or_empty none = []
or_empty (some ks) = ks

-- `out[epoch] = append(out[epoch], k)`
abbrev pub add_key : Option Text → Text → Assoc (List Text) → Assoc (List Text)
add_key none k out = out
add_key (some e) k out = Assoc.insert e (or_empty (Assoc.lookup e out) ++ k ∷ []) out

-- The loop of `groupByEpoch`.
unfoldable pub group_from : Text → List Text → Assoc (List Text) → Assoc (List Text)
unfolding epoch_of
group_from cs_prefix [] out = out
group_from cs_prefix (k ∷ ks) out = group_from cs_prefix ks (add_key (epoch_of cs_prefix k) k out)

-- `groupByEpoch`
abbrev pub group_by_epoch : List Text → Text → Assoc (List Text)
group_by_epoch keys cs_prefix = group_from cs_prefix keys []

-- `hasLive`
unfoldable pub has_live : List Text → List Text → Bool
unfolding contains
has_live live [] = false
has_live live (k ∷ ks) = contains live k || has_live live ks

abbrev old_enough : ℕ → ℕ → Result BlobInfo → Bool
old_enough grace now (ok info) = not (ltb (now - info.last_modified) grace)
old_enough grace now (err e) = false

abbrev pub changesets_prefix : Text → Text
changesets_prefix prefix = prefix ++ codes "changesets/"

abbrev pub snapshots_prefix : Text → Text
snapshots_prefix prefix = prefix ++ codes "snapshots/"

-- `csPrefix + epoch + "/"`
abbrev pub epoch_prefix : Text → Text → Text
epoch_prefix cs_prefix e = cs_prefix ++ (e ++ slash ∷ [])

-- `grace` is `gcGracePeriod` in nanoseconds, where 0 is none. Go visits the groups in any order,
-- which `order` gives.
module _ {S : Type 0} (env : Env S) (grace : ℕ)
    (order : Assoc (List Text) → Assoc (List Text)) where
  -- Whether the grace period of a blob is over; a blob without a stat is left alone.
  unfoldable pub is_old : ℕ → Text → Exec S Bool
  is_old now key =
      if grace == 0
      then pure true
      else (attempt (env.store.stat key) >>= λ r. pure (old_enough grace now r))

  -- The loop over the epochs.
  unfoldable pub sweep_epochs : Text → Manifest → List (Text × List Text) → Exec S (Unit {0})
  unfolding has_live
  sweep_epochs cs_prefix m [] = pure tt
  sweep_epochs cs_prefix m ((e, ks) ∷ epochs) =
      let rest = sweep_epochs cs_prefix m epochs in
      if e == epoch m
      then rest
      else if has_live (live_changesets m.log) ks
      then rest
      else (env.store.delete_prefix (epoch_prefix cs_prefix e) >> rest)

  unfoldable pub sweep_changesets : Text → Manifest → Exec S (Unit {0})
  unfolding sweep_epochs group_from
  sweep_changesets cs_prefix m = do
    keys ← env.store.list cs_prefix
    sweep_epochs cs_prefix m (order (group_by_epoch keys cs_prefix))

  -- The loop over the snapshots.
  unfoldable pub sweep_old : ℕ → Manifest → List Text → Exec S (Unit {0})
  unfolding is_old
  sweep_old now m [] = pure tt
  sweep_old now m (k ∷ ks) =
      let rest = sweep_old now m ks in
      if k == m.snapshot.key
      then rest
      else (is_old now k >>= λ old. if old then (env.store.delete k >> rest) else rest)

  unfoldable pub sweep_snapshots : ℕ → Text → Manifest → Exec S (Unit {0})
  unfolding sweep_old
  sweep_snapshots now snap_prefix m = do keys ← env.store.list snap_prefix; sweep_old now m keys

  -- `GC` after the refresh.
  unfoldable pub sweep : Text → Manifest → Exec S (Unit {0})
  unfolding sweep_changesets sweep_snapshots
  sweep prefix m = do
    s ← current
    unprotected ← is_old (env.now s) m.snapshot.key
    if unprotected then sweep_changesets (changesets_prefix prefix) m else pure tt
    sweep_snapshots (env.now s) (snapshots_prefix prefix) m

  -- `GC`
  unfoldable pub gc : (lib : Sqlite) → CommitConfig → Exec (Client S lib.Conn) (Unit {0})
  unfolding sweep
  gc lib cfg = do
    refresh_manifest env lib cfg
    c ← current
    outside (sweep cfg.prefix c.st.manifest)
