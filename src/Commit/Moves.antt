-- ===== src/Commit/Moves.antt =====
-- What the calls of the commit loop to the outside keep, the loop keeps.
use s3db.Base.{ℕ, zero, suc, ℤ, Text, Bool, true, false, Option, none, some, List, [], ◌∷◌}
use s3db.Base.{◌≡◌, ap, subst}
use s3db.Result.{Result, ok, err}
use s3db.Result.Exec.{Exec}
use s3db.Result.Keeps.{
  Keeps, Keeps-modify, Keeps-bind, Keeps-if, Keeps-pure, Keeps-current, Keeps-attempt, keeps_rules,
}
use s3db.Env.{Env}
use s3db.Env.Kept.{KeptBy, IsSteady, put_manifest-Keeps}
use s3db.Sqlite.{Sqlite}
use s3db.Manifest.{Manifest, LogEntry}
use s3db.Manifest.Io.{put_manifest}
use s3db.Blob.{PutCondition}
use s3db.Client.{Client, CommitConfig, outside, on_conn}
use s3db.Sync.{sync_to_manifest}
use s3db.Sync.Reads.{
  OfOut, outside-Keeps, on_conn-Keeps, load_manifest-Keeps, sync_to_manifest-Keeps,
}
use s3db.Commit.{
  Attempt, delete_orphan, upload_changeset, capture_phase, pause_before, after_put, cas_phase,
  apply_missing_entry, stop_on_conflict, rebase_entries, rollback_and_resync, after_rebase,
  rebase_onto, rebase_phase,
}

module _ {S : Type 0} (env : Env S) (lib : Sqlite) (cfg : CommitConfig) (Q : S → Type 0)
    (kept : KeptBy env Q) where
  open lib use {Conn}

  abbrev Here : Client S Conn → Type 0
  Here = OfOut env Q kept.get kept.get_range lib

  outside_lem : {A : Type 0} (m : Exec S A) → Keeps Q m → Keeps Here (outside m)
  outside_lem = outside-Keeps env Q kept.get kept.get_range lib

  on_conn_lem : {A : Type 0} (m : Exec Conn A) → Keeps Here (on_conn m)
  on_conn_lem = on_conn-Keeps env Q kept.get kept.get_range lib

  sync_lem : Keeps Here (sync_to_manifest env lib)
  sync_lem = sync_to_manifest-Keeps env Q kept.get kept.get_range lib

  put_lem :
      (key : Text) (m : Manifest) (cond : PutCondition) → Keeps Q (put_manifest env key m cond)
  put_lem = put_manifest-Keeps env Q kept

  ruleset move_rules = (keeps_rules, Keeps-modify, outside_lem, on_conn_lem)

  delete_orphan-Keeps : (key : Text) → Keeps Here (delete_orphan env lib cfg key)
  unfolding delete_orphan
  delete_orphan-Keeps [] = search move_rules
  delete_orphan-Keeps (b ∷ key) = search (move_rules, kept.delete)

  upload_changeset-Keeps :
      (l : Attempt) (cs : Option Text) → Keeps Here (upload_changeset env lib cfg l cs)
  unfolding upload_changeset
  upload_changeset-Keeps l none = search move_rules
  upload_changeset-Keeps l (some cs) =
      Keeps-bind _
        (λ u.
          Keeps-bind _
            (λ c.
              Keeps-bind _
                (λ uuid. Keeps-bind _ (λ tag. Keeps-pure _) _ (outside_lem _ (kept.put _ _ _))) _
                (outside_lem _ kept.uuid))
            _ Keeps-current)
        _ (delete_orphan-Keeps l.orphan)

  pub capture_phase-Keeps :
      (fn : Exec Conn (Unit {0})) (l : Attempt) → Keeps Here (capture_phase env lib cfg fn l)
  unfolding capture_phase
  capture_phase-Keeps fn l = search (move_rules, upload_changeset-Keeps) depth 9

  pub pause_before-Keeps : (tried : ℕ) → Keeps Here (pause_before env lib cfg tried)
  unfolding pause_before
  pause_before-Keeps zero = search move_rules
  pause_before-Keeps (suc n) = search (move_rules, kept.pause)

  after_put-Keeps : (r : Result (Manifest × Text)) → Keeps Here (after_put env lib cfg r)
  unfolding after_put
  after_put-Keeps (ok (m, etag)) = search move_rules depth 9
  after_put-Keeps (err e) = search move_rules

  pub cas_phase-Keeps : (l : Attempt) → Keeps Here (cas_phase env lib cfg l)
  unfolding cas_phase
  cas_phase-Keeps l = search (move_rules, put_lem, after_put-Keeps) depth 9

  apply_missing_entry-Keeps : (e : LogEntry) → Keeps Here (apply_missing_entry env lib cfg e)
  unfolding apply_missing_entry
  apply_missing_entry-Keeps e = search (move_rules, kept.get)

  stop_on_conflict-Keeps :
      (rest : Exec (Client S Conn) Bool) (r : Result (Unit {0}))
      → Keeps Here rest
      → Keeps Here (stop_on_conflict env lib cfg rest r)
  unfolding stop_on_conflict
  stop_on_conflict-Keeps rest (ok u) k = k
  stop_on_conflict-Keeps rest (err e) k = search move_rules

  rebase_entries-Keeps :
      (from : ℤ) (log : List LogEntry) → Keeps Here (rebase_entries env lib cfg from log)
  unfolding rebase_entries
  rebase_entries-Keeps from [] = search move_rules
  rebase_entries-Keeps from (e ∷ log) =
      let rest = rebase_entries-Keeps from log in
      Keeps-if _ _ _
        (Keeps-bind _ (λ r. stop_on_conflict-Keeps _ r rest) _
          (Keeps-attempt _ (apply_missing_entry-Keeps e)))
        rest

  rollback_and_resync-Keeps :
      (m : Manifest) (etag : Text) → Keeps Here (rollback_and_resync env lib cfg m etag)
  unfolding rollback_and_resync
  rollback_and_resync-Keeps m etag = search (move_rules, sync_lem) depth 9

  after_rebase-Keeps :
      (l : Attempt) (m : Manifest) (etag : Text) (rebased : Bool)
      → Keeps Here (after_rebase env lib cfg l m etag rebased)
  unfolding after_rebase
  after_rebase-Keeps l m etag true = search move_rules depth 9
  after_rebase-Keeps l m etag false = search (move_rules, rollback_and_resync-Keeps) depth 9

  rebase_onto-Keeps :
      (l : Attempt) (got : Manifest × Text) → Keeps Here (rebase_onto env lib cfg l got)
  unfolding rebase_onto
  rebase_onto-Keeps l (m, etag) =
      search (move_rules, rollback_and_resync-Keeps, rebase_entries-Keeps, after_rebase-Keeps) depth
        9

  pub rebase_phase-Keeps : (l : Attempt) → Keeps Here (rebase_phase env lib cfg l)
  unfolding rebase_phase
  rebase_phase-Keeps l =
      Keeps-bind _ (rebase_onto-Keeps l) _
        (outside_lem _ (load_manifest-Keeps env Q kept.get kept.get_range _))

module _ {S : Type 0} (env : Env S) (lib : Sqlite) (reaches : S → S → Type 0) where
  open lib use {Conn}

  -- `m` keeps of the outside all that its calls keep.
  abbrev pub Moves : {A : Type 0} → Exec (Client S Conn) A → Type 1
  Moves m =
      (Q : S → Type 0) (kept : KeptBy env Q) → Keeps (OfOut env Q kept.get kept.get_range lib) m

  -- What runs moves the outside along.
  pub ran :
      (steady : IsSteady env reaches)
      → {A : Type 0} (m : Exec (Client S Conn) A) {r : Result A} (c t : Client S Conn) → Moves m
      → m c ≡ (r, t)
      → reaches c.out t.out
  ran steady m c t moves e =
      subst (λ (x : Client S Conn). reaches c.out x.out) (ap (λ q. q.1) e)
        ((moves (reaches c.out) (steady.from c.out)).at c (steady.stay c.out))
