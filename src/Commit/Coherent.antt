-- ===== src/Commit/Coherent.antt =====
-- The manifest that a client has seen is the one its tag stands for: the work on the local
-- database and the upload of a changeset leave both alone.
use s3db.Base.{
  zero, suc, ℕ, Text, ◌≡◌, subst, sym, ap, ◌⊎◌, inl, inr, Bool, true, false, Option, none, some, [],
  ◌∷◌,
}
use s3db.Result.{Result, ok}
use s3db.Result.Exec.{Exec, modify, current, pure, ◌>>=◌, bind-eq-ok, by_bind, by_if, pure-eq-ok}
use s3db.Result.Keeps.{Keeps, Keeps-modify, keeps_rules}
use s3db.Env.{Env}
use s3db.Sqlite.{Sqlite}
use s3db.Manifest.{Manifest}
use s3db.Manifest.Io.{load_manifest}
use s3db.Client.{Client, CommitConfig, manifest_key, outside}
use s3db.Sync.Frame.{OfManifest, outside-Keeps, on_conn-Keeps, sync_to_manifest-Keeps}
use s3db.Commit.{
  rebase_onto, start_over, snapshot_moved, Attempt, delete_orphan, upload_changeset, capture_phase,
  pause_before, rollback_and_resync, after_rebase, rebase_phase,
}

module _ {S : Type 0} (env : Env S) (lib : Sqlite) (cfg : CommitConfig)
    (P : Manifest → Text → Type 0) where
  open lib use {Conn}

  abbrev Q : Client S Conn → Type 0
  Q = OfManifest P

  ruleset frame_rules = (keeps_rules, Keeps-modify, outside-Keeps, on_conn-Keeps)

  delete_orphan-Keeps : (key : Text) → Keeps Q (delete_orphan env lib cfg key)
  unfolding delete_orphan
  delete_orphan-Keeps [] = search frame_rules
  delete_orphan-Keeps (b ∷ key) = search frame_rules

  upload_changeset-Keeps :
      (l : Attempt) (cs : Option Text) → Keeps Q (upload_changeset env lib cfg l cs)
  unfolding upload_changeset
  upload_changeset-Keeps l none = search frame_rules
  upload_changeset-Keeps l (some cs) = search (frame_rules, delete_orphan-Keeps) depth 9

  pub capture_phase-Keeps :
      (fn : Exec Conn (Unit {0})) (l : Attempt) → Keeps Q (capture_phase env lib cfg fn l)
  unfolding capture_phase
  capture_phase-Keeps fn l = search (frame_rules, upload_changeset-Keeps) depth 9

  pub pause_before-Keeps : (tried : ℕ) → Keeps Q (pause_before env lib cfg tried)
  unfolding pause_before
  pause_before-Keeps zero = search frame_rules
  pause_before-Keeps (suc n) = search frame_rules

  -- A rollback that succeeds leaves the client with the manifest and tag that it was given.
  pub rollback_and_resync-sets :
      (m : Manifest) (etag : Text) (c c' : Client S Conn) {u : Unit {0}}
      → P m etag
      → rollback_and_resync env lib cfg m etag c ≡ (ok u, c')
      → Q c'
  unfolding rollback_and_resync modify
  rollback_and_resync-sets m etag c c' pm h =
      let (a, t, released, rest) = bind-eq-ok _ _ c h in
      let (b, t1, set, rest1) = bind-eq-ok _ _ t rest in
      let there : Q t1 = subst Q (ap (λ q. q.1) set) pm in
      subst Q (ap (λ q. q.1) rest1) ((sync_to_manifest-Keeps env lib P).at t1 there)

  again_of :
      (l l' : Attempt) (m : Manifest) (etag : Text) (c c' : Client S Conn)
      → P m etag
      → (rollback_and_resync env lib cfg m etag >>= λ _. pure (start_over env lib cfg l)) c
        ≡ (ok l', c')
      → Q c' × ((l ≡ l') ⊎ (l'.need_capture ≡ true))
  again_of l l' m etag c c' pm h =
      let (a, t, rolled, done) = bind-eq-ok _ _ c h in
      let (same, end) = pure-eq-ok _ t done in
      (
        subst Q end (rollback_and_resync-sets m etag c t pm rolled),
        inr (ap (λ r. r.need_capture) (sym same)),
      )

  after_rebase-sets :
      (l l' : Attempt) (m : Manifest) (etag : Text) (rebased : Bool) (c c' : Client S Conn)
      → P m etag
      → after_rebase env lib cfg l m etag rebased c ≡ (ok l', c')
      → Q c' × ((l ≡ l') ⊎ (l'.need_capture ≡ true))
  unfolding after_rebase modify pure ◌>>=◌
  after_rebase-sets l l' m etag true c c' pm h =
      (subst Q (ap (λ q. q.1) h) pm, inl (cc (ap (λ (q : Result Attempt × Client S Conn). q.0) h)))
  after_rebase-sets l l' m etag false c c' pm h = again_of l l' m etag c c' pm h

  rebase_onto-sets :
      (l l' : Attempt) (m : Manifest) (etag : Text) (c c' : Client S Conn)
      → P m etag
      → rebase_onto env lib cfg l (m, etag) c ≡ (ok l', c')
      → Q c' × ((l ≡ l') ⊎ (l'.need_capture ≡ true))
  unfolding rebase_onto current
  rebase_onto-sets l l' m etag c c' pm h = by_bind _ _ c h λ d t seen rest.
      by_if (snapshot_moved env lib cfg m d.st) _ _ t rest
        (λ moved run. again_of l l' m etag t c' pm run)
        (λ stays run.
          by_bind _ _ t run
            λ rebased t1 ran end. after_rebase-sets l l' m etag rebased t1 c' pm end)

  -- Phase 3, if it succeeds, leaves the client with a manifest and tag that were loaded together,
  -- and the next attempt is the same one or captures anew.
  pub rebase_phase-sets :
      ((s : S) (m : Manifest) (etag : Text) (s' : S)
        → load_manifest env (manifest_key cfg.prefix) s ≡ (ok (m, etag), s')
        → P m etag)
      → (l l' : Attempt) (c c' : Client S Conn) → rebase_phase env lib cfg l c ≡ (ok l', c')
      → Q c' × ((l ≡ l') ⊎ (l'.need_capture ≡ true))
  unfolding rebase_phase outside
  rebase_phase-sets loaded l l' c c' h = by_bind _ _ c h λ (m, etag) t got rest.
      rebase_onto-sets l l' m etag t c'
        (loaded c.out m etag t.out (λ i. ((got i).0, (got i).1.out))) rest
