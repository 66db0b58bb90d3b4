-- ===== src/Commit.antt =====
-- commit.go: the commit loop of `Update`.
pub mod Coherent
pub mod Moves
pub mod Recorded
pub mod Uploaded
pub mod Finish
pub mod Quiet
pub mod Follows
pub mod Stops
pub mod Committed
use s3db.Base.{
  ℕ, zero, suc, ◌+◌, ◌-◌, ◌*◌, ◌^◌, min, ℤ, pos, lt_int, add64, Text, codes, is_empty, text_eq,
  Bool, true, false, not, ◌||◌, List, [], ◌∷◌, ◌++◌, ◌==◌, length, Option, none, some,
  if◌then◌else◌,
}
use s3db.Errors.{Error, conflict, is_precondition_failed, is_changeset_conflict}
use s3db.Result.{Result, ok, err}
use s3db.Result.Exec.{Exec, pure, raise, lift, current, modify, attempt, ◌>>=◌, ◌>>◌}
use s3db.Blob.{PutCondition, no_condition, if_match}
use s3db.Env.{Env}
use s3db.Sqlite.{Sqlite}
use s3db.Session.{apply_changeset, capture}
use s3db.Manifest.{Manifest, LogEntry, epoch, append_log}
use s3db.Manifest.Io.{load_manifest, put_manifest}
use s3db.Client.{
  ConnRef, nil, closed, live, CommitConfig, manifest_key, CommitState, Client, outside, on_conn,
}
use s3db.Sync.{sync_to_manifest}

-- The variables of the loop in `doUpdate`; the empty text is no orphan.
pub record Attempt : Type 0 where
  pub need_capture : Bool
  pub cs : Text
  pub cs_key : Text
  pub orphan : Text

abbrev pub first_attempt : Attempt
first_attempt = record { need_capture = true; cs = []; cs_key = []; orphan = [] }

-- "%schangesets/%s/cs-%s.bin"
abbrev pub changeset_key : Text → Text → Text → Text
changeset_key prefix epoch uuid =
    prefix ++ (codes "changesets/" ++ (epoch ++ (codes "/cs-" ++ (uuid ++ codes ".bin"))))

-- `base` of the pause before attempt `n`, in milliseconds
unfoldable pub backoff_base : ℕ → ℕ
backoff_base n = 2 ^ min (n - 1) 6 * 10

-- How a phase of the loop ends.
pub data Phase : Type 0 where
  -- the loop returns nil
  finished : Phase
  -- the loop goes on with these variables
  going_on : Attempt → Phase

module _ {S : Type 0} (env : Env S) (lib : Sqlite) (cfg : CommitConfig) where
  open lib use {Conn}

  abbrev C : Type 0
  C = Client S Conn

  abbrev set_manifest : Manifest → Text → Exec C (Unit {0})
  set_manifest m etag = modify (λ c. record c { st = record c.st { manifest = m; etag = etag } })

  abbrev set_saved : Bool → Exec C (Unit {0})
  set_saved b = modify (λ c. record c { saved = b })

  -- `release = sqlitex.Save(st.conn)`
  abbrev save : Exec C (Unit {0})
  save = on_conn (modify lib.savepoint) >> set_saved true

  -- `release(&err)` and `release = nil`
  abbrev release_with : (Conn → Conn) → Exec C (Unit {0})
  release_with f = on_conn (modify f) >> set_saved false

  -- `_ = cfg.store.Delete(ctx, orphan)`, if there is one
  unfoldable pub delete_orphan : Text → Exec C (Unit {0})
  delete_orphan [] = pure tt
  delete_orphan (b ∷ key) = attempt (outside (env.store.delete (b ∷ key))) >> pure tt

  -- The upload of phase 1.
  unfoldable pub upload_changeset : Attempt → Option Text → Exec C Phase
  unfolding delete_orphan
  upload_changeset l none = pure finished
  upload_changeset l (some cs) = do
    delete_orphan l.orphan
    c ← current
    uuid ← outside env.uuid
    let key = changeset_key cfg.prefix (epoch c.st.manifest) uuid
    outside (env.store.put key cs no_condition)
    pure (going_on (record { need_capture = false; cs = cs; cs_key = key; orphan = [] }))

  -- Phase 1: run the caller's function, capture its changeset and upload it.
  unfoldable pub capture_phase : Exec Conn (Unit {0}) → Attempt → Exec C Phase
  unfolding upload_changeset
  capture_phase fn l =
      if l.need_capture
      then (do save; cs ← on_conn (capture lib fn); upload_changeset l cs)
      else pure (going_on l)

  abbrev new_entry : Attempt → Manifest → LogEntry
  new_entry l m = record { key = l.cs_key; seq = add64 m.seq (pos 1); size = pos (length l.cs) }

  -- What follows the swap: success is recorded and the savepoint released, whose error the
  -- `return nil` drops.
  unfoldable pub after_put : Result (Manifest × Text) → Exec C Bool
  after_put (ok (m, etag)) = do
    set_manifest m etag
    modify (λ c. record c { st = record c.st { local_seq = m.seq } })
    release_with lib.release
    pure true
  after_put (err e) = if is_precondition_failed e then pure false else raise e

  -- Phase 2: swap the manifest for one with a new entry; `false` is a lost race.
  unfoldable pub cas_phase : Attempt → Exec C Bool
  unfolding after_put
  cas_phase l = do
    c ← current
    let m = append_log (new_entry l c.st.manifest) c.st.manifest
    r ← attempt (outside (put_manifest env (manifest_key cfg.prefix) m (if_match c.st.etag)))
    after_put r

  -- `applyMissingEntry`
  unfoldable pub apply_missing_entry : LogEntry → Exec C (Unit {0})
  apply_missing_entry e = do
    got ← outside (env.store.get e.key)
    on_conn (apply_changeset lib got.0)

  unfoldable pub stop_on_conflict : Exec C Bool → Result (Unit {0}) → Exec C Bool
  stop_on_conflict rest (ok _) = rest
  stop_on_conflict rest (err e) = if is_changeset_conflict e then pure false else raise e

  -- The loop over the other writers' entries; `false` is a conflict.
  unfoldable pub rebase_entries : ℤ → List LogEntry → Exec C Bool
  unfolding apply_missing_entry stop_on_conflict
  rebase_entries from [] = pure true
  rebase_entries from (e ∷ log) =
      let rest = rebase_entries from log in
      if lt_int from e.seq
      then (attempt (apply_missing_entry e) >>= stop_on_conflict rest)
      else rest

  -- `rollbackAndResync`
  unfoldable pub rollback_and_resync : Manifest → Text → Exec C (Unit {0})
  unfolding sync_to_manifest
  rollback_and_resync m etag = do
    release_with lib.rollback
    set_manifest m etag
    sync_to_manifest env lib

  -- `orphan = csKey; needCapture = true`
  abbrev start_over : Attempt → Attempt
  start_over l = record l { orphan = l.cs_key; need_capture = true }

  abbrev snapshot_moved : Manifest → CommitState Conn → Bool
  snapshot_moved m st =
      lt_int st.local_seq m.snapshot.seq || not (m.snapshot.key == st.snapshot_key)

  unfoldable pub after_rebase : Attempt → Manifest → Text → Bool → Exec C Attempt
  unfolding rollback_and_resync
  after_rebase l m etag true = do
    set_manifest m etag
    modify (λ c. record c { st = record c.st { local_seq = m.seq } })
    pure l
  after_rebase l m etag false = do rollback_and_resync m etag; pure (start_over l)

  -- Phase 3 after the manifest was loaded again.
  unfoldable pub rebase_onto : Attempt → Manifest × Text → Exec C Attempt
  unfolding rebase_entries after_rebase
  rebase_onto l (m, etag) = do
    c ← current
    if snapshot_moved m c.st
        then (do rollback_and_resync m etag; pure (start_over l))
        else (do rebased ← rebase_entries c.st.local_seq m.log; after_rebase l m etag rebased)

  -- Phase 3: take in what the others committed, below the caller's changes if that is possible.
  unfoldable pub rebase_phase : Attempt → Exec C Attempt
  unfolding rebase_onto
  rebase_phase l = outside (load_manifest env (manifest_key cfg.prefix)) >>= rebase_onto l

  unfoldable pub pause_before : ℕ → Exec C (Unit {0})
  unfolding backoff_base
  pause_before zero = pure tt
  pause_before (suc n) = outside (env.pause (backoff_base (suc n)))

  -- One round of the loop; `again` is the rest of the loop.
  unfoldable pub after_cas : Attempt → (Attempt → Exec C (Unit {0})) → Bool → Exec C (Unit {0})
  after_cas l again true = pure tt
  after_cas l again false = rebase_phase l >>= again

  unfoldable pub after_capture : (Attempt → Exec C (Unit {0})) → Phase → Exec C (Unit {0})
  unfolding after_cas cas_phase rebase_phase
  after_capture again finished = pure tt
  after_capture again (going_on l) = cas_phase l >>= after_cas l again

  -- The loop, with `n` attempts left after `tried`.
  unfoldable pub update_loop : Exec Conn (Unit {0}) → ℕ → ℕ → Attempt → Exec C (Unit {0})
  unfolding pause_before capture_phase after_capture delete_orphan
  update_loop fn zero tried l = delete_orphan l.orphan >> raise conflict
  update_loop fn (suc n) tried l = do
    pause_before tried
    phase ← capture_phase fn l
    after_capture (update_loop fn n (tried + 1)) phase

  -- The deferred call `release(&err)`: an error stays, and without one the release may set it.
  abbrev release_for : Result (Unit {0}) → Exec C (Unit {0})
  release_for (ok _) = do
    r ← attempt (on_conn (λ conn. (lib.released conn, lib.release conn)))
    set_saved false
    lift r
  release_for (err e) = release_with lib.rollback >> raise e

  -- The deferred call of `release`, if a savepoint is open.
  unfoldable pub finish : Result (Unit {0}) → Exec C (Unit {0})
  finish r = current >>= λ c. if c.saved then release_for r else lift r

  -- `doUpdate`
  unfoldable pub do_update : Exec Conn (Unit {0}) → Exec C (Unit {0})
  unfolding update_loop finish
  do_update fn = attempt (update_loop fn cfg.max_retries 0 first_attempt) >>= finish
