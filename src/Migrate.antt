-- ===== src/Migrate.antt =====
-- migrate.go: migrations, each of which makes a new snapshot of a higher schema version.
pub mod Moves
pub mod Migrated
pub mod Next
use s3db.Base.{
  ℕ, zero, suc, ◌+◌, ◌/◌, ◌%◌, ℤ, pos, negsuc, lt_int, int_eq, Text, codes, Bool, true, false, not,
  ◌==◌, ltb, Option, none, some, List, [], ◌∷◌, ◌++◌, if◌then◌else◌,
}
use s3db.Base.Decimal.{show_int}
use s3db.Errors.{Error, is_precondition_failed, bad_versions, schema_too_new, no_migration}
use s3db.Result.{Result, ok, err}
use s3db.Result.Exec.{Exec, pure, raise, lift, current, modify, attempt, ◌>>=◌, ◌>>◌}
use s3db.Blob.{if_match}
use s3db.Env.{Env}
use s3db.Sqlite.{Sqlite}
use s3db.Manifest.{Manifest, BlobRef}
use s3db.Manifest.Io.{load_manifest, put_manifest}
use s3db.Client.{CommitConfig, manifest_key, CommitState, Client, outside, on_conn}
use s3db.Sync.{sync_to_manifest}
use s3db.Compact.{close_conn, upload_local}

-- `Migration`
pub record Migration (C : Type 0) : Type 0 where
  pub version : ℤ
  pub name : Text
  pub up : Exec C (Unit {0})

-- "%ssnapshots/snap-mig-%d-%s.sqlite"
unfoldable pub migration_key : Text → ℤ → Text → Text
unfolding show_int
migration_key prefix version uuid =
    prefix
    ++ (codes "snapshots/snap-mig-"
        ++ (show_int version ++ (codes "-" ++ (uuid ++ codes ".sqlite"))))

module _ {C : Type 0} where
  -- The versions must strictly increase from `last`.
  unfoldable pub check_versions : ℤ → List (Migration C) → Result (Unit {0})
  check_versions last [] = ok tt
  check_versions last (m ∷ migs) =
      let rest = check_versions m.version migs in
      if not (lt_int last m.version) then err bad_versions else rest

  -- `maxVer`, with 0 before the first
  unfoldable pub max_version : ℤ → List (Migration C) → ℤ
  max_version last [] = last
  max_version last (m ∷ migs) = max_version m.version migs

  -- `next`
  unfoldable pub next_migration : ℤ → List (Migration C) → Option (Migration C)
  next_migration found [] = none
  next_migration found (m ∷ migs) =
      let rest = next_migration found migs in if lt_int found m.version then some m else rest

module _ {S : Type 0} (env : Env S) (lib : Sqlite) (cfg : CommitConfig) where
  open lib use {Conn}

  abbrev with_manifest : Manifest → Text → Exec (Client S Conn) (Unit {0})
  with_manifest m etag = modify (λ c. record c { st = record c.st { manifest = m; etag = etag } })

  -- The manifest of `applyMigration`; its format is stamped when it is written.
  abbrev pub migrated : Manifest → ℤ → Text → ℤ → Manifest
  migrated m version key size = record {
    format_version = pos 0;
    seq = m.seq;
    schema_version = version;
    snapshot = record { key = key; seq = m.seq; size = size };
    log = [];
  }

  -- The swap of `applyMigration`, and what it records.
  unfoldable pub swap_migrated : Manifest → Text → ℤ → Text → ℤ → Exec (Client S Conn) (Unit {0})
  swap_migrated m etag version key size = do
    (new, tag) ←
        outside
          (put_manifest env (manifest_key cfg.prefix) (migrated m version key size) (if_match etag))
    modify (λ c. record c {
      st = record c.st { manifest = new; etag = tag; local_seq = m.seq; snapshot_key = key };
    })

  -- The upload of the migrated and vacuumed file, whose key and size come back.
  unfoldable pub upload_migrated : ℤ → Exec (Client S Conn) (Text × ℤ)
  unfolding migration_key
  upload_migrated version = do
    c ← current
    close_conn env lib c.st.conn
    uuid ← outside env.uuid
    size ← upload_local env lib (migration_key cfg.prefix version uuid)
    pure (migration_key cfg.prefix version uuid, size)

  -- What `applyMigration` does before the swap.
  unfoldable pub prepare_migration :
      Manifest → Text → Migration Conn → Bool → Exec (Client S Conn) (Text × ℤ)
  unfolding upload_migrated
  prepare_migration m etag mig force_refresh = do
    with_manifest m etag
    if force_refresh
        then modify (λ c. record c { st = record c.st { snapshot_key = [] } })
        else pure tt
    sync_to_manifest env lib
    on_conn mig.up
    on_conn lib.vacuum
    upload_migrated mig.version

  -- `applyMigration`
  unfoldable pub apply_migration :
      Manifest → Text → Migration Conn → Bool → Exec (Client S Conn) (Unit {0})
  unfolding prepare_migration swap_migrated
  apply_migration m etag mig force_refresh =
      prepare_migration m etag mig force_refresh >>= λ (key, size).
      swap_migrated m etag mig.version key size

  -- `if errors.Is(err, ErrPreconditionFailed) { continue }`
  unfoldable pub or_retry : Result (Unit {0}) → Exec (Client S Conn) (Unit {0})
  or_retry (ok _) = pure tt
  or_retry (err e) = if is_precondition_failed e then pure tt else raise e

  module _ (migs : List (Migration Conn)) where
    -- A round of the loop that has found a migration to apply; `again` is the rest of the loop.
    unfoldable pub run_next :
        (ℤ → Exec (Client S Conn) (Option (Unit {0})))
        → ℤ
        → Manifest
        → Text
        → Option (Migration Conn)
        → Exec (Client S Conn) (Option (Unit {0}))
    unfolding apply_migration or_retry
    run_next again last_attempted m etag none = raise no_migration
    run_next again last_attempted m etag (some mig) = do
      r ← attempt (apply_migration m etag mig (mig.version == last_attempted))
      or_retry r
      again mig.version

    -- A round of the loop, by the manifest that was loaded.
    unfoldable pub migrate_from :
        (ℤ → Exec (Client S Conn) (Option (Unit {0})))
        → ℤ
        → Manifest × Text
        → Exec (Client S Conn) (Option (Unit {0}))
    unfolding run_next max_version next_migration
    migrate_from again last_attempted (m, etag) =
        if lt_int (max_version (pos 0) migs) m.schema_version
        then raise schema_too_new
        else if m.schema_version == max_version (pos 0) migs
        then (with_manifest m etag >> (sync_to_manifest env lib >> pure (some tt)))
        else run_next again last_attempted m etag (next_migration m.schema_version migs)

    -- The loop, for at most so many rounds; `none` says that it has not ended by then.
    unfoldable pub migrate_loop : ℕ → ℤ → Exec (Client S Conn) (Option (Unit {0}))
    unfolding migrate_from
    migrate_loop zero last_attempted = pure none
    migrate_loop (suc n) last_attempted =
        let again = migrate_loop n in
        outside (load_manifest env (manifest_key cfg.prefix)) >>= migrate_from again last_attempted

    -- `runMigrations`
    unfoldable pub run_migrations : ℕ → Exec (Client S Conn) (Option (Unit {0}))
    unfolding migrate_loop check_versions
    run_migrations rounds = lift (check_versions (pos 0) migs) >> migrate_loop rounds (negsuc 0)
