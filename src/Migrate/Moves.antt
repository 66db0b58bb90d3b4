-- ===== src/Migrate/Moves.antt =====
-- What the calls of the upload of a migration to the outside keep, the upload keeps.
use s3db.Base.{ℤ, Text, Bool}
use s3db.Result.Exec.{Exec}
use s3db.Result.Keeps.{Keeps, Keeps-modify, keeps_rules}
use s3db.Env.{Env}
use s3db.Env.Kept.{KeptBy}
use s3db.Sqlite.{Sqlite}
use s3db.Manifest.{Manifest}
use s3db.Client.{ConnRef, Client, CommitConfig, outside, on_conn}
use s3db.Compact.{close_conn, upload_local}
use s3db.Sync.{sync_to_manifest}
use s3db.Sync.Reads.{OfOut, on_conn-Keeps, sync_to_manifest-Keeps}
use s3db.Compact.Moves.{close_conn-Keeps, upload_local-Keeps, uuid_lem}
use s3db.Migrate.{Migration, upload_migrated, prepare_migration}

module _ {S : Type 0} (env : Env S) (lib : Sqlite) (cfg : CommitConfig) (Q : S → Type 0)
    (kept : KeptBy env Q) where
  open lib use {Conn}

  abbrev Here : Client S Conn → Type 0
  Here = OfOut env Q kept.get kept.get_range lib

  close_lem : (ref : ConnRef Conn) → Keeps Here (close_conn env lib ref)
  close_lem = close_conn-Keeps env lib Q kept

  key_lem : Keeps Here (outside env.uuid)
  key_lem = uuid_lem env lib Q kept

  upload_lem : (key : Text) → Keeps Here (upload_local env lib key)
  upload_lem = upload_local-Keeps env lib Q kept

  pub upload_migrated-Keeps : (version : ℤ) → Keeps Here (upload_migrated env lib cfg version)
  unfolding upload_migrated
  upload_migrated-Keeps version = search (keeps_rules, close_lem, key_lem, upload_lem) depth 12

  conn_lem : (m : Exec Conn (Unit {0})) → Keeps Here (on_conn m)
  conn_lem m = on_conn-Keeps env Q kept.get kept.get_range lib m

  sync_lem : Keeps Here (sync_to_manifest env lib)
  sync_lem = sync_to_manifest-Keeps env Q kept.get kept.get_range lib

  pub prepare_migration-Keeps :
      (m : Manifest) (etag : Text) (mig : Migration Conn) (force_refresh : Bool)
      → Keeps Here (prepare_migration env lib cfg m etag mig force_refresh)
  unfolding prepare_migration
  prepare_migration-Keeps m etag mig force_refresh =
      search (keeps_rules, Keeps-modify, conn_lem, sync_lem, upload_migrated-Keeps) depth 12
