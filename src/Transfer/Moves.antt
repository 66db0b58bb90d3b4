-- ===== src/Transfer/Moves.antt =====
-- What the calls of a push and of an initialisation to the outside keep, these keep.
use s3db.Base.{Text, Option, none, some}
use s3db.Result.{Result}
use s3db.Result.Keeps.{Keeps, keeps_rules}
use s3db.Env.{Env}
use s3db.Env.Kept.{KeptBy}
use s3db.Sqlite.{Sqlite}
use s3db.Manifest.Io.{load_manifest}
use s3db.Sync.Reads
use s3db.Compact.{upload_file}
use s3db.Compact.Moves.{upload_file-Keeps}
use s3db.Transfer.{validate_sqlite_file, upload_first}

module _ {S : Type 0} (env : Env S) (lib : Sqlite) (Q : S → Type 0) (kept : KeptBy env Q) where
  pub load_lem : (key : Text) → Keeps Q (load_manifest env key)
  load_lem = Reads.load_manifest-Keeps env Q kept.get kept.get_range

  pub file_lem : (key bytes : Text) → Keeps Q (upload_file env key bytes)
  file_lem = upload_file-Keeps env lib Q kept

  pub uuid_lem : Keeps Q env.uuid
  uuid_lem = kept.uuid

  pub validate_sqlite_file-Keeps : (src : Result Text) → Keeps Q (validate_sqlite_file env lib src)
  unfolding validate_sqlite_file
  validate_sqlite_file-Keeps src = search keeps_rules depth 9

  pub upload_first-Keeps :
      (prefix : Text) (src : Option (Result Text)) (empty : Result Text)
      → Keeps Q (upload_first env lib prefix src empty)
  unfolding upload_first
  upload_first-Keeps prefix none empty = search (keeps_rules, file_lem) depth 9
  upload_first-Keeps prefix (some src) empty =
      search (keeps_rules, file_lem, validate_sqlite_file-Keeps, uuid_lem) depth 9
