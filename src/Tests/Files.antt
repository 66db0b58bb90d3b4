-- ===== src/Tests/Files.antt =====
-- A concrete directory, whose files are a function of their names; no other process uses it.
use s3db.Base.{
  ℕ, ◌+◌, pos, Text, text_eq, codes, ◌≡◌, refl, Bool, true, false, ◌==◌, Option, none, some, [],
  ◌∷◌, length, if◌then◌else◌, lt_int,
}
use s3db.Errors.{precondition_failed, bad_key, external}
use s3db.Result.{Result, ok, err, fail_if}
use s3db.Result.Reply.{Reply, failed, got}
use s3db.Blob.{if_none_match}
use s3db.Blob.FileKeys.{Unicode, validate_key}
use s3db.Blob.FileKeys.Valid.{IsFileKey, validate_key-IsFileKey}
use s3db.Blob.Root.{FsError, not_exist, exist, File, Root}
use s3db.Blob.FileReads
use s3db.Blob.Fs
use s3db.Blob.Fs.{prune_empty_dirs}
use s3db.Blob.Fs.Prune.{prune_empty_dirs-ends}
use s3db.Tests.Codec.{hash}
use s3db.Tests.Machinery.{filing}

abbrev pub ascii : Unicode
ascii = record { valid = λ s. true; lower = λ s. s }

-- The files, and how many random names were made.
pub record Disk : Type 0 where
  pub files : Text → Option Text
  pub count : ℕ

abbrev pub as_file : Text → File
as_file b = record {
  is_dir = got false;
  size = pos (length b);
  mod_time = 0;
  body = ok b;
  seek = λ n. fail_if (lt_int n (pos 0)) (external 22);
}

abbrev pub opened : Option Text → Reply FsError File
opened none = failed not_exist
opened (some b) = got (as_file b)

abbrev pub stated : Option Text → Reply FsError Bool
stated none = failed not_exist
stated (some b) = got false

abbrev pub set : Text → Option Text → Disk → Disk
set name b d = record d { files = λ j. if name == j then b else d.files j }

abbrev pub created : Text → Option Text → Disk → Reply FsError (Unit {0}) × Disk
created name none d = (got tt, set name (some []) d)
created name (some b) d = (failed exist, d)

abbrev pub renamed : Text → Text → Option Text → Disk → Reply FsError (Unit {0}) × Disk
renamed tmp name none d = (failed not_exist, d)
renamed tmp name (some b) d = (got tt, set name (some b) (set tmp none d))

abbrev pub gone : Text → Option Text → Disk → Reply FsError (Unit {0}) × Disk
gone name none d = (failed not_exist, d)
gone name (some b) d = (got tt, set name none d)

abbrev pub disk_root : Root Disk
disk_root = record {
  ctx_err = λ d. none;
  open_file = λ name d. (opened (d.files name), d);
  lstat = λ name d. (stated (d.files name), d);
  mkdir_all = λ name d. (got tt, d);
  create = λ name d. created name (d.files name) d;
  write = λ name body d. (got tt, set name (some body) d);
  sync = λ name d. (got tt, d);
  close = λ name d. (got tt, d);
  rename = λ tmp name d. renamed tmp name (d.files tmp) d;
  remove = λ name d. gone name (d.files name) d;
  walk = λ d. ([], d);
  try_lock = λ d. (got true, d);
  unlock = λ d. d;
  random = λ d. (got (d.count ∷ []), record d { count = d.count + 1 });
}

abbrev bare_disk : Disk
bare_disk = record { files = λ j. none; count = 0 }

abbrev key : Text
key = codes "db/a"

abbrev written : Result Text × Disk
written = Fs.put disk_root ascii hash key (7 ∷ 8 ∷ []) if_none_match bare_disk

written-ok : written ≡ (ok (hash (7 ∷ 8 ∷ [])), written.1)
unfolding filing
written-ok = refl

read_back :
    (FileReads.get disk_root ascii hash key written.1).0 ≡ ok (7 ∷ 8 ∷ [], hash (7 ∷ 8 ∷ []))
unfolding filing
read_back = refl

-- A second first write is refused.
again_refused :
    (Fs.put disk_root ascii hash key [] if_none_match written.1).0 ≡ err precondition_failed
unfolding filing
again_refused = refl

-- Names that leave the directory, or that the store keeps for itself.
escaping : validate_key ascii (codes "a/../b") ≡ err (bad_key (codes "a/../b"))
unfolding filing
escaping = refl

reserved : validate_key ascii (codes "a/.s3db-tmp-1") ≡ err (bad_key (codes "a/.s3db-tmp-1"))
unfolding filing
reserved = refl

key-ok : validate_key ascii key ≡ ok tt
unfolding filing
key-ok = refl

validate_key-IsFileKey_example : IsFileKey ascii key
validate_key-IsFileKey_example = validate_key-IsFileKey ascii key key-ok

prune_empty_dirs-ends_example :
    prune_empty_dirs disk_root ascii hash (length key + 2) key bare_disk
    ≡ prune_empty_dirs disk_root ascii hash (length key) key bare_disk
prune_empty_dirs-ends_example = prune_empty_dirs-ends disk_root ascii hash 2 key bare_disk
