-- ===== src/Blob/Fs/Documented.antt =====
-- What the store relies on of the file system and the lock, where the lock is reliable.
use s3db.Base.{Text, ◌≡◌, ◌≢◌, Bool, true, false, Option, none, some}
use s3db.Result.{ok}
use s3db.Result.Reply.{failed, got}
use s3db.Blob.Root.{not_exist, File, Root}

-- `files` are the regular files, `mine s` says that this process holds the lock, `staged s tmp b`
-- that `tmp` is its own temporary file with the bytes `b`. The others write only under the lock.
pub record IsFs {S : Type 0} (root : Root S) (files : S → Text → Option Text)
    (reaches : S → S → Type 0) (mine : S → Type 0) (staged : S → Text → Text → Type 0)
    : Type 0 where
  pub stay : (s : S) → reaches s s
  pub go_on : (s t u : S) → reaches s t → reaches t u → reaches s u
  pub mkdir_all : (name : Text) (s : S) → reaches s (root.mkdir_all name s).1
  pub create : (name : Text) (s : S) → reaches s (root.create name s).1
  pub write : (name b : Text) (s : S) → reaches s (root.write name b s).1
  pub sync : (name : Text) (s : S) → reaches s (root.sync name s).1
  pub close : (name : Text) (s : S) → reaches s (root.close name s).1
  pub remove : (name : Text) (s : S) → reaches s (root.remove name s).1
  pub random : (s : S) → reaches s (root.random s).1
  pub try_lock : (s : S) → reaches s (root.try_lock s).1
  -- an open file that is no directory has the bytes that the name had when it was opened
  pub read :
      (name : Text) (s s' : S) (f : File) (b : Text)
      → root.open_file name s ≡ (got f, s')
      → f.body ≡ ok b
      → files s' name ≡ some b
  -- nobody else touches a temporary file
  pub written : (tmp b : Text) (s s' : S) → root.write tmp b s ≡ (got tt, s') → staged s' tmp b
  pub sync_staged : (tmp b : Text) (s : S) → staged s tmp b → staged (root.sync tmp s).1 tmp b
  pub close_staged : (tmp b : Text) (s : S) → staged s tmp b → staged (root.close tmp s).1 tmp b
  pub lock_staged : (tmp b : Text) (s : S) → staged s tmp b → staged (root.try_lock s).1 tmp b
  -- a lock that is waited for is taken, or there is an error
  pub locked : (s s' : S) (b : Bool) → root.try_lock s ≡ (got b, s') → (b ≡ true) × mine s'
  -- under the lock, looking changes nothing
  pub lstat_same :
      (name : Text) (s : S)
      → mine s
      → mine (root.lstat name s).1 × (files (root.lstat name s).1 ≡ files s)
  pub lstat_staged :
      (name tmp b : Text) (s : S) → staged s tmp b → staged (root.lstat name s).1 tmp b
  pub lstat_file :
      (name : Text) (s : S)
      → mine s
      → (root.lstat name s).0 ≡ got false
      → (b : Text) × (files s name ≡ some b)
  pub lstat_none :
      (name : Text) (s : S)
      → mine s
      → (root.lstat name s).0 ≡ failed not_exist
      → files s name ≡ none
  pub open_same :
      (name : Text) (s : S)
      → mine s
      → mine (root.open_file name s).1 × (files (root.open_file name s).1 ≡ files s)
  pub open_staged :
      (name tmp b : Text) (s : S) → staged s tmp b → staged (root.open_file name s).1 tmp b
  -- a rename gives the name the bytes of the temporary file, and changes no third name
  pub renamed :
      (tmp name b : Text) (s s' : S)
      → mine s
      → staged s tmp b
      → root.rename tmp name s ≡ (got tt, s')
      → (files s' name ≡ some b) × ((j : Text) → j ≢ name → j ≢ tmp → files s' j ≡ files s j)
  pub unlocked : (s : S) → files (root.unlock s) ≡ files s
