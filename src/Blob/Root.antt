-- ===== src/Blob/Root.antt =====
-- What the file-system store calls of the operating system: `os.Root`, `flock.Flock`,
-- `crypto/rand`.
use s3db.Base.{ℕ, ℤ, Text, Bool, Option, List}
use s3db.Errors.{Error, external, not_found}
use s3db.Result.{Result}
use s3db.Result.Reply.{Reply}

-- An error of the file system by what `errors.Is` finds in it: `fs.ErrNotExist`, `fs.ErrExist`.
pub data FsError : Type 0 where
  not_exist exist : FsError
  other : Error → FsError

-- An open file: what `Stat`, reading it to its end and `Seek` give. It stays the same file when
-- another one takes its name.
pub record File : Type 0 where
  pub is_dir : Reply FsError Bool
  pub size : ℤ
  pub mod_time : ℕ
  pub body : Result Text
  pub seek : ℤ → Result (Unit {0})

-- A call of the function that `fs.WalkDir` is given.
pub data Visit : Type 0 where
  walk_failed : FsError → Visit
  directory file : Text → Visit

-- `os.Root` and `flock.Flock`, over the state `S` of the outside
pub record Root (S : Type 0) : Type 0 where
  -- `ctx.Err()`
  pub ctx_err : S → Option Error
  pub open_file : Text → S → Reply FsError File × S
  -- whether it is a directory
  pub lstat : Text → S → Reply FsError Bool × S
  pub mkdir_all : Text → S → Reply FsError (Unit {0}) × S
  -- `OpenFile` with `O_EXCL`
  pub create : Text → S → Reply FsError (Unit {0}) × S
  -- `io.Copy` into that file, its `Sync` and its `Close`
  pub write : Text → Text → S → Reply FsError (Unit {0}) × S
  pub sync : Text → S → Reply FsError (Unit {0}) × S
  pub close : Text → S → Reply FsError (Unit {0}) × S
  pub rename : Text → Text → S → Reply FsError (Unit {0}) × S
  pub remove : Text → S → Reply FsError (Unit {0}) × S
  pub walk : S → List Visit × S
  pub try_lock : S → Reply FsError Bool × S
  pub unlock : S → S
  -- eight random bytes in hexadecimal
  pub random : S → Reply FsError Text × S

-- the error that `FsError` stands for, with the system's number
abbrev pub plain : FsError → Error
plain not_exist = external 2
plain exist = external 17
plain (other e) = e

-- `mapFSErr`
abbrev pub map_fs_err : FsError → Error
map_fs_err not_exist = not_found
map_fs_err exist = external 17
map_fs_err (other e) = e
