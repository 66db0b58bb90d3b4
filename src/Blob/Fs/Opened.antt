-- ===== src/Blob/Fs/Opened.antt =====
-- blob_fs.go: a file-system store is opened and closed.
use s3db.Base.{Text}
use s3db.Result.Exec.{Exec, pure, ◌>>=◌, ◌>>◌}
use s3db.Blob.FileKeys.{fs_lock_name}
use s3db.Blob.Root.{FsError, plain}
use s3db.Result.Reply.{Reply, call}

-- What is called of `path/filepath` and `os` before there is a root; `R` is `*os.Root`.
pub record Directories (S R : Type 0) : Type 0 where
  -- `filepath.Abs`, and `filepath.Join` of two elements
  pub abs : Text → S → Reply FsError Text × S
  pub join : Text → Text → Text
  -- `os.MkdirAll` with the mode 0o700
  pub mkdir_all : Text → S → Reply FsError (Unit {0}) × S
  pub open_root : Text → S → Reply FsError R × S
  pub close_root : R → S → Reply FsError (Unit {0}) × S

-- `FileSystemBlobStore`
pub record FileSystemBlobStore (R : Type 0) : Type 0 where
  pub root : R
  pub root_path : Text
  pub lock_path : Text

module _ {S R : Type 0} (dirs : Directories S R) where
  -- `NewFileSystemBlobStore`
  unfoldable pub new_file_system_blob_store : Text → Exec S (FileSystemBlobStore R)
  new_file_system_blob_store dir = do
    abs ← call plain (dirs.abs dir)
    call plain (dirs.mkdir_all abs)
    root ← call plain (dirs.open_root abs)
    pure (record { root = root; root_path = abs; lock_path = dirs.join abs fs_lock_name })

  -- `Root`
  abbrev pub root_of : FileSystemBlobStore R → Text
  root_of s = s.root_path

  -- `Close`
  unfoldable pub close : FileSystemBlobStore R → Exec S (Unit {0})
  close s = call plain (dirs.close_root s.root)
