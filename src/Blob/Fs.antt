-- ===== src/Blob/Fs.antt =====
-- blob_fs.go: the store in a directory; what it writes, under the lock.
pub mod Prune
pub mod Documented
pub mod Locked
pub mod Staged
pub mod Lawful
pub mod Opened
use s3db.Base.{
  ℕ, zero, suc, ◌+◌, ◌-◌, ℤ, pos, negsuc, lt_int, Text, text_eq, codes, is_empty, has_prefix, Bool,
  true, false, not, ◌&&◌, ◌||◌, ◌==◌, leb, Option, none, some, List, [], ◌∷◌, ◌++◌, length, take,
  drop, if◌then◌else◌,
}
use s3db.Base.Sort.{sort_strings}
use s3db.Errors.{
  Error, not_found, precondition_failed, both_conditions, external, is_directory, no_temp_file,
}
use s3db.Result.{Result, ok, err, fail_if}
use s3db.Result.Exec.{Exec, pure, raise, lift, attempt, ◌>>=◌, ◌>>◌}
use s3db.Result.Reply.{Reply, failed, got, call, asked}
use s3db.Etag.{normalize}
use s3db.Blob.{BlobInfo, BlobStore, PutCondition}
use s3db.Blob.FileKeys.{Unicode, fs_tmp_prefix, is_reserved_key, validate_key, dir_of, join}
use s3db.Blob.Root.{
  FsError, not_exist, exist, other, File, Visit, walk_failed, directory, file, Root, plain,
  map_fs_err,
}
use s3db.Blob.FileReads.{check_ctx, get, get_range, stat, list}

-- What `Put` finds at its path.
pub data Target : Type 0 where
  absent is_dir is_file : Target

abbrev pub target_exists : Target → Bool
target_exists absent = false
target_exists is_dir = false
target_exists is_file = true

module _ {S : Type 0} (root : Root S) (u : Unicode) (hash : Text → Text) where
  -- `withLock`: a lock that is not taken, without an error, skips `fn`
  unfoldable pub with_lock : Exec S (Unit {0}) → Exec S (Unit {0})
  unfolding check_ctx
  with_lock fn = do
    check_ctx root u hash
    locked ← call plain root.try_lock
    if locked then (attempt fn >>= λ r. (λ s. (r, root.unlock s))) else check_ctx root u hash

  -- What follows a try of `createTemp`: its end, or another try.
  unfoldable pub after_create : Exec S Text → Text → Text → Reply FsError (Unit {0}) → Exec S Text
  after_create again dir name (got _) = pure name
  after_create again dir name (failed exist) = again
  after_create again dir name (failed not_exist) =
      if dir == codes "."
      then raise (plain not_exist)
      else (call plain (root.mkdir_all dir) >> again)
  after_create again dir name (failed (other e)) = raise e

  -- `createTemp`, for at most so many tries
  unfoldable pub create_temp : ℕ → Text → Exec S Text
  unfolding after_create
  create_temp zero dir = raise no_temp_file
  create_temp (suc n) dir =
      let again = create_temp n dir in
      do
        hex ← call plain root.random
        r ← asked (root.create (join dir (fs_tmp_prefix ++ hex)))
        after_create again dir (join dir (fs_tmp_prefix ++ hex)) r

  -- Removing the temporary file, whatever comes of it, and then the error.
  unfoldable pub give_up : {A : Type 0} → Text → Error → Exec S A
  give_up tmp e = attempt (call plain (root.remove tmp)) >> raise e

  -- `cleanup`
  unfoldable pub cleanup : {A : Type 0} → Text → Error → Exec S A
  unfolding give_up
  cleanup tmp e = attempt (call plain (root.close tmp)) >> give_up tmp e

  unfoldable pub or_cleanup : Text → Result (Unit {0}) → Exec S (Unit {0})
  unfolding cleanup
  or_cleanup tmp (ok _) = pure tt
  or_cleanup tmp (err e) = cleanup tmp e

  unfoldable pub or_give_up : Text → Result (Unit {0}) → Exec S (Unit {0})
  unfolding give_up
  or_give_up tmp (ok _) = pure tt
  or_give_up tmp (err e) = give_up tmp e

  -- The body in the temporary file.
  unfoldable pub stage : Text → Text → Exec S (Unit {0})
  unfolding or_cleanup or_give_up
  stage tmp body = do
    w ← attempt (call plain (root.write tmp body))
    or_cleanup tmp w
    y ← attempt (call plain (root.sync tmp))
    or_cleanup tmp y
    c ← attempt (call plain (root.close tmp))
    or_give_up tmp c

  unfoldable pub target_of : Reply FsError Bool → Exec S Target
  target_of (got true) = pure is_dir
  target_of (got false) = pure is_file
  target_of (failed not_exist) = pure absent
  target_of (failed exist) = raise (plain exist)
  target_of (failed (other e)) = raise e

  -- The error of `computeETag` as `Put` sees it.
  abbrev pub no_etag : FsError → Error
  no_etag not_exist = precondition_failed
  no_etag exist = plain exist
  no_etag (other e) = e

  unfoldable pub compute_etag : Text → Exec S Text
  compute_etag name = do
    f ← call no_etag (root.open_file name)
    body ← lift f.body
    pure (hash body)

  unfoldable pub check_match : Text → PutCondition → Target → Exec S (Unit {0})
  unfolding compute_etag
  check_match name cond target =
      if is_empty cond.if_match
      then pure tt
      else if not (target_exists target)
      then raise precondition_failed
      else do
        cur ← compute_etag name
        lift (fail_if (not (cur == normalize cond.if_match)) precondition_failed)

  -- The rename, unless a directory is in the way.
  unfoldable pub store_at : Text → Text → Target → Exec S (Unit {0})
  store_at tmp name is_dir = raise (is_directory name)
  store_at tmp name is_file = call plain (root.rename tmp name)
  store_at tmp name absent = call plain (root.rename tmp name)

  -- What `Put` does under the lock.
  unfoldable pub replace : Text → Text → PutCondition → Exec S (Unit {0})
  unfolding target_of check_match store_at
  replace tmp name cond = do
    target ← (λ s. target_of (root.lstat name s).0 (root.lstat name s).1)
    lift (fail_if (cond.if_none_match && target_exists target) precondition_failed)
    check_match name cond target
    store_at tmp name target

  unfoldable pub make_dir : Text → Exec S (Unit {0})
  make_dir dir = if dir == codes "." then pure tt else call plain (root.mkdir_all dir)

  unfoldable pub put : Text → Text → PutCondition → Exec S Text
  unfolding check_ctx make_dir create_temp stage with_lock replace
  put key body cond = do
    check_ctx root u hash
    lift (fail_if (not (is_empty cond.if_match) && cond.if_none_match) both_conditions)
    lift (validate_key u key)
    make_dir (dir_of key)
    tmp ← create_temp 10 (dir_of key)
    stage tmp body
    r ← attempt (with_lock (replace tmp key cond))
    or_give_up tmp r
    pure (hash body)

  abbrev pub after_remove :
      Reply FsError (Unit {0}) → Result (Unit {0}) × S → S → Result (Unit {0}) × S
  after_remove (got _) rest t = rest
  after_remove (failed _) rest t = (ok tt, t)

  -- The loop of `pruneEmptyDirs`, for at most so many rounds.
  unfoldable pub prune_empty_dirs : ℕ → Text → Exec S (Unit {0})
  prune_empty_dirs zero dir = pure tt
  prune_empty_dirs (suc n) dir =
      let rest = prune_empty_dirs n (dir_of dir) in
      if dir == codes "." || is_empty dir then pure tt else λ s.
      let t = (root.remove dir s).1 in after_remove (root.remove dir s).0 (rest t) t

  -- The removal of the file at the key, if there is one.
  unfoldable pub removed : Text → Reply FsError (Unit {0}) → Exec S (Unit {0})
  unfolding prune_empty_dirs
  removed key (failed exist) = raise (plain exist)
  removed key (failed (other e)) = raise e
  removed key (failed not_exist) = prune_empty_dirs (length key) (dir_of key)
  removed key (got _) = prune_empty_dirs (length key) (dir_of key)

  -- What `Delete` does under the lock.
  unfoldable pub delete_at : Text → Exec S (Unit {0})
  unfolding removed
  delete_at key s =
      let (r, t) = root.lstat key s in
      elim r [
        | got true ↦ (ok tt, t)
        | got false ↦ removed key (root.remove key t).0 (root.remove key t).1
        | failed not_exist ↦ (ok tt, t)
        | failed exist ↦ (err (plain exist), t)
        | failed (other e) ↦ (err e, t)
      ]

  unfoldable pub delete : Text → Exec S (Unit {0})
  unfolding check_ctx with_lock delete_at
  delete key = do check_ctx root u hash; lift (validate_key u key); with_lock (delete_at key)

  unfoldable pub delete_all : List Text → Exec S (Unit {0})
  unfolding delete
  delete_all [] = pure tt
  delete_all (key ∷ keys) = delete key >> delete_all keys

  unfoldable pub delete_prefix : Text → Exec S (Unit {0})
  unfolding list delete_all
  delete_prefix prefix = list root u hash prefix >>= delete_all

  -- `FileSystemBlobStore`
  unfoldable pub fs_store : BlobStore S
  unfolding get get_range stat put list delete delete_prefix
  fs_store = record {
    get = get root u hash;
    get_range = get_range root u hash;
    stat = stat root u hash;
    put = put;
    list = list root u hash;
    delete = delete;
    delete_prefix = delete_prefix;
  }
