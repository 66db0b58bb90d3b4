-- ===== src/Blob/FileReads.antt =====
-- blob_fs.go: what the file-system store reads. Names are those of Unix, where `nativeName`
-- changes nothing.
use s3db.Base.{
  zero, suc, ◌+◌, ◌-◌, ℤ, pos, negsuc, lt_int, Text, text_eq, has_prefix, Bool, not, ◌&&◌, none,
  some, List, [], ◌∷◌, take, drop, if◌then◌else◌,
}
use s3db.Base.Sort.{sort_strings}
use s3db.Errors.{not_found}
use s3db.Result.{Result, ok, err}
use s3db.Result.Exec.{Exec, pure, raise, lift, ◌>>=◌, ◌>>◌}
use s3db.Result.Reply.{call}
use s3db.Blob.{BlobInfo}
use s3db.Blob.FileKeys.{Unicode, is_reserved_key, validate_key}
use s3db.Blob.Root.{
  not_exist, exist, other, File, Visit, walk_failed, directory, file, Root, plain, map_fs_err,
}

-- `size - 1`
abbrev pub before : ℤ → ℤ
before (pos zero) = negsuc 0
before (pos (suc n)) = pos n
before (negsuc n) = negsuc (suc n)

-- `io.LimitReader(f, end-start+1)` after the seek
abbrev pub section : ℤ → ℤ → Text → Text
section (negsuc start) end body = []
section (pos start) (negsuc end) body = []
section (pos start) (pos end) body = take (end + 1 - start) (drop start body)

abbrev with_key : Bool → Text → Result (List Text) → Result (List Text)
with_key here p (err e) = err e
with_key here p (ok keys) = ok (if here then p ∷ keys else keys)

-- The function that `List` walks with.
unfoldable pub collect : Unicode → Text → List Visit → Result (List Text)
collect u prefix [] = ok []
collect u prefix (walk_failed not_exist ∷ visits) = collect u prefix visits
collect u prefix (walk_failed exist ∷ visits) = err (plain exist)
collect u prefix (walk_failed (other e) ∷ visits) = err e
collect u prefix (directory p ∷ visits) = collect u prefix visits
collect u prefix (file p ∷ visits) =
    with_key (not (is_reserved_key u p) && has_prefix prefix p) p (collect u prefix visits)

module _ {S : Type 0} (root : Root S) (u : Unicode) (hash : Text → Text) where
  unfoldable pub check_ctx : Exec S (Unit {0})
  check_ctx s = (elim (root.ctx_err s) [ none ↦ ok tt | some e ↦ err e ], s)

  unfoldable pub not_a_dir : Bool → Exec S (Unit {0})
  not_a_dir d = if d then raise not_found else pure tt

  unfoldable pub open_blob : Text → Exec S File
  unfolding not_a_dir
  open_blob key = do
    f ← call map_fs_err (root.open_file key)
    d ← call plain (λ s. (f.is_dir, s))
    not_a_dir d
    pure f

  unfoldable pub get : Text → Exec S (Text × Text)
  unfolding check_ctx open_blob
  get key = do
    check_ctx
    lift (validate_key u key)
    f ← open_blob key
    body ← lift f.body
    lift (f.seek (pos 0))
    pure (body, hash body)

  -- What `GetRange` reads of an open file.
  unfoldable pub read_section : ℤ → ℤ → File → Exec S Text
  read_section start end f = if not (lt_int start f.size) then pure [] else do
    lift (f.seek start)
    body ← lift f.body
    pure (section start (if lt_int end f.size then end else before f.size) body)

  unfoldable pub get_range : Text → ℤ → ℤ → Exec S Text
  unfolding check_ctx open_blob read_section
  get_range key start end = do
    check_ctx
    lift (validate_key u key)
    f ← open_blob key
    read_section start end f

  unfoldable pub stat : Text → Exec S BlobInfo
  unfolding check_ctx open_blob
  stat key = do
    check_ctx
    lift (validate_key u key)
    f ← open_blob key
    body ← lift f.body
    pure (record { etag = hash body; size = f.size; last_modified = f.mod_time })

  unfoldable pub list : Text → Exec S (List Text)
  unfolding check_ctx collect
  list prefix = do
    check_ctx
    visits ← (λ s. (ok (root.walk s).0, (root.walk s).1))
    keys ← lift (collect u prefix visits)
    pure (sort_strings keys)
