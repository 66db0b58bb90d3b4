-- ===== src/Tests/Stores.antt =====
-- The in-memory store at concrete contents.
use s3db.Base.{
  Text, codes, is_empty, not, ◌&&◌, has_prefix, text_eq, ◌==◌, ◌≡◌, refl, none, List, [], ◌∷◌,
  if◌then◌else◌,
}
use s3db.Base.Assoc.{contains}
use s3db.Base.Sort.{IsAscending}
use s3db.Errors.{precondition_failed, both_conditions}
use s3db.Result.{ok, err}
use s3db.Blob.{PutCondition, no_condition, if_match, IsLawful, meets, written}
use s3db.Blob.Mem.{MemBlobStore, new_mem_blob_store, put, get, list, delete, delete_prefix}
use s3db.Blob.Mem.Swap.{contents, put_lem, get-put, put_err}
use s3db.Blob.Mem.Listing.{IsWellFormed, list_lem, contents-delete, writes-IsWellFormed, is_some}
use s3db.Blob.Shared.{Later, shared_store, holds, shared_store-IsLawful}
use s3db.Tests.Codec.{hash}
use s3db.Tests.Worlds.{empty-IsWellFormed}
use s3db.Tests.Machinery.{machinery}

abbrev one : MemBlobStore
one = (put hash 0 none (codes "a/x") (ok (1 ∷ [])) no_condition new_mem_blob_store).1

one-IsWellFormed : IsWellFormed hash one
one-IsWellFormed =
    (writes-IsWellFormed empty-IsWellFormed (codes "a/x") none 0 (ok (1 ∷ [])) no_condition).0

abbrev two : MemBlobStore
two = (put hash 1 none (codes "b") (ok (2 ∷ [])) no_condition one).1

two-IsWellFormed : IsWellFormed hash two
two-IsWellFormed =
    (writes-IsWellFormed one-IsWellFormed (codes "b") none 1 (ok (2 ∷ [])) no_condition).0

-- the tag that `b` has in `two`
abbrev swap : PutCondition
swap = if_match (hash (2 ∷ []))

abbrev swapped : MemBlobStore
swapped = (put hash 2 none (codes "b") (ok (3 ∷ [])) swap two).1

swapped-ok : put hash 2 none (codes "b") (ok (3 ∷ [])) swap two ≡ (ok (hash (3 ∷ [])), swapped)
unfolding machinery
swapped-ok = refl

stale_put :
    put hash 2 none (codes "b") (ok (3 ∷ [])) (if_match (hash (9 ∷ []))) two
    ≡ (err precondition_failed, two)
unfolding machinery
stale_put = refl

two_listed : list none (codes "a") two ≡ ok (codes "a/x" ∷ [])
unfolding machinery
two_listed = refl

put_lem_example :
    ((put hash 2 none (codes "b") (ok (3 ∷ [])) swap two).0 ≡ (
      if not (is_empty swap.if_match) && swap.if_none_match
      then err both_conditions
      else if meets swap (contents two (codes "b"))
      then ok (hash (3 ∷ []))
      else err precondition_failed))
    × (contents swapped (codes "b") ≡ (
        if not (not (is_empty swap.if_match) && swap.if_none_match)
          && meets swap (contents two (codes "b"))
        then written (contents two) (codes "b") (3 ∷ [], hash (3 ∷ [])) (codes "b")
        else contents two (codes "b")))
put_lem_example = put_lem hash 2 (codes "b") (3 ∷ []) swap two (codes "b")

get-put_example : get none (codes "b") swapped ≡ ok (3 ∷ [], hash (3 ∷ []))
get-put_example = get-put hash 2 (codes "b") (3 ∷ []) swap two (hash (3 ∷ [])) swapped swapped-ok

put_err_example : two ≡ two
put_err_example =
    put_err hash 2 (codes "b") (if_match (hash (9 ∷ []))) two none (ok (3 ∷ [])) precondition_failed
      two stale_put

list_lem_example :
    (ks : List Text) × (list none (codes "a/") two ≡ ok ks)
    × IsAscending ks
    × (contains ks (codes "a/x")
        ≡ (has_prefix (codes "a/") (codes "a/x") && is_some (contents two (codes "a/x"))))
list_lem_example = list_lem (codes "a/") (codes "a/x") two two-IsWellFormed.nodup

contents-delete_example :
    ((delete none (codes "b") two).0 ≡ ok tt)
    × (contents (delete none (codes "b") two).1 (codes "a/x")
        ≡ (if codes "b" == codes "a/x" then none else contents two (codes "a/x")))
    × ((delete_prefix none (codes "a/") two).0 ≡ ok tt)
    × (contents (delete_prefix none (codes "a/") two).1 (codes "a/x")
        ≡ (if has_prefix (codes "a/") (codes "a/x") then none else contents two (codes "a/x")))
contents-delete_example = contents-delete (codes "b") (codes "a/") (codes "a/x") two

writes-IsWellFormed_example :
    IsWellFormed hash swapped
    × IsWellFormed hash (delete none (codes "b") two).1
    × IsWellFormed hash (delete_prefix none (codes "b") two).1
writes-IsWellFormed_example =
    writes-IsWellFormed two-IsWellFormed (codes "b") none 2 (ok (3 ∷ [])) swap

shared_store-IsLawful_example : IsLawful (shared_store hash) hash (holds hash) (Later hash)
shared_store-IsLawful_example = shared_store-IsLawful hash
