-- ===== src/Blob/Mem.antt =====
-- blob_mem.go: the in-memory store with compare-and-swap on entity tags.
pub mod Swap
pub mod Listing
use s3db.Base.{
  ℕ, ◌+◌, ◌-◌, ℤ, pos, negsuc, lt_int, Text, is_empty, has_prefix, text_eq, Bool, true, false, not,
  ◌&&◌, Option, none, some, List, [], ◌∷◌, ◌==◌, nat_eq, leb, length, take, drop, if◌then◌else◌,
}
use s3db.Base.Assoc
use s3db.Base.Assoc.{Assoc}
use s3db.Base.Sort.{sort_strings}
use s3db.Errors.{Error, not_found, precondition_failed, both_conditions, panic}
use s3db.Result.{Result, ok, err, ◌>>=◌, ◌>>◌, fail_if}
use s3db.Etag.{normalize}
use s3db.Blob.{BlobInfo, PutCondition}

-- `memEntry`
pub record MemEntry : Type 0 where
  pub body : Text
  pub etag : Text
  pub mod_time : ℕ

-- `MemBlobStore`: the map under the mutex, which every operation holds while it works.
pub record MemBlobStore : Type 0 where
  pub objects : Assoc MemEntry

-- `NewMemBlobStore`
abbrev pub new_mem_blob_store : MemBlobStore
new_mem_blob_store = record { objects = [] }

-- `if err := ctx.Err(); err != nil { return err }`
abbrev pub ctx_err : Option Error → Result (Unit {0})
ctx_err none = ok tt
ctx_err (some e) = err e

-- `e, ok := m.objects[key]; if !ok { return ErrNotFound }`
unfoldable pub find : Text → MemBlobStore → Result MemEntry
find key m = elim (Assoc.lookup key m.objects) [ none ↦ err not_found | some e ↦ ok e ]

unfoldable pub get : Option Error → Text → MemBlobStore → Result (Text × Text)
unfolding find
get ctx key m = do ctx_err ctx; e ← find key m; ok (e.body, e.etag)

-- `body[start : end+1]`, which panics unless `0 <= start <= end+1`; `end` is below the length.
abbrev slice : ℤ → ℤ → Text → Result Text
slice (negsuc _) _ body = err panic
slice (pos start) (negsuc _) body = if start == 0 then ok [] else err panic
slice (pos start) (pos end) body =
    if leb start (end + 1) then ok (take (end + 1 - start) (drop start body)) else err panic

unfoldable pub get_range : Option Error → Text → ℤ → ℤ → MemBlobStore → Result Text
unfolding find
get_range ctx key start end m = do
  ctx_err ctx
  e ← find key m
  let n = length e.body
  if not (lt_int start (pos n))
      then ok []
      else slice start (if not (lt_int end (pos n)) then pos (n - 1) else end) e.body

unfoldable pub stat : Option Error → Text → MemBlobStore → Result BlobInfo
unfolding find
stat ctx key m = do
  ctx_err ctx
  e ← find key m
  ok (record { etag = e.etag; size = pos (length e.body); last_modified = e.mod_time })

-- The tests of `Put` on the existing entry.
unfoldable pub check_condition : PutCondition → Option MemEntry → Result (Unit {0})
check_condition cond none = fail_if (not (is_empty cond.if_match)) precondition_failed
check_condition cond (some existing) = do
  fail_if cond.if_none_match precondition_failed
  fail_if (not (is_empty cond.if_match) && not (existing.etag == normalize cond.if_match))
      precondition_failed

-- Everything of `Put` before the write: the body that is stored, or the error.
unfoldable pub put_checks :
    Option Error → Text → Result Text → PutCondition → MemBlobStore → Result Text
unfolding check_condition
put_checks ctx key body cond m = do
  ctx_err ctx
  fail_if (not (is_empty cond.if_match) && cond.if_none_match) both_conditions
  stored ← body
  check_condition cond (Assoc.lookup key m.objects)
  ok stored

-- The hash of `etag.Compute` and the time are given.
module _ (compute : Text → Text) (now : ℕ) where
  abbrev store_entry : Text → Result Text → MemBlobStore → Result Text × MemBlobStore
  store_entry key (err e) m = (err e, m)
  store_entry key (ok stored) m = (
    ok (compute stored),
    record {
      objects =
          Assoc.insert key (record { body = stored; etag = compute stored; mod_time = now })
            m.objects;
    },
  )

  -- `body` is what reading the body to its end gives.
  unfoldable pub put :
      Option Error → Text → Result Text → PutCondition → MemBlobStore → Result Text × MemBlobStore
  unfolding put_checks
  put ctx key body cond m = store_entry key (put_checks ctx key body cond m) m

-- The loop of `List` over the map.
unfoldable pub with_prefix : Text → List Text → List Text
with_prefix prefix [] = []
with_prefix prefix (k ∷ ks) =
    let rest = with_prefix prefix ks in if has_prefix prefix k then k ∷ rest else rest

unfoldable pub list : Option Error → Text → MemBlobStore → Result (List Text)
unfolding with_prefix
list ctx prefix m = do ctx_err ctx; ok (sort_strings (with_prefix prefix (Assoc.keys m.objects)))

abbrev when_ok : Result (Unit {0}) → MemBlobStore → MemBlobStore → Result (Unit {0}) × MemBlobStore
when_ok (ok _) done m = (ok tt, done)
when_ok (err e) done m = (err e, m)

unfoldable pub delete : Option Error → Text → MemBlobStore → Result (Unit {0}) × MemBlobStore
delete ctx key m = when_ok (ctx_err ctx) (record { objects = Assoc.without key m.objects }) m

-- The loop of `DeletePrefix` over the map.
unfoldable pub without_prefix : Text → Assoc MemEntry → Assoc MemEntry
without_prefix prefix [] = []
without_prefix prefix ((k, e) ∷ objects) =
    let rest = without_prefix prefix objects in if has_prefix prefix k then rest else (k, e) ∷ rest

unfoldable pub delete_prefix : Option Error → Text → MemBlobStore → Result (Unit {0}) × MemBlobStore
unfolding without_prefix
delete_prefix ctx prefix m =
    when_ok (ctx_err ctx) (record { objects = without_prefix prefix m.objects }) m
