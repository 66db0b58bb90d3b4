-- ===== src/Blob/Mem/Swap.antt =====
-- What a put and the reads after it do.
use s3db.Base.{
  true, ℕ, Text, is_empty, text_eq, ◌≡◌, not, ◌&&◌, Option, none, some, arith, if◌then◌else◌,
}
use s3db.Base.Assoc
use s3db.Errors.{Error, precondition_failed, both_conditions}
use s3db.Result.{Result, ok, err}
use s3db.Blob.{PutCondition, Contents, meets, written}
use s3db.Blob.Mem.{MemBlobStore, get, put}

-- The stored body and tag of a key.
unfoldable pub contents : MemBlobStore → Contents
contents m k = elim (Assoc.lookup k m.objects) [ none ↦ none | some e ↦ some (e.body, e.etag) ]

module _ (compute : Text → Text) (now : ℕ) (key body : Text) (cond : PutCondition)
    (m : MemBlobStore) where
  abbrev pub after : MemBlobStore
  after = (put compute now none key (ok body) cond m).1

  -- `Put` on every branch, with a live context and a body that can be read. Both conditions at
  -- once are refused; a condition that the stored object does not meet is refused; each time
  -- nothing is written. Otherwise the key holds the body and its tag, which is returned, and no
  -- other key changes.
  pub put_lem :
      (j : Text)
      → ((put compute now none key (ok body) cond m).0 ≡ (
          if not (is_empty cond.if_match) && cond.if_none_match
          then err both_conditions
          else if meets cond (contents m key)
          then ok (compute body)
          else err precondition_failed))
        × (contents after j ≡ (
            if not (not (is_empty cond.if_match) && cond.if_none_match)
              && meets cond (contents m key)
            then written (contents m) key (body, compute body) j
            else contents m j))
  unfolding put contents
  put_lem j = ground (
    arith,
    Assoc.lookup-insert key j (record { body = body; etag = compute body; mod_time = now })
        m.objects,
  )

  -- What a put stores is what the next get returns, with the same tag.
  pub get-put :
      (tag : Text) (m' : MemBlobStore)
      → put compute now none key (ok body) cond m ≡ (ok tag, m')
      → get none key m' ≡ ok (body, tag)
  unfolding put get
  get-put tag m' h = ground (
    arith,
    Assoc.lookup-insert key key (record { body = body; etag = compute body; mod_time = now })
        m.objects,
  )

-- A put that fails leaves the store as it was, whatever the error.
pub put_err :
    (compute : Text → Text) (now : ℕ) (key : Text) (cond : PutCondition) (m : MemBlobStore)
    (ctx : Option Error) (r : Result Text) (x : Error) (m' : MemBlobStore)
    → put compute now ctx key r cond m ≡ (err x, m')
    → m' ≡ m
unfolding put
put_err compute now key cond m ctx r x m' h = ground arith

-- A put that succeeds, for any context: its condition was met, and its key alone was written.
pub put_ok :
    (compute : Text → Text) (now : ℕ) (key body : Text) (cond : PutCondition) (m : MemBlobStore)
    (ctx : Option Error) (tag : Text) (m' : MemBlobStore) (j : Text)
    → put compute now ctx key (ok body) cond m ≡ (ok tag, m')
    → (meets cond (contents m key) ≡ true)
      × (contents m' j ≡ written (contents m) key (body, tag) j)
unfolding put contents
put_ok compute now key body cond m ctx tag m' j h = ground (
  arith,
  Assoc.lookup-insert key j (record { body = body; etag = compute body; mod_time = now }) m.objects,
)

-- A get that succeeds returns what is stored.
pub get_ok :
    (key : Text) (m : MemBlobStore) (ctx : Option Error) (body tag : Text)
    → get ctx key m ≡ ok (body, tag)
    → contents m key ≡ some (body, tag)
unfolding get contents
get_ok key m ctx body tag h = ground arith
