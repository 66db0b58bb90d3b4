-- ===== src/Blob.antt =====
-- blob.go: the storage abstraction.
pub mod Mem
pub mod Shared
pub mod S3
pub mod FileKeys
pub mod Root
pub mod FileReads
pub mod Fs
use s3db.Base.{
  ℕ, ℤ, Text, text_eq, is_empty, Bool, true, false, not, ◌&&◌, ◌||◌, Option, none, some, List, [],
  ◌==◌, if◌then◌else◌,
}
use s3db.Etag.{normalize}
use s3db.Result.Exec.{Exec}
use s3db.Result.{ok}
use s3db.Base.{◌≡◌, ◌≢◌}

-- `BlobInfo`; the time of the last change in nanoseconds
pub record BlobInfo : Type 0 where
  pub etag : Text
  pub size : ℤ
  pub last_modified : ℕ

pub record PutCondition : Type 0 where
  pub if_match : Text
  pub if_none_match : Bool

abbrev pub no_condition : PutCondition
no_condition = record { if_match = []; if_none_match = false }

-- `PutCondition{IfMatch: etag}`
abbrev pub if_match : Text → PutCondition
if_match etag = record { if_match = etag; if_none_match = false }

-- `PutCondition{IfNoneMatch: true}`
abbrev pub if_none_match : PutCondition
if_none_match = record { if_match = []; if_none_match = true }

-- `BlobStore`, over the state `S` of a store and of all that acts on it. A body is the bytes
-- that its reader yields.
pub record BlobStore (S : Type 0) : Type 0 where
  pub get : Text → Exec S (Text × Text)
  pub get_range : Text → ℤ → ℤ → Exec S Text
  pub stat : Text → Exec S BlobInfo
  pub put : Text → Text → PutCondition → Exec S Text
  pub list : Text → Exec S (List Text)
  pub delete : Text → Exec S (Unit {0})
  pub delete_prefix : Text → Exec S (Unit {0})

-- What a store holds: the body and the tag of each key.
abbrev pub Contents : Type 0
Contents = Text → Option (Text × Text)

-- A body with its tag.
abbrev pub held : Option Text → (Text → Text) → Option (Text × Text)
held none hash = none
held (some body) hash = some (body, hash body)

-- When a conditional put may write, by what its key holds.
abbrev pub meets : PutCondition → Option (Text × Text) → Bool
meets cond none = is_empty cond.if_match
meets cond (some (body, tag)) =
    not cond.if_none_match && (is_empty cond.if_match || tag == normalize cond.if_match)

-- One key written.
abbrev pub written : Contents → Text → Text × Text → Contents
written c key o j = if key == j then some o else c j

-- What clients assume of a store. `at` is what it holds, by the state of the outside, and `hash`
-- gives the tag of a body. Others may write between two calls: each call reads or writes at one
-- moment. `reaches s t` says that the state `t` may follow `s`, by what this client and others
-- do.
pub record IsLawful {S : Type 0} (store : BlobStore S) (hash : Text → Text) (at : S → Contents)
    (reaches : S → S → Type 0) : Type 0 where
  pub stay : (s : S) → reaches s s
  pub go_on : (s t u : S) → reaches s t → reaches t u → reaches s u
  -- a get returns what the store holds
  pub get_ok :
      (k : Text) (s : S) (body tag : Text) (s' : S)
      → store.get k s ≡ (ok (body, tag), s')
      → at s' k ≡ some (body, tag)
  -- the tag of an object is that of its body
  pub tag_hash : (s : S) (k body tag : Text) → at s k ≡ some (body, tag) → tag ≡ hash body
  -- a put that succeeds met its condition at a moment `p` after its call, and wrote its key alone
  pub put_ok :
      (k body : Text) (cond : PutCondition) (s : S) (tag : Text) (s' : S)
      → store.put k body cond s ≡ (ok tag, s')
      → (p : S) × reaches s p
        × (meets cond (at p k) ≡ true)
        × ((j : Text) → at s' j ≡ written (at p) k (body, tag) j)

-- What makes a tag usable for compare-and-swap: it is not empty, which would mean "no condition",
-- it holds no quotes, and different bodies have different tags.
pub record IsTag (hash : Text → Text) : Type 0 where
  pub ne_empty : (b : Text) → hash b ≢ []
  pub plain : (b : Text) → normalize (hash b) ≡ hash b
  pub distinct : (a b : Text) → hash a ≡ hash b → a ≡ b
