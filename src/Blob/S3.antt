-- ===== src/Blob/S3.antt =====
-- blob_s3.go: the store over the client of the AWS SDK, which is a parameter.
pub mod Batches
pub mod Pages
pub mod Lawful
use s3db.Base.{
  ℕ, zero, suc, ◌+◌, ◌-◌, ℤ, pos, Text, codes, is_empty, Bool, true, false, not, ◌&&◌, ◌||◌, ◌==◌,
  ltb, nat_eq, Option, none, some, List, [], ◌∷◌, ◌++◌, map, length, take, drop, if◌then◌else◌,
}
use s3db.Base.Decimal.{show_int}
use s3db.Errors.{Error, not_found, precondition_failed, both_conditions, delete_failed, external}
use s3db.Result.{Result, ok, err}
use s3db.Result.Exec.{Exec, pure, raise, lift, ◌>>=◌, ◌>>◌}
use s3db.Result.Reply.{Reply, call}
use s3db.Etag.{normalize, quoted}
use s3db.Blob.{BlobInfo, BlobStore, PutCondition}

-- An error of the SDK by what `errors.As` finds in it: a `NoSuchKey`, a `NotFound`, the status of
-- a `ResponseError`.
pub record S3Error : Type 0 where
  pub no_such_key : Bool
  pub no_object : Bool
  pub status : Option ℕ
  pub cause : Error

pub record GetObjectOutput : Type 0 where
  pub body : Text
  pub etag : Option Text

pub record HeadObjectOutput : Type 0 where
  pub etag : Option Text
  pub content_length : Option ℤ
  pub last_modified : Option ℕ

pub record PutObjectInput : Type 0 where
  pub bucket : Text
  pub key : Text
  pub body : Text
  pub if_match : Option Text
  pub if_none_match : Option Text

-- `s3.Client`, over the state `S` of the outside
pub record S3Client (S : Type 0) : Type 1 where
  pub get_object : Text → Text → Option Text → S → Reply S3Error GetObjectOutput × S
  pub head_object : Text → Text → S → Reply S3Error HeadObjectOutput × S
  pub put_object : PutObjectInput → S → Reply S3Error (Option Text) × S
  -- `ListObjectsV2Paginator`: a page has the keys of its objects
  pub Paginator : Type 0
  pub new_paginator : Text → Text → Paginator
  pub has_more_pages : Paginator → Bool
  pub next_page : Paginator → S → Reply S3Error (List (Option Text) × Paginator) × S
  pub delete_object : Text → Text → S → Reply S3Error (Unit {0}) × S
  -- the keys that could not be deleted come back
  pub delete_objects : Text → List Text → S → Reply S3Error (List (Option Text)) × S

-- `aws.ToString`
abbrev pub to_string : Option Text → Text
to_string none = []
to_string (some s) = s

-- `aws.ToInt64`
abbrev pub to_int : Option ℤ → ℤ
to_int none = pos 0
to_int (some n) = n

-- the time of a nil pointer is the zero time
abbrev pub to_time : Option ℕ → ℕ
to_time none = 0
to_time (some t) = t

abbrev has_status : ℕ → Option ℕ → Bool
has_status n none = false
has_status n (some m) = m == n

-- `isNotFound`
unfoldable pub is_not_found : S3Error → Bool
is_not_found e = e.no_such_key || (e.no_object || has_status 404 e.status)

-- `isPreconditionFailed`
unfoldable pub is_precondition_failed : S3Error → Bool
is_precondition_failed e = has_status 412 e.status || has_status 409 e.status

unfoldable pub or_not_found : S3Error → Error
unfolding is_not_found
or_not_found e = if is_not_found e then not_found else e.cause

unfoldable pub or_precondition_failed : S3Error → Error
unfolding is_precondition_failed
or_precondition_failed e = if is_precondition_failed e then precondition_failed else e.cause

-- "bytes=%d-%d"
abbrev pub range_header : ℤ → ℤ → Text
range_header start end = codes "bytes=" ++ (show_int start ++ (codes "-" ++ show_int end))

-- What `Put` sends.
unfoldable pub put_input : Text → Text → Text → PutCondition → PutObjectInput
put_input bucket key body cond = record {
  bucket = bucket;
  key = key;
  body = body;
  if_match = if is_empty cond.if_match then none else some (quoted (normalize cond.if_match));
  if_none_match = if cond.if_none_match then some (codes "*") else none;
}

abbrev pub batch_size : ℕ
batch_size = 1000

-- `end`, and `keys[i:end]`
abbrev pub batch_end : ℕ → List Text → ℕ
batch_end i keys = if ltb (length keys) (i + batch_size) then length keys else i + batch_size

abbrev pub batch_at : ℕ → List Text → List Text
batch_at i keys = take (batch_end i keys - i) (drop i keys)

-- The batches of the loop of `DeletePrefix` from `i` on, for at most so many rounds.
unfoldable pub batches : ℕ → ℕ → List Text → List (List Text)
batches zero i keys = []
batches (suc n) i keys =
    let rest = batches n (i + batch_size) keys in
    if ltb i (length keys) then batch_at i keys ∷ rest else []

-- `if len(out.Errors) > 0`
abbrev pub all_deleted : List (Option Text) → Result (Unit {0})
all_deleted [] = ok tt
all_deleted (key ∷ more) = err (delete_failed (to_string key) (length (key ∷ more)))

module _ {S : Type 0} (client : S3Client S) (bucket : Text) where
  open client use {Paginator}

  unfoldable pub get : Text → Exec S (Text × Text)
  unfolding or_not_found
  get key = do
    out ← call or_not_found (client.get_object bucket key none)
    pure (out.body, normalize (to_string out.etag))

  unfoldable pub get_range : Text → ℤ → ℤ → Exec S Text
  unfolding or_not_found
  get_range key start end = do
    out ← call or_not_found (client.get_object bucket key (some (range_header start end)))
    pure out.body

  unfoldable pub stat : Text → Exec S BlobInfo
  unfolding or_not_found
  stat key = do
    out ← call or_not_found (client.head_object bucket key)
    pure (record {
      etag = normalize (to_string out.etag);
      size = to_int out.content_length;
      last_modified = to_time out.last_modified;
    })

  unfoldable pub put : Text → Text → PutCondition → Exec S Text
  unfolding put_input or_precondition_failed
  put key body cond =
      if not (is_empty cond.if_match) && cond.if_none_match then raise both_conditions else do
        tag ← call or_precondition_failed (client.put_object (put_input bucket key body cond))
        pure (normalize (to_string tag))

  -- The loop of `List`, for at most so many pages; `none` says that it has not ended by then.
  unfoldable pub list_pages : ℕ → Paginator → List Text → Exec S (Option (List Text))
  list_pages zero p keys = pure none
  list_pages (suc n) p keys =
      let again = list_pages n in
      if client.has_more_pages p
      then (call (λ e. e.cause) (client.next_page p) >>= λ (page, p').
          again p' (keys ++ map to_string page))
      else pure (some keys)

  unfoldable pub list : ℕ → Text → Exec S (Option (List Text))
  unfolding list_pages
  list pages prefix = list_pages pages (client.new_paginator bucket prefix) []

  unfoldable pub delete : Text → Exec S (Unit {0})
  delete key = call (λ e. e.cause) (client.delete_object bucket key)

  -- The requests of `DeletePrefix`; the first that fails ends it.
  unfoldable pub delete_batches : List (List Text) → Exec S (Unit {0})
  delete_batches [] = pure tt
  delete_batches (keys ∷ more) = do
    left ← call (λ e. e.cause) (client.delete_objects bucket keys)
    lift (all_deleted left)
    delete_batches more

  unfoldable pub delete_listed : Option (List Text) → Exec S (Option (Unit {0}))
  unfolding delete_batches batches
  delete_listed none = pure none
  delete_listed (some keys) = delete_batches (batches (length keys) 0 keys) >> pure (some tt)

  unfoldable pub delete_prefix : ℕ → Text → Exec S (Option (Unit {0}))
  unfolding list delete_listed
  delete_prefix pages prefix = list pages prefix >>= delete_listed

  -- A loop that has not ended within its bound; `list-Serves` says when it does.
  unfoldable pub ended : {A : Type 0} → Option A → Exec S A
  ended none = raise (external 0)
  ended (some a) = pure a

  -- `S3BlobStore`, with lists of less than so many pages
  unfoldable pub s3_store : ℕ → BlobStore S
  unfolding get get_range stat put list delete delete_prefix ended
  s3_store pages = record {
    get = get;
    get_range = get_range;
    stat = stat;
    put = put;
    list = λ prefix. list pages prefix >>= ended;
    delete = delete;
    delete_prefix = λ prefix. delete_prefix pages prefix >>= ended;
  }
