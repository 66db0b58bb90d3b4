-- ===== src/Tests/Bucket.antt =====
-- A concrete bucket: the objects of the shared in-memory store, behind the client of S3.
use s3db.Base.{
  ℕ, zero, suc, ◌<◌, pos, Text, text_eq, codes, ◌≡◌, ◌≢◌, refl, sym, ◌∙◌, ap, subst, Bool, true,
  false, ◌==◌, Option, none, some, List, [], ◌∷◌, ◌++◌, arith, length, get_elem?, ◌≤◌,
  if◌then◌else◌,
}
use s3db.Base.Lists.{flatten}
use s3db.Errors.{Error, not_found, precondition_failed, external}
use s3db.Result.{Result, ok, err}
use s3db.Etag.{quoted, normalize}
use s3db.Etag.Trim.{normalize-quoted}
use s3db.Blob.{PutCondition, no_condition, IsLawful, meets}
use s3db.Blob.Shared.{World, Later, shared_store, holds, shared_store-IsLawful}
use s3db.Result.Reply.{Reply, failed, got}
use s3db.Blob.S3.{S3Client, S3Error, GetObjectOutput, PutObjectInput, s3_store, batches, list}
use s3db.Blob.S3.Batches.{batches-exact}
use s3db.Blob.S3.Pages.{Serves, no_more, page, list-Serves}
use s3db.Blob.S3.Lawful.{IsS3, s3_store-IsLawful, s3_at}
use s3db.Tests.Codec.{hash, hash-IsTag}
use s3db.Tests.Worlds.{bare}
use s3db.Tests.Machinery.{machinery}
use s3db.Blob.Mem

abbrev with_status : Error → S3Error
with_status not_found = record {
  no_such_key = true;
  no_object = false;
  status = some 404;
  cause = external 404;
}
with_status precondition_failed = record {
  no_such_key = false;
  no_object = false;
  status = some 412;
  cause = external 412;
}
with_status e = record { no_such_key = false; no_object = false; status = none; cause = e }

abbrev answered : {A B : Type 0} → (A → B) → Result A × World hash → Reply S3Error B × World hash
answered f (err e, w) = (failed (with_status e), w)
answered f (ok a, w) = (got (f a), w)

abbrev header : Option Text → Text
header none = []
header (some t) = t

abbrev is_some : Option Text → Bool
is_some none = false
is_some (some t) = true

abbrev bucket_client : S3Client (World hash)
bucket_client = record {
  get_object = λ bucket key range w.
      answered (λ (body, tag). record { body = body; etag = some (quoted tag) })
        ((shared_store hash).get key w);
  head_object = λ bucket key w.
      answered
        (λ info. record {
          etag = some (quoted info.etag);
          content_length = some info.size;
          last_modified = some info.last_modified;
        })
        ((shared_store hash).stat key w);
  put_object = λ request w.
      answered (λ tag. some (quoted tag))
        ((shared_store hash).put request.key request.body
          (record {
            if_match = header request.if_match;
            if_none_match = is_some request.if_none_match;
          })
          w);
  Paginator = Option Text;
  new_paginator = λ bucket prefix. some prefix;
  has_more_pages = is_some;
  next_page = λ p w.
      answered (λ (keys : List Text). (s3db.Base.map some keys, none))
        ((shared_store hash).list (header p) w);
  delete_object = λ bucket key w. answered (λ u. u) ((shared_store hash).delete key w);
  delete_objects = λ bucket keys w. (got [], w);
}

abbrev body_of : Option (Text × Text) → Option Text
body_of none = none
body_of (some (body, tag)) = some body

abbrev objects : World hash → Text → Option Text
objects w key = body_of (holds hash w key)

abbrev law : IsLawful (shared_store hash) hash (holds hash) (Later hash)
law = shared_store-IsLawful hash

answered-got :
    {A B : Type 0} (f : A → B) (r : Result A × World hash) (b : B) (w : World hash)
    → answered f r ≡ (got b, w)
    → (a : A) × (r ≡ (ok a, w)) × (f a ≡ b)
answered-got f (err e, v) b w h = cc (ap (λ q. q.0) h)
answered-got f (ok a, v) b w h = (a, (λ i. (ok a, (h i).1)), cc (ap (λ q. q.0) h))

matched :
    (o : Option (Text × Text)) (t : Text) (new : Bool)
    → meets (record { if_match = quoted t; if_none_match = new }) o ≡ true
    → (b tag : Text) × (o ≡ some (b, tag)) × (tag ≡ normalize (quoted t))
matched none t new h = cc h
matched (some (b, tag)) t false h = (b, tag, refl, ground (arith, h))
matched (some (b, tag)) t true h = cc h

vacant :
    (o : Option (Text × Text)) (t : Text)
    → meets (record { if_match = t; if_none_match = true }) o ≡ true
    → body_of o ≡ none
vacant none t h = refl
vacant (some (b, tag)) t h = cc h

bucket_client-read :
    (key : Text) (s : World hash) (out : GetObjectOutput) (s' : World hash)
    → bucket_client.get_object (codes "b") key none s ≡ (got out, s')
    → (objects s' key ≡ some out.body) × (out.etag ≡ some (quoted (hash out.body)))
bucket_client-read key s out s' h =
    let ((body, tag), ran, same) = answered-got _ ((shared_store hash).get key s) out s' h in
    let there = law.get_ok key s body tag s' ran in
    let tagged = law.tag_hash s' key body tag there in
    subst
      (λ (o : GetObjectOutput).
        (objects s' key ≡ some o.body) × (o.etag ≡ some (quoted (hash o.body))))
      same (ap body_of there, ap (λ t. some (quoted t)) tagged)

body_of-if :
    (here : Bool) (before now : Option (Text × Text)) (body tag : Text)
    → now ≡ (if here then some (body, tag) else before)
    → body_of now ≡ (if here then some body else body_of before)
body_of-if true before now body tag h = ap body_of h
body_of-if false before now body tag h = ap body_of h

bucket_client-write :
    (request : PutObjectInput) (s : World hash) (tag : Option Text) (s' : World hash)
    → bucket_client.put_object request s ≡ (got tag, s')
    → (p : World hash) × Later hash s p
      × ((t : Text)
          → normalize t ≡ t
          → request.if_match ≡ some (quoted t)
          → (b : Text) × (objects p request.key ≡ some b) × (hash b ≡ t))
      × (request.if_none_match ≡ some (codes "*") → objects p request.key ≡ none)
      × (tag ≡ some (quoted (hash request.body)))
      × ((j : Text) → objects s' j ≡ (if request.key == j then some request.body else objects p j))
bucket_client-write request s tag s' h =
    let cond : PutCondition = record {
      if_match = header request.if_match;
      if_none_match = is_some request.if_none_match;
    } in
    let (t, ran, same) =
      answered-got (λ (t : Text). some (quoted t))
        ((shared_store hash).put request.key request.body cond s) tag s' h in
    let (p, later, met, is) = law.put_ok request.key request.body cond s t s' ran in
    let here : holds hash s' request.key ≡ some (request.body, t) =
      ground (arith, is request.key) in
    let tagged : t ≡ hash request.body = law.tag_hash s' request.key request.body t here in
    (
      p,
      later,
      λ x plain e.
          let (b, old, at_p, of_x) =
            matched (holds hash p request.key) x (is_some request.if_none_match) (
              subst
                (λ (m : Option Text).
                  meets
                    (record { if_match = header m; if_none_match = is_some request.if_none_match })
                    (holds hash p request.key)
                  ≡ true)
                e met) in
          (
            b,
            ap body_of at_p,
            sym (law.tag_hash p request.key b old at_p) ∙ of_x ∙ normalize-quoted x ∙ plain,
          ),
      λ e. vacant (holds hash p request.key) (header request.if_match) (
          subst
            (λ (m : Option Text).
              meets (record { if_match = header request.if_match; if_none_match = is_some m })
                (holds hash p request.key)
              ≡ true)
            e met),
      sym same ∙ ap (λ x. some (quoted x)) tagged,
      λ j. body_of-if (request.key == j) (holds hash p j) _ _ _ (is j),
    )

bucket-IsS3 : IsS3 bucket_client (codes "b") hash objects (Later hash)
bucket-IsS3 = record {
  stay = law.stay;
  go_on = law.go_on;
  read = bucket_client-read;
  write = λ request s tag s' _ h. bucket_client-write request s tag s' h;
}

s3_store-IsLawful_example :
    IsLawful
      (s3_store bucket_client (codes "b") 3)
      hash
      (s3_at bucket_client (codes "b") hash objects (Later hash))
      (Later hash)
s3_store-IsLawful_example =
    s3_store-IsLawful bucket_client (codes "b") hash objects (Later hash) hash-IsTag bucket-IsS3 3

-- A list of this bucket has one page.
abbrev stored_two : World hash
stored_two =
    ((shared_store hash).put (codes "a/2") [] no_condition
      ((shared_store hash).put (codes "a/1") [] no_condition bare).1).1

abbrev first_page : Reply S3Error (List (Option Text) × Option Text) × World hash
first_page = bucket_client.next_page (some (codes "a")) stored_two

served :
    Serves bucket_client
      (some (codes "a"))
      stored_two
      (ok (codes "a/1" ∷ codes "a/2" ∷ []))
      first_page.1
      1
unfolding machinery Mem.list Mem.put
served =
    page (some (codes "a")) none (some (codes "a/1") ∷ some (codes "a/2") ∷ []) (ok []) stored_two
      first_page.1 first_page.1 0 refl refl (no_more none first_page.1 refl)

list-Serves_example :
    list bucket_client (codes "b") 3 (codes "a") stored_two
    ≡ (ok (some (codes "a/1" ∷ codes "a/2" ∷ [])), first_page.1)
list-Serves_example =
    list-Serves bucket_client (codes "b") (codes "a") 3 1 stored_two first_page.1
      (ok (codes "a/1" ∷ codes "a/2" ∷ [])) served (omega arith)

batches-exact_example :
    (flatten (batches 2 0 (codes "a" ∷ codes "b" ∷ [])) ≡ codes "a" ∷ codes "b" ∷ [])
    × ((j : ℕ) (batch : List Text)
        → get_elem? (batches 2 0 (codes "a" ∷ codes "b" ∷ [])) j ≡ some batch
        → (1 ≤ length batch) × (length batch ≤ 1000))
batches-exact_example = batches-exact (codes "a" ∷ codes "b" ∷ [])
