-- ===== src/Blob/S3/Lawful.antt =====
-- The S3 store is a lawful store, by what S3 documents of conditional writes and entity tags.
use s3db.Base.{
  text_eq, ℕ, Text, codes, ◌≡◌, refl, sym, ◌∙◌, ap, subst, is_empty, Bool, true, false, not, ◌&&◌,
  ◌==◌, Option, none, some, [], arith, Bool-cases, inl, inr, if◌then◌else◌,
}
use s3db.Result.{Result, ok}
use s3db.Result.Exec.{raise, by_bind, by_if, pure-eq-ok}
use s3db.Etag.{normalize, quoted}
use s3db.Etag.Trim.{normalize-quoted, normalize_idem}
use s3db.Blob.{held, IsLawful, IsTag, Contents, PutCondition, meets, written}
use s3db.Result.Reply.{got, call-ok}
use s3db.Blob.S3.{
  S3Client, GetObjectOutput, PutObjectInput, to_string, or_not_found, or_precondition_failed,
  put_input, get, put, s3_store,
}

-- What S3 documents, for tags without quotes of their own: an object is read and written at one
-- moment, a read after a write sees it, an entity tag comes in quotes, a put with `If-Match`
-- succeeds only on an object of that tag, and one with `If-None-Match: *` only where there is
-- none.
pub record IsS3 {S : Type 0} (client : S3Client S) (bucket : Text) (hash : Text → Text)
    (objects : S → Text → Option Text) (reaches : S → S → Type 0) : Type 0 where
  pub stay : (s : S) → reaches s s
  pub go_on : (s t u : S) → reaches s t → reaches t u → reaches s u
  pub read :
      (key : Text) (s : S) (out : GetObjectOutput) (s' : S)
      → client.get_object bucket key none s ≡ (got out, s')
      → (objects s' key ≡ some out.body) × (out.etag ≡ some (quoted (hash out.body)))
  pub write :
      (request : PutObjectInput) (s : S) (tag : Option Text) (s' : S)
      → request.bucket ≡ bucket
      → client.put_object request s ≡ (got tag, s')
      → (p : S) × reaches s p
        × ((t : Text)
            → normalize t ≡ t
            → request.if_match ≡ some (quoted t)
            → (b : Text) × (objects p request.key ≡ some b) × (hash b ≡ t))
        × (request.if_none_match ≡ some (codes "*") → objects p request.key ≡ none)
        × (tag ≡ some (quoted (hash request.body)))
        × ((j : Text)
            → objects s' j ≡ (if request.key == j then some request.body else objects p j))

module _ {S : Type 0} (client : S3Client S) (bucket : Text) (hash : Text → Text)
    (objects : S → Text → Option Text) (reaches : S → S → Type 0) where
  abbrev pub s3_at : S → Contents
  s3_at s key = held (objects s key) hash

  tag_of : (tags : IsTag hash) (b : Text) → normalize (quoted (hash b)) ≡ hash b
  tag_of tags b = normalize-quoted (hash b) ∙ tags.plain b

  module _ (tags : IsTag hash) (s3 : IsS3 client bucket hash objects reaches) where
    get-held :
        (key : Text) (s : S) (body tag : Text) (s' : S)
        → get client bucket key s ≡ (ok (body, tag), s')
        → s3_at s' key ≡ some (body, tag)
    unfolding get
    get-held key s body tag s' h = by_bind _ _ s h λ out t read rest.
        let (there, quoted_tag) =
          s3.read key s out t
            (call-ok or_not_found (client.get_object bucket key none) s t out read) in
        let (same, stop) = pure-eq-ok _ t rest in
        let now : s3_at t key ≡ some (out.body, hash out.body) = rw there refl in
        let end : normalize (to_string out.etag) ≡ hash out.body =
          ap (λ o. normalize (to_string o)) quoted_tag ∙ tag_of tags out.body in
        let pair : (out.body, hash out.body) ≡ (body, tag) =
          λ i. ((ap (λ q. q.0) same) i, (sym end ∙ ap (λ q. q.1) same) i) in
        subst (λ x. s3_at x key ≡ some (body, tag)) stop (now ∙ ap (λ q. some q) pair)

    held-tag :
        (o : Option Text) (body tag : Text) → held o hash ≡ some (body, tag) → tag ≡ hash body
    held-tag none body tag h = cc h
    held-tag (some b) body tag h = ground (arith, h)

    held-written :
        (after before : Option Text) (here : Bool) (body tag : Text)
        → hash body ≡ tag
        → after ≡ (if here then some body else before)
        → held after hash ≡ (if here then some (body, tag) else held before hash)
    held-written after before true body tag e h = rw (h, e) refl
    held-written after before false body tag e h = rw h refl

    -- The conditions that are sent are those that are meant.
    sent-meets :
        (cond : PutCondition) (o : Option Text)
        → (not (is_empty cond.if_match) && cond.if_none_match) ≡ false
        → ((t : Text)
            → normalize t ≡ t
            → (put_input bucket [] [] cond).if_match ≡ some (quoted t)
            → (b : Text) × (o ≡ some b) × (hash b ≡ t))
        → ((put_input bucket [] [] cond).if_none_match ≡ some (codes "*") → o ≡ none)
        → meets cond (held o hash) ≡ true
    unfolding put_input
    sent-meets cond none one on_match on_none = elim (Bool-cases (is_empty cond.if_match)) [
      | inl empty ↦ empty
      | inr full ↦
          let (b, there, _) =
            on_match (normalize cond.if_match) (normalize_idem cond.if_match) (rw full refl) in
          cc there
    ]
    sent-meets cond (some b) one on_match on_none = elim (Bool-cases cond.if_none_match) [
      | inl new ↦ cc (on_none (rw new refl))
      | inr any ↦ elim (Bool-cases (is_empty cond.if_match)) [
        | inl empty ↦ ground (arith, any, empty)
        | inr full ↦
            let (b', there, tag) =
              on_match (normalize cond.if_match) (normalize_idem cond.if_match) (rw full refl) in
            ground (arith, any, there, tag)
      ]
    ]

    put-Written :
        (key body : Text) (cond : PutCondition) (s : S) (tag : Text) (s' : S)
        → put client bucket key body cond s ≡ (ok tag, s')
        → (p : S) × reaches s p
          × (meets cond (s3_at p key) ≡ true)
          × ((j : Text) → s3_at s' j ≡ written (s3_at p) key (body, tag) j)
    unfolding put put_input raise
    put-Written key body cond s tag s' h =
        by_if (not (is_empty cond.if_match) && cond.if_none_match) _ _ s h
          (λ both run. cc (ap (λ (q : Result Text × S). q.0) run))
          (λ one run. by_bind _ _ s run λ back t sent rest.
            let request = put_input bucket key body cond in
            let (p, later, on_match, on_none, tagged, wrote) =
              s3.write request s back t refl
                (call-ok or_precondition_failed (client.put_object request) s t back sent) in
            let (same, stop) = pure-eq-ok _ t rest in
            let end : hash body ≡ tag =
              sym (ap (λ o. normalize (to_string o)) tagged ∙ tag_of tags body) ∙ same in
            (
              p,
              later,
              sent-meets cond (objects p key) one on_match on_none,
              λ j.
                  subst (λ x. s3_at x j ≡ written (s3_at p) key (body, tag) j) stop
                    (held-written (objects t j) (objects p j) (key == j) body tag end (wrote j)),
            ))

    -- For an S3 client that does what S3 documents, and usable tags, `S3BlobStore` is a lawful
    -- store: a get returns what the bucket holds, a tag is that of its body, a put that succeeds
    -- met its condition at one moment after its call and wrote its key alone.
    pub s3_store-IsLawful : (pages : ℕ) → IsLawful (s3_store client bucket pages) hash s3_at reaches
    unfolding s3_store
    s3_store-IsLawful pages = record {
      stay = s3.stay;
      go_on = s3.go_on;
      get_ok = get-held;
      tag_hash = λ s key body tag h. held-tag (objects s key) body tag h;
      put_ok = put-Written;
    }
