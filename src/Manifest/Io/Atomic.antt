-- ===== src/Manifest/Io/Atomic.antt =====
-- The manifest in a lawful store: what a load has seen, and what a conditional put replaces.
use s3db.Base.{Text, ◌≡◌, refl, ◌≢◌, ◌∙◌, sym, ap, subst, true, text_eq, Option, some, none, arith}
use s3db.Result.{ok}
use s3db.Result.Exec.{bind-eq-ok, lift-eq-ok, pure-eq-ok}
use s3db.Blob.{if_match, if_none_match, IsLawful, IsTag, Contents, written, meets}
use s3db.Env.{Env}
use s3db.Manifest.{Manifest, validate}
use s3db.Manifest.Io.{load_manifest, put_manifest, or_decode_error, stamp}

module _ {S : Type 0} (env : Env S) (hash : Text → Text) (at : S → Contents) where
  -- Some body has this tag and decodes to this manifest.
  abbrev pub Stands : Manifest → Text → Type 0
  Stands m etag = (body : Text) × (env.codec.decode body ≡ some m) × (etag ≡ hash body)

  -- The key holds a body with this tag, its hash, that decodes to this manifest.
  abbrev pub Held : Text → Manifest → Text → S → Type 0
  Held key m etag s =
      (body : Text) × (at s key ≡ some (body, etag))
      × (env.codec.decode body ≡ some m)
      × (etag ≡ hash body)

  pub Held-Stands :
      (key : Text) (m : Manifest) (etag : Text) (s : S) → Held key m etag s → Stands m etag
  Held-Stands key m etag s (body, there, dec, tag) = (body, dec, tag)

  -- At the moment `p` the key held `before`; `s` holds `after` with its tag there, and is else as
  -- `p`.
  pub record Swapped (key : Text) (before after : Manifest) (tag : Text) (p s : S) : Type 0 where
    pub held :
        (body old : Text) × (at p key ≡ some (body, old)) × (env.codec.decode body ≡ some before)
    pub new_body :
        (body : Text) × (env.codec.encode after ≡ ok body) × (at s key ≡ some (body, tag))
    pub others : (j : Text) → key ≢ j → at s j ≡ at p j
    pub accepted : validate after ≡ ok tt

  -- At the moment `p` the key held nothing; `s` holds `after` with its tag there, and is else as
  -- `p`.
  pub record Created (key : Text) (after : Manifest) (tag : Text) (p s : S) : Type 0 where
    pub vacant : at p key ≡ none
    pub new_body :
        (body : Text) × (env.codec.encode after ≡ ok body) × (at s key ≡ some (body, tag))
    pub others : (j : Text) → key ≢ j → at s j ≡ at p j
    pub accepted : validate after ≡ ok tt

  module _ (reaches : S → S → Type 0) (law : IsLawful env.store hash at reaches) where
    decoded : (o : Option Manifest) (m : Manifest) → or_decode_error o ≡ ok m → o ≡ some m
    decoded none m h = cc
    decoded (some x) m h = cc

    -- A load that succeeds returns the manifest, which validates, and the tag of the body that
    -- the store holds at its key when the load is over; the tag is the hash of that body.
    pub load_manifest-Held :
        (key : Text) (s : S) (m : Manifest) (etag : Text) (s' : S)
        → load_manifest env key s ≡ (ok (m, etag), s')
        → Held key m etag s' × (validate m ≡ ok tt)
    unfolding load_manifest
    load_manifest-Held key s m etag s' h =
        let (got, t, read, rest) = bind-eq-ok _ _ s h in
        let (x, t1, dec, rest1) = bind-eq-ok _ _ t rest in
        let (u, t2, valid, rest2) = bind-eq-ok _ _ t1 rest1 in
        let same : x ≡ m = ap (λ p. p.0) (pure-eq-ok _ t2 rest2).0 in
        let end : got.1 ≡ etag = ap (λ p. p.1) (pure-eq-ok _ t2 rest2).0 in
        let there : at t key ≡ some got = law.get_ok key s got.0 got.1 t read in
        let tag : got.1 ≡ hash got.0 = law.tag_hash t key got.0 got.1 there in
        let stop : t ≡ s' =
          (lift-eq-ok _ t dec).1 ∙ (lift-eq-ok _ t1 valid).1 ∙ (pure-eq-ok _ t2 rest2).1 in
        (
          (
            got.0,
            subst (λ z. at z key ≡ some got) stop there ∙ ap (λ y. some (got.0, y)) end,
            decoded _ x (lift-eq-ok _ t dec).0 ∙ ap some same,
            sym end ∙ tag,
          ),
          subst (λ y. validate y ≡ ok tt) same (lift-eq-ok _ t1 valid).0,
        )

    pub load_manifest-Stands :
        (key : Text) (s : S) (m : Manifest) (etag : Text) (s' : S)
        → load_manifest env key s ≡ (ok (m, etag), s')
        → Stands m etag × (validate m ≡ ok tt)
    load_manifest-Stands key s m etag s' h =
        let (held, valid) = load_manifest-Held key s m etag s' h in
        (Held-Stands key m etag s' held, valid)

    module _ (tags : IsTag hash) where
      -- The condition `If-Match` with the tag of a body is met only where that body is stored.
      match-stored :
          (o : Option (Text × Text)) (body : Text) (key : Text) (p : S)
          → at p key ≡ o
          → meets (if_match (hash body)) o ≡ true
          → (at p key ≡ some (body, hash body))
      match-stored none body key p e h = absurd (tags.ne_empty body (ground arith))
      match-stored (some (b, tag)) body key p e h =
          let tag_of : tag ≡ hash b = law.tag_hash p key b tag e in
          let same : tag ≡ hash body = ground (arith, tags.plain body, tags.ne_empty body) in
          let bodies : b ≡ body = tags.distinct b body (sym tag_of ∙ same) in rw (e, bodies, same)

      -- A conditional put that succeeds replaces, at one moment after its call, exactly the
      -- manifest that its tag stands for by the stamped new one, which validates; it changes no
      -- other key.
      pub put_manifest-Swapped :
          (key : Text) (before m : Manifest) (etag : Text) (s : S) (after : Manifest) (tag : Text)
          (s' : S)
          → Stands before etag
          → put_manifest env key m (if_match etag) s ≡ (ok (after, tag), s')
          → (p : S) × reaches s p × Swapped key before (stamp m) tag p s' × (after ≡ stamp m)
      unfolding put_manifest
      put_manifest-Swapped key before m etag s after tag s' stands h =
          let (u, t, valid, rest) = bind-eq-ok _ _ s h in
          let (body, t1, enc, rest1) = bind-eq-ok _ _ t rest in
          let (new, t2, wrote, rest2) = bind-eq-ok _ _ t1 rest1 in
          let (p, later, met, is) = law.put_ok key body (if_match etag) t1 new t2 wrote in
          let same : stamp m ≡ after = ap (λ q. q.0) (pure-eq-ok _ t2 rest2).0 in
          let tagged : new ≡ tag = ap (λ q. q.1) (pure-eq-ok _ t2 rest2).0 in
          let ended : t2 ≡ s' = (pure-eq-ok _ t2 rest2).1 in
          let (old, dec, e) = stands in
          let seen =
            match-stored (at p key) old key p refl
              (subst (λ x. meets (if_match x) (at p key) ≡ true) e met) in
          let wrote : (j : Text) → at s' j ≡ written (at p) key (body, tag) j =
            subst (λ r. (j : Text) → at r j ≡ written (at p) key (body, tag) j) ended
              (subst (λ x. (j : Text) → at t2 j ≡ written (at p) key (body, x) j) tagged is) in
          (
            p,
            subst (λ x. reaches x p) (sym ((lift-eq-ok _ s valid).1 ∙ (lift-eq-ok _ t enc).1))
                later,
            record {
              held = (old, hash old, seen, dec);
              new_body = (body, (lift-eq-ok _ t enc).0, ground (arith, wrote key));
              others = λ j ne. ground (arith, wrote j);
              accepted = (lift-eq-ok _ s valid).0;
            },
            sym same,
          )

    -- The condition `If-None-Match` is met only where nothing is stored.
    vacant-met : (o : Option (Text × Text)) → meets if_none_match o ≡ true → o ≡ none
    vacant-met none met = refl
    vacant-met (some (b, tag)) met = ground (arith, met)

    -- A put for a new key that succeeds found nothing there at one moment after its call, and
    -- stored the stamped manifest, which validates; it changes no other key.
    pub put_manifest-Created :
        (key : Text) (m : Manifest) (s : S) (after : Manifest) (tag : Text) (s' : S)
        → put_manifest env key m if_none_match s ≡ (ok (after, tag), s')
        → (p : S) × reaches s p × Created key (stamp m) tag p s' × (after ≡ stamp m)
    unfolding put_manifest
    put_manifest-Created key m s after tag s' h =
        let (u, t, valid, rest) = bind-eq-ok _ _ s h in
        let (body, t1, enc, rest1) = bind-eq-ok _ _ t rest in
        let (new, t2, wrote, rest2) = bind-eq-ok _ _ t1 rest1 in
        let (p, later, met, is) = law.put_ok key body if_none_match t1 new t2 wrote in
        let same : stamp m ≡ after = ap (λ q. q.0) (pure-eq-ok _ t2 rest2).0 in
        let tagged : new ≡ tag = ap (λ q. q.1) (pure-eq-ok _ t2 rest2).0 in
        let ended : t2 ≡ s' = (pure-eq-ok _ t2 rest2).1 in
        let wrote : (j : Text) → at s' j ≡ written (at p) key (body, tag) j =
          subst (λ r. (j : Text) → at r j ≡ written (at p) key (body, tag) j) ended
            (subst (λ x. (j : Text) → at t2 j ≡ written (at p) key (body, x) j) tagged is) in
        (
          p,
          subst (λ x. reaches x p) (sym ((lift-eq-ok _ s valid).1 ∙ (lift-eq-ok _ t enc).1)) later,
          record {
            vacant = vacant-met (at p key) met;
            new_body = (body, (lift-eq-ok _ t enc).0, ground (arith, wrote key));
            others = λ j ne. ground (arith, wrote j);
            accepted = (lift-eq-ok _ s valid).0;
          },
          sym same,
        )
