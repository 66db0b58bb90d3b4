-- ===== src/Transfer/Initialised.antt =====
-- An initialisation, like the first open of a database, makes a manifest where there was none.
use s3db.Base.{ℤ, pos, Text, ◌≡◌, sym, ◌∙◌, ap, subst, Option, none, some, length, arith}
use s3db.Result.{Result, ok, err}
use s3db.Result.Exec.{Exec, attempt, pure, raise, by_bind, pure-eq-ok, lift-eq-ok}
use s3db.Blob.{IsLawful, Contents, BlobInfo}
use s3db.Env.{Env}
use s3db.Env.Kept.{IsSteady, ran_out}
use s3db.Sqlite.{Sqlite}
use s3db.Manifest.Io.{stamp}
use s3db.Manifest.Io.Atomic.{Created, put_manifest-Created}
use s3db.Client.{manifest_key}
use s3db.Db.{initial}
use s3db.Transfer
use s3db.Transfer.{must_be_new, upload_first, init}
use s3db.Transfer.Kept.{Kept, Kept-between, upload_file-Kept, validate_sqlite_file-ok}
use s3db.Transfer.Moves.{upload_first-Keeps, validate_sqlite_file-Keeps}

-- the file that a database starts from
abbrev pub first_file : Option (Result Text) → Result Text → Result Text
first_file none empty = empty
first_file (some src) empty = src

module _ {S : Type 0} (env : Env S) (lib : Sqlite) (hash : Text → Text) (at : S → Contents)
    (reaches : S → S → Type 0) (law : IsLawful env.store hash at reaches) where
  -- At some moment after `begin` the store had no manifest; `out` has the first one, for this
  -- file.
  pub record Initialised (prefix : Text) (file : Result Text) (begin out : S) : Type 0 where
    pub bytes : Text
    pub read : file ≡ ok bytes
    pub key : Text
    pub etag : Text
    pub moment : S
    pub since : reaches begin moment
    pub stored : Kept at reaches begin moment key bytes
    pub created :
        Created env hash at
          (manifest_key prefix)
          (stamp (initial env key (pos (length bytes))))
          etag
          moment
          out

  -- The upload of the first file.
  record First (file : Result Text) (begin now : S) (key : Text) (size : ℤ) : Type 0 where
    bytes : Text
    read : file ≡ ok bytes
    stored : Kept at reaches begin now key bytes
    sized : size ≡ pos (length bytes)

  module _ (steady : IsSteady env reaches) where
    upload_first-First :
        (prefix : Text) (src : Option (Result Text)) (empty : Result Text) (s t : S) (key : Text)
        (size : ℤ)
        → upload_first env lib prefix src empty s ≡ (ok (key, size), t)
        → First (first_file src empty) s t key size
    unfolding upload_first
    upload_first-First prefix none empty s t key size h = by_bind _ _ s h λ bytes t1 read r1.
        by_bind _ _ t1 r1 λ n t2 up r2.
          let (made, from) = lift-eq-ok _ s read in
          let (stored, sized) =
            upload_file-Kept env lib hash at reaches law steady _ bytes t1 t2 n up in
          let (same, stop) = pure-eq-ok _ t2 r2 in
          record {
            bytes = bytes;
            read = made;
            stored =
                subst (λ k. Kept at reaches s t k bytes) (ap (λ q. q.0) same)
                  (rw (from, sym stop) stored);
            sized = sym (ap (λ q. q.1) same) ∙ sized;
          }
    upload_first-First prefix (some src) empty s t key size h = by_bind _ _ s h λ bytes t1 valid r1.
        by_bind _ _ t1 r1 λ uuid t2 made r2. by_bind _ _ t2 r2 λ n t3 up r3.
          let (stored, sized) =
            upload_file-Kept env lib hash at reaches law steady _ bytes t2 t3 n up in
          let (same, stop) = pure-eq-ok _ t3 r3 in
          let to_t1 =
            ran_out env reaches steady (Transfer.validate_sqlite_file env lib src) s t1
              (λ Q kept. validate_sqlite_file-Keeps env lib Q kept src) valid in
          let to_t2 = ran_out env reaches steady env.uuid t1 t2 (λ Q kept. kept.uuid) made in
          let kept =
            Kept-between env lib hash at reaches law s t2 t3 t3 _ bytes
              (law.go_on s t1 t2 to_t1 to_t2) (law.stay t3) stored in
          record {
            bytes = bytes;
            read = validate_sqlite_file-ok env lib hash at reaches law src s t1 bytes valid;
            stored =
                subst (λ k. Kept at reaches s t k bytes) (ap (λ q. q.0) same) (rw (sym stop) kept);
            sized = sym (ap (λ q. q.1) same) ∙ sized;
          }

  attempt-out :
      {A : Type 0} (m : Exec S A) (s t : S) {r : Result A}
      → attempt m s ≡ (ok r, t)
      → m s ≡ ((m s).0, t)
  unfolding attempt
  attempt-out m s t h = λ i. ((m s).0, (ap (λ q. q.1) h) i)

  must_be_new-ok : (r : Result BlobInfo) (s t : S) → must_be_new env lib r s ≡ (ok tt, t) → s ≡ t
  unfolding must_be_new pure raise
  must_be_new-ok (ok info) s t h = ground (arith, h)
  must_be_new-ok (err e) s t h = ground (arith, h)

  -- In a lawful store, when `Init` returns nil the file, or the file of an empty database where
  -- no path was given, could be read, and at a moment after the call the store had no manifest;
  -- then it got the manifest of number 0 whose snapshot is exactly the bytes of that file, stored
  -- under its key between the call and that moment. No other key was written by this.
  pub init-Initialised :
      IsSteady env reaches
      → (prefix : Text) (src : Option (Result Text)) (empty : Result Text) (s s' : S)
      → init env lib prefix src empty s ≡ (ok tt, s')
      → Initialised prefix (first_file src empty) s s'
  unfolding init
  init-Initialised steady prefix src empty s s' h = by_bind _ _ s h λ u t0 named r0.
      by_bind _ _ t0 r0 λ r t1 looked r1. by_bind _ _ t1 r1 λ v t2 new r2.
        by_bind _ _ t2 r2 λ (key, size) t3 up r3. by_bind _ _ t3 r3 λ (m, etag) t4 put r4.
          let from = (lift-eq-ok _ s named).1 in
          let stat : Exec S BlobInfo = env.store.stat (manifest_key prefix) in
          let to_t1 =
            ran_out env reaches steady stat t0 t1 (λ Q kept. kept.stat _)
              (attempt-out stat t0 t1 looked) in
          let to_t2 = subst (reaches s) (must_be_new-ok r t1 t2 new) (rw from to_t1) in
          let to_t3 =
            ran_out env reaches steady (upload_first env lib prefix src empty) t2 t3
              (λ Q kept. upload_first-Keeps env lib Q kept prefix src empty) up in
          let first = upload_first-First steady prefix src empty t2 t3 key size up in
          let (p, later, created, stamped) =
            put_manifest-Created env hash at reaches law (manifest_key prefix)
              (initial env key size) t3 m etag t4 put in
          let stop = (pure-eq-ok _ t4 r4).1 in
          record {
            bytes = first.bytes;
            read = first.read;
            key = key;
            etag = etag;
            moment = p;
            since = law.go_on s t3 p (law.go_on s t2 t3 to_t2 to_t3) later;
            stored =
                Kept-between env lib hash at reaches law s t2 t3 p key first.bytes to_t2 later
                  first.stored;
            created = rw (sym first.sized, sym stop) created;
          }
