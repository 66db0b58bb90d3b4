-- ===== src/Transfer/Pushed.antt =====
-- A push replaces the manifest that it was asked to replace.
use s3db.Base.{ℤ, pos, Text, ◌≡◌, refl, ◌∙◌, ap, Bool, false, length, arith}
use s3db.Errors.{Error, seq_mismatch}
use s3db.Result.{Result, ok, err, fail_if}
use s3db.Result.Exec.{raise, pure, by_bind, lift-eq-ok, attempt-ok}
use s3db.Blob.{IsLawful, IsTag, Contents, if_match}
use s3db.Env.{Env}
use s3db.Env.Kept.{IsSteady, ran_out}
use s3db.Sqlite.{Sqlite}
use s3db.Manifest.{Manifest, BlobRef, with_snapshot}
use s3db.Manifest.Io.{load_manifest, put_manifest, stamp}
use s3db.Manifest.Io.Atomic.{Swapped, load_manifest-Stands, put_manifest-Swapped}
use s3db.Client.{manifest_key}
use s3db.Transfer.{is_stale, push_key, validate_sqlite_file, or_mismatch, push}
use s3db.Transfer.Kept.{Kept, Kept-between, upload_file-Kept, validate_sqlite_file-ok}
use s3db.Transfer.Moves.{load_lem, validate_sqlite_file-Keeps}

module _ {S : Type 0} (env : Env S) (lib : Sqlite) (hash : Text → Text) (at : S → Contents)
    (reaches : S → S → Type 0) (law : IsLawful env.store hash at reaches) where
  -- At some moment after `begin` the store's manifest was `before`, of a number that was not
  -- refused; `out` holds the same manifest with the file as its snapshot and with an empty log.
  pub record Pushed (prefix : Text) (src : Result Text) (expected : ℤ) (begin out : S)
      : Type 0 where
    pub bytes : Text
    pub read : src ≡ ok bytes
    pub before : Manifest
    pub snapshot : BlobRef
    pub etag : Text
    pub moment : S
    pub since : reaches begin moment
    pub expects : is_stale expected before.seq ≡ false
    pub at_seq : snapshot.seq ≡ before.seq
    pub sized : snapshot.size ≡ pos (length bytes)
    pub stored : Kept at reaches begin moment snapshot.key bytes
    pub swapped :
        Swapped env hash at
          (manifest_key prefix)
          before
          (stamp (with_snapshot snapshot before))
          etag
          moment
          out

  or_mismatch-ok :
      (r : Result (Manifest × Text)) (s s' : S)
      → or_mismatch env lib r s ≡ (ok tt, s')
      → (got : Manifest × Text) × (r ≡ ok got) × (s ≡ s')
  unfolding or_mismatch pure raise
  or_mismatch-ok (ok got) s s' h = (got, refl, ap (λ q. q.1) h)
  or_mismatch-ok (err e) s s' h = ground (arith, h)

  fail_if-ok : (b : Bool) (e : Error) → fail_if b e ≡ ok tt → b ≡ false
  fail_if-ok b e h = ground (arith, h)

  before_upload :
      (steady : IsSteady env reaches) (prefix : Text) (src : Result Text) (s t0 t1 t2 t3 t4 : S)
      {r1 r4 : Result Text} {r2 : Result (Manifest × Text)}
      → s ≡ t0
      → validate_sqlite_file env lib src t0 ≡ (r1, t1)
      → load_manifest env (manifest_key prefix) t1 ≡ (r2, t2)
      → t2 ≡ t3
      → env.uuid t3 ≡ (r4, t4)
      → reaches s t4
  before_upload steady prefix src s t0 t1 t2 t3 t4 named valid loaded fresh made =
      let to_t1 =
        ran_out env reaches steady (validate_sqlite_file env lib src) t0 t1
          (λ Q kept. validate_sqlite_file-Keeps env lib Q kept src) valid in
      let to_t2 =
        ran_out env reaches steady (load_manifest env (manifest_key prefix)) t1 t2
          (λ Q kept. load_lem env lib Q kept (manifest_key prefix)) loaded in
      let to_t4 = ran_out env reaches steady env.uuid t3 t4 (λ Q kept. kept.uuid) made in
      law.go_on s t2 t4 (law.go_on s t1 t2 (rw named to_t1) to_t2) (rw fresh to_t4)

  -- In a lawful store with usable tags, when `Push` returns nil the file could be read, and the
  -- manifest that the store held at a moment after the call, whose number is the expected one
  -- unless that is negative, was replaced by one of the same number, with an empty log and a new
  -- snapshot: exactly the bytes of the file, stored under its key between the call and that
  -- moment. No other key was written by this.
  pub push-Pushed :
      IsTag hash
      → IsSteady env reaches
      → (prefix : Text) (src : Result Text) (expected : ℤ) (s s' : S)
      → push env lib prefix src expected s ≡ (ok tt, s')
      → Pushed prefix src expected s s'
  unfolding push
  push-Pushed tags steady prefix src expected s s' h = by_bind _ _ s h λ u t0 named r0.
      by_bind _ _ t0 r0 λ bytes t1 valid r1. by_bind _ _ t1 r1 λ (m, etag) t2 loaded r2.
        by_bind _ _ t2 r2 λ v t3 fresh r3. by_bind _ _ t3 r3 λ uuid t4 made r4.
          by_bind _ _ t4 r4 λ size t5 up r5. by_bind _ _ t5 r5 λ r t6 put r6.
            let (got, won, stop) = or_mismatch-ok r t6 s' r6 in
            let b : BlobRef = record { key = push_key prefix uuid; seq = m.seq; size = size } in
            let stands =
              (load_manifest-Stands env hash at reaches law (manifest_key prefix) t1 m etag t2
                loaded).0 in
            let new =
              put_manifest env (manifest_key prefix) (with_snapshot b m) (if_match etag) t5 in
            let wrote : new ≡ (ok got, s') =
              attempt-ok
                (put_manifest env (manifest_key prefix) (with_snapshot b m) (if_match etag)) t5 t6 r
                got put won
              ∙ ap (λ x. (ok got, x)) stop in
            let (p, later, swapped, stamped) =
              put_manifest-Swapped env hash at reaches law tags (manifest_key prefix) m
                (with_snapshot b m) etag t5 got.0 got.1 s' stands wrote in
            let to_t4 =
              before_upload steady prefix src s t0 t1 t2 t3 t4 (lift-eq-ok _ s named).1 valid loaded
                (lift-eq-ok _ t2 fresh).1 made in
            let (stored, sized) =
              upload_file-Kept env lib hash at reaches law steady _ bytes t4 t5 size up in
            let at_p =
              Kept-between env lib hash at reaches law s t4 t5 p b.key bytes to_t4 later stored in
            let at_t5 =
              law.go_on s t4 t5 to_t4 (law.go_on t4 stored.moment t5 stored.since stored.until) in
            record {
              bytes = bytes;
              read = validate_sqlite_file-ok env lib hash at reaches law src t0 t1 bytes valid;
              before = m;
              snapshot = b;
              etag = got.1;
              moment = p;
              since = law.go_on s t5 p at_t5 later;
              expects = fail_if-ok _ seq_mismatch (lift-eq-ok _ t2 fresh).0;
              at_seq = refl;
              sized = sized;
              stored = at_p;
              swapped = swapped;
            }
