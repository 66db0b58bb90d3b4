-- ===== src/Transfer/Again.antt =====
-- A file that was pushed is what a pull fetches.
use s3db.Base.{
  true, ℤ, pos, ◌≡◌, refl, sym, ◌∙◌, Text, text_eq, int_eq, some, false, is_empty, length, [], ◌∷◌,
  arith, ◌≤ℤ◌,
}
use s3db.Errors.{seq_mismatch}
use s3db.Result.{ok, err}
use s3db.Result.Exec.{attempt, ◌>>=◌}
use s3db.Blob.{Contents, IsTag, if_match, written}
use s3db.Env.{Env, RoundTrips, IsPlain, IsAscii}
use s3db.Env.Plain.{push_key-IsAscii, with_snapshot-IsPlain}
use s3db.Base.{◌<◌}
use s3db.Base.Int.{half64}
use s3db.Env.Quiet.{
  Runs, IsQuiet, runs_step, runs_then, runs_bind, runs_as, runs_pure, runs_attempt,
}
use s3db.Env.Quiet.Manifests.{
  Holds, Holds-as, written-other, written_self, written-same, load_manifest-runs,
  put_manifest-matched, upload_file-runs,
}
use s3db.Sqlite.{Sqlite}
use s3db.Manifest.{Manifest, BlobRef, validate, with_snapshot}
use s3db.Manifest.Io.{put_manifest, stamp}
use s3db.Client.{manifest_key}
use s3db.Transfer.{PullInfo, check_prefix, is_stale, push_key, or_mismatch, push, pull}
use s3db.Transfer.Fetched.{Accepts, manifest_key-ne-under, validate_sqlite_file-runs, pull-runs}

-- What a pull says of a file that was pushed over the manifest.
abbrev pub pulled_again : Manifest → Text → PullInfo
pulled_again m bytes = record {
  seq = m.seq;
  schema_version = m.schema_version;
  snapshot_size = pos (length bytes);
  log_entries = 0;
}

module _ {S : Type 0} (env : Env S) (lib : Sqlite) (hash : Text → Text) (at : S → Contents)
    (rest : S → Type 0) (quiet : IsQuiet env hash at rest) where
  abbrev pub pushed_ref : Text → Text → Text → Manifest → BlobRef
  pushed_ref prefix uuid bytes m = record {
    key = push_key prefix uuid;
    seq = m.seq;
    size = pos (length bytes);
  }

  -- the manifest that a push writes
  abbrev pub pushed : Text → Text → Text → Manifest → Manifest
  pushed prefix uuid bytes m = stamp (with_snapshot (pushed_ref prefix uuid bytes m) m)

  key-ne_empty : (prefix name : Text) → is_empty (push_key prefix name) ≡ false
  key-ne_empty [] name = refl
  key-ne_empty (c ∷ prefix) name = refl

  pushed-valid :
      (prefix uuid bytes : Text) (m : Manifest)
      → validate m ≡ ok tt
      → pos 0 ≤ℤ m.seq
      → validate (pushed prefix uuid bytes m) ≡ ok tt
  unfolding validate with_snapshot
  pushed-valid prefix uuid bytes m valid low = ground (arith, valid, key-ne_empty prefix uuid)

  -- The last part of a push.
  swap-runs :
      IsTag hash
      → RoundTrips env.codec
      → (key : Text) (m new : Manifest) (tag : Text) (s : S) → rest s
      → Holds env hash at rest quiet key m tag s
      → validate (stamp new) ≡ ok tt
      → IsPlain (stamp new)
      → (body : Text) × (env.codec.decode body ≡ some (stamp new))
        × Runs at rest
            (attempt (put_manifest env key new (if_match tag)) >>= or_mismatch env lib)
            s
            tt
            (written (at s) key (body, hash body))
  unfolding or_mismatch
  swap-runs tags codec key m new tag s r h valid plain =
      let (body, coded, decodes) = codec (stamp new) plain in
      let swap =
        put_manifest-matched env hash at rest quiet tags key m new body tag s r h valid coded in
      (
        body,
        decodes,
        runs_bind at rest _ _ s (ok (stamp new, hash body)) tt (runs_attempt at rest _ s _ swap)
            λ t rt at_t. runs_as at rest _ t tt (runs_pure at rest tt t rt) at_t,
      )

  -- A push to a store at rest whose manifest has the expected number succeeds.
  pub push-runs :
      IsTag hash
      → RoundTrips env.codec
      → (prefix bytes : Text) (m : Manifest) (tag : Text) (expected : ℤ) (s : S) → rest s
      → check_prefix prefix ≡ ok tt
      → Accepts lib bytes
      → Holds env hash at rest quiet (manifest_key prefix) m tag s
      → pos 0 ≤ℤ m.seq
      → IsPlain m
      → IsAscii prefix
      → length bytes < half64
      → is_stale expected m.seq ≡ false
      → (u body : Text) × (env.codec.decode body ≡ some (pushed prefix u bytes m))
        × Runs at rest (push env lib prefix (ok bytes) expected) s tt (
            written
              (written (at s) (push_key prefix u) (bytes, hash bytes))
              (manifest_key prefix)
              (body, hash body))
  unfolding push
  push-runs tags codec prefix bytes m tag expected s r named a h low plain ascii fits fresh =
      let key = manifest_key prefix in
      let v = validate_sqlite_file-runs env lib hash at rest quiet bytes s r a in
      let l =
        load_manifest-runs env hash at rest quiet key m tag v.end v.rests
          (Holds-as env hash at rest quiet key m tag s v.end (v.holds key) h) in
      let (u, letters, id) = quiet.uuid l.end l.rests in
      let up = upload_file-runs env hash at rest quiet (push_key prefix u) bytes id.end id.rests in
      let as_before : (j : Text) → at id.end j ≡ at s j = λ j. id.holds j ∙ l.holds j ∙ v.holds j in
      let stored : (j : Text)
          → at up.end j ≡ written (at s) (push_key prefix u) (bytes, hash bytes) j =
        λ j.
          up.holds j
          ∙ written-same (at id.end) (at s) (push_key prefix u) (bytes, hash bytes) as_before j in
      let here : at up.end key ≡ at s key =
        stored key
        ∙ written-other (at s) (push_key prefix u) key _ (manifest_key-ne-under prefix _) in
      let (body, decodes, swap) =
        swap-runs tags codec key m (with_snapshot (pushed_ref prefix u bytes m) m) tag up.end
          up.rests (Holds-as env hash at rest quiet key m tag s up.end here h)
          (pushed-valid prefix u bytes m h.accepted low)
          (with_snapshot-IsPlain m _ plain
            (push_key-IsAscii prefix u ascii letters, plain.seq, fits)) in
      (
        u,
        body,
        decodes,
        runs_step at rest _ _ s tt _ named (
            runs_then at rest _ _ s bytes _ v (
              runs_then at rest _ _ v.end (m, tag) _ l
                (runs_step at rest _ _ l.end tt _ (rw fresh) (
                  runs_then at rest _ _ l.end u _ id (
                    runs_then at rest _ _ id.end (pos (length bytes)) _ up (
                      runs_as at rest _ up.end tt swap
                        (written-same (at up.end) _ key (body, hash body) stored))))))),
      )

  -- In a store at rest whose manifest has the expected number, which is not negative, a push of a
  -- file that SQLite accepts succeeds; a pull from the store as the push leaves it succeeds too
  -- and gives the same file, the manifest's number and schema version, the size of the file and
  -- an empty log. This is for usable tags; a codec that reads back every manifest with keys in
  -- ASCII and numbers of 64 bits, as the manifest and the prefix are; a prefix that is accepted;
  -- and a file of less than 2 ^ 63 bytes.
  pub pull-push :
      IsTag hash
      → RoundTrips env.codec
      → (prefix bytes : Text) (m : Manifest) (tag : Text) (expected : ℤ) (s : S) → rest s
      → check_prefix prefix ≡ ok tt
      → Accepts lib bytes
      → Holds env hash at rest quiet (manifest_key prefix) m tag s
      → pos 0 ≤ℤ m.seq
      → IsPlain m
      → IsAscii prefix
      → length bytes < half64
      → is_stale expected m.seq ≡ false
      → (t u : S) × (push env lib prefix (ok bytes) expected s ≡ (ok tt, t))
        × (pull env lib prefix t ≡ (ok (pulled_again m bytes, bytes), u))
  unfolding with_snapshot
  pull-push tags codec prefix bytes m tag expected s r named a h low plain ascii fits fresh =
      let (u, body, decodes, done) =
        push-runs tags codec prefix bytes m tag expected s r named a h low plain ascii fits fresh in
      let key = manifest_key prefix in
      let snapshot : at done.end (push_key prefix u) ≡ some (bytes, hash bytes) =
        done.holds (push_key prefix u)
        ∙ written-other (written (at s) (push_key prefix u) (bytes, hash bytes)) key _ _
            (λ e. manifest_key-ne-under prefix _ (sym e))
        ∙ written_self (at s) (push_key prefix u) (bytes, hash bytes) in
      let stands : Holds env hash at rest quiet key (pushed prefix u bytes m) (hash body) done.end =
        record {
          body = body;
          stored =
              done.holds key
              ∙ written_self (written (at s) (push_key prefix u) (bytes, hash bytes)) key
                  (body, hash body);
          decodes = decodes;
          accepted = pushed-valid prefix u bytes m h.accepted low;
        } in
      let fetched =
        pull-runs env lib hash at rest quiet prefix (pushed prefix u bytes m) (hash body) bytes
          (hash bytes) done.end done.rests named stands refl refl snapshot in
      (done.end, fetched.end, done.run, fetched.run)

  -- A push that expects another number is refused, and the store stays as it is.
  pub push-refused :
      (prefix bytes : Text) (m : Manifest) (tag : Text) (expected : ℤ) (s : S)
      → rest s
      → check_prefix prefix ≡ ok tt
      → Accepts lib bytes
      → Holds env hash at rest quiet (manifest_key prefix) m tag s
      → is_stale expected m.seq ≡ true
      → (t : S) × ((j : Text) → at t j ≡ at s j)
        × (push env lib prefix (ok bytes) expected s ≡ (err seq_mismatch, t))
  unfolding push ◌>>=◌
  push-refused prefix bytes m tag expected s r named a h stale =
      let v = validate_sqlite_file-runs env lib hash at rest quiet bytes s r a in
      let key = manifest_key prefix in
      let l =
        load_manifest-runs env hash at rest quiet key m tag v.end v.rests
          (Holds-as env hash at rest quiet key m tag s v.end (v.holds key) h) in
      (l.end, λ j. l.holds j ∙ v.holds j, rw (named, v.run, l.run, stale) refl)
