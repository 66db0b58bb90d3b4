-- ===== src/Commit/Follows.antt =====
-- What one client commits, another one takes in.
use s3db.Base.{
  ℕ, suc, ◌+◌, ◌<◌, ℤ, pos, add64, lt_int, int_eq, text_eq, ◌≡◌, refl, ◌∙◌, Text, some, true, false,
  not, ◌||◌, List, length, get_elem?, [], ◌∷◌, ◌++◌, ◌==◌, arith, InRange64,
}
use s3db.Base.Int.{half64, add64_pos}
use s3db.Result.{ok}
use s3db.Result.Exec.{Exec, ◌>>=◌}
use s3db.Blob.{Contents, IsTag}
use s3db.Env.{Env, RoundTrips, IsPlain, IsAscii}
use s3db.Env.Quiet.{IsQuiet}
use s3db.Env.Quiet.Manifests.{Holds, load_manifest-runs}
use s3db.Sqlite.{Sqlite}
use s3db.Session.{capture, apply_changeset}
use s3db.Manifest.{Manifest, LogEntry, validate, append_log}
use s3db.Manifest.Valid.{IsValid, validate-iff-IsValid}
use s3db.Manifest.Update.{entry-seq}
use s3db.Manifest.Io.{load_manifest}
use s3db.Client.{CommitConfig, manifest_key, outside}
use s3db.Sync.{apply_log, apply_bodies, sync_to_manifest, newer, check_schema, refresh_manifest}
use s3db.Commit.{do_update}
use s3db.Commit.Quiet.{working, extended, do_update-Commits}

module _ {S : Type 0} (env : Env S) where
  -- A log of old entries with one more.
  newer-append_one :
      (from : ℤ) (log : List LogEntry) (e : LogEntry)
      → ((i : ℕ) (x : LogEntry) → get_elem? log i ≡ some x → lt_int from x.seq ≡ false)
      → lt_int from e.seq ≡ true
      → newer env from (log ++ e ∷ []) ≡ e ∷ []
  unfolding newer
  newer-append_one from [] e old new = ground arith
  newer-append_one from (x ∷ log) e old new =
      ground (arith, old 0 x refl, newer-append_one from log e (λ i y g. old (suc i) y g) new)

module _ {S : Type 0} (env : Env S) (lib : Sqlite) (cfg : CommitConfig) (hash : Text → Text)
    (at : S → Contents) (rest : S → Type 0) (quiet : IsQuiet env hash at rest) where
  open lib use {Conn}

  bodies_one :
      (seq next : ℤ) (cs : Text) (conn end : Conn)
      → apply_changeset lib cs conn ≡ (ok tt, end)
      → apply_bodies env lib seq ((next, cs) ∷ []) conn ≡ (next, ok tt, end)
  unfolding apply_bodies
  bodies_one seq next cs conn end applied = ground (arith, applied)

  apply_one :
      (log : List LogEntry) (t u : S) (conn end : Conn) (seq : ℤ) (snapshot etag disk cs tag : Text)
      (m : Manifest) (e : LogEntry)
      → newer env seq log ≡ e ∷ []
      → env.store.get e.key t ≡ (ok (cs, tag), u)
      → apply_changeset lib cs conn ≡ (ok tt, end)
      → apply_log env lib log
          (working env lib cfg hash at rest quiet t conn seq snapshot m etag disk)
        ≡ (ok tt, working env lib cfg hash at rest quiet u end e.seq snapshot m etag disk)
  unfolding apply_log ◌>>=◌
  apply_one log t u conn end seq snapshot etag disk cs tag m e more got applied =
      rw (more, got) (rw (bodies_one seq e.seq cs conn end applied) refl)

  -- A refresh that finds one more entry, by what its calls answer.
  one_more :
      (s t u : S) (conn end : Conn) (seq : ℤ) (snapshot etag etag' disk cs tag : Text)
      (m m' : Manifest) (e : LogEntry)
      → load_manifest env (manifest_key cfg.prefix) s ≡ (ok (m', etag'), t)
      → check_schema env lib m'.schema_version cfg.schema_ver ≡ ok tt
      → (lt_int seq m'.snapshot.seq || not (snapshot == m'.snapshot.key)) ≡ false
      → newer env seq m'.log ≡ e ∷ []
      → env.store.get e.key t ≡ (ok (cs, tag), u)
      → apply_changeset lib cs conn ≡ (ok tt, end)
      → refresh_manifest env lib cfg
          (working env lib cfg hash at rest quiet s conn seq snapshot m etag disk)
        ≡ (ok tt, working env lib cfg hash at rest quiet u end e.seq snapshot m' etag' disk)
  unfolding refresh_manifest sync_to_manifest outside ◌>>=◌
  one_more s t u conn end seq snapshot etag etag' disk cs tag m m' e loaded schema kept more got
        applied =
      rw (loaded, schema, kept)
        (rw (apply_one m'.log t u conn end seq snapshot etag' disk cs tag m' e more got applied)
          refl)

  -- A manifest whose numbers stay below 2 ^ 63, with the number of its snapshot.
  pub record Small (m : Manifest) (k : ℕ) : Type 0 where
    pub base : m.snapshot.seq ≡ pos k
    pub room : k + (length m.log + 1) < half64

  Small-seq :
      (m : Manifest) (k : ℕ)
      → Small m k
      → validate m ≡ ok tt
      → IsValid m × InRange64 m.snapshot.seq × (m.seq ≡ pos (k + length m.log))
  Small-seq m k small accepted =
      let range : InRange64 m.snapshot.seq = ground (arith, small.base, small.room) in
      let valid = (validate-iff-IsValid m range).0 accepted in
      (
        valid,
        range,
        valid.seq_end ∙ rw (small.base) (add64_pos k (length m.log) (omega (arith, small.room))),
      )

  newer-extended :
      (m : Manifest) (k : ℕ) (cs key : Text)
      → Small m k
      → validate m ≡ ok tt
      → let m' = extended env lib cfg hash at rest quiet m cs key in
        (m'.seq ≡ pos (k + (length m.log + 1)))
        × (newer env m.seq m'.log ≡ record { key = key; seq = m'.seq; size = pos (length cs) } ∷ [])
  unfolding append_log
  newer-extended m k cs key small accepted =
      let (valid, range, end) = Small-seq m k small accepted in
      let next : add64 m.seq (pos 1) ≡ pos (k + (length m.log + 1)) =
        ground (arith, end, small.room, add64_pos (k + length m.log) 1) in
      (
        next,
        newer-append_one env m.seq m.log _
            (λ i x g.
              ground (arith, entry-seq m k valid small.base (omega (arith, small.room)) i x g, end))
            (ground (arith, next, end)),
      )

  schema-met : (found expected : ℤ) → found ≡ expected → check_schema env lib found expected ≡ ok tt
  unfolding check_schema
  schema-met found expected e = ground arith

  -- When nobody else writes and the calls succeed, `doUpdate` commits at its first attempt, and
  -- the next refresh of another client that has all entries before this one takes the changeset
  -- in: both clients end with one manifest, one tag and one number, which is the next. This is
  -- for usable tags; a codec that reads back every manifest with keys in ASCII and numbers of 64
  -- bits, as the manifest and the prefix are; numbers below 2 ^ 63; at least one attempt; a
  -- function of the caller that is captured in a changeset of less than 2 ^ 63 bytes, which
  -- SQLite applies to the other client's database; and clients that expect the manifest's schema
  -- version.
  pub refresh_manifest-do_update :
      IsTag hash
      → RoundTrips env.codec
      → (fn : Exec Conn (Unit {0})) (n k : ℕ) (s : S) (conn end other other' : Conn)
        (etag etag' disk disk' cs : Text) (m old : Manifest)
      → cfg.max_retries ≡ suc n
      → IsPlain m
      → IsAscii cfg.prefix
      → length cs < half64
      → rest s
      → Small m k
      → m.schema_version ≡ cfg.schema_ver
      → Holds env hash at rest quiet (manifest_key cfg.prefix) m etag s
      → capture lib fn (lib.savepoint conn) ≡ (ok (some cs), end)
      → apply_changeset lib cs other ≡ (ok tt, other')
      → (t u : S) × (new : Manifest) × (tag : Text) × (new.seq ≡ pos (k + (length m.log + 1)))
        × (do_update env lib cfg fn
              (working env lib cfg hash at rest quiet s conn m.seq m.snapshot.key m etag disk)
            ≡ (
              ok tt,
              working env lib cfg hash at rest quiet t
                  (lib.release end)
                  new.seq
                  m.snapshot.key
                  new
                  tag
                  disk,
            ))
        × (refresh_manifest env lib cfg
              (working env lib cfg hash at rest quiet t other m.seq m.snapshot.key old etag' disk')
            ≡ (
              ok tt,
              working env lib cfg hash at rest quiet u other' new.seq m.snapshot.key new tag disk',
            ))
  unfolding append_log
  refresh_manifest-do_update tags codec fn n k s conn end other other' etag etag' disk disk' cs m
        old some_retries plain ascii fits r small schema h captured applied =
      let (valid, range, at_end) = Small-seq m k small h.accepted in
      let done =
        do_update-Commits env lib cfg hash at rest quiet tags codec fn n s conn end m.seq
          m.snapshot.key etag disk cs m some_retries plain ascii fits r range h captured in
      let new = extended env lib cfg hash at rest quiet m cs done.key in
      let (next, more) = newer-extended m k cs done.key small h.accepted in
      let l =
        load_manifest-runs env hash at rest quiet (manifest_key cfg.prefix) new done.tag done.out
          done.rests done.stands in
      let got = quiet.get done.key cs (hash cs) l.end l.rests (l.holds done.key ∙ done.stored) in
      (
        done.out,
        got.end,
        new,
        done.tag,
        next,
        done.run,
        one_more done.out l.end got.end other other' m.seq m.snapshot.key etag' done.tag disk' cs
            (hash cs) old new _ l.run (schema-met _ _ schema) (ground (arith, at_end, small.base))
            more got.run applied,
      )
