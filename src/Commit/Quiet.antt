-- ===== src/Commit/Quiet.antt =====
-- `doUpdate` when nobody else writes: the first attempt commits.
use s3db.Base.{ℕ, suc, ℤ, ◌≡◌, refl, sym, ap, ◌∙◌, subst, Text, some, false, [], ◌∷◌, arith}
use s3db.Base.{InRange64, ◌≢◌}
use s3db.Base.Bytes.{byte, append-left_cancel}
use s3db.Result.{ok}
use s3db.Result.Exec.{Exec, ◌>>=◌}
use s3db.Blob.{Contents, IsTag, if_match, no_condition}
use s3db.Env.{Env, RoundTrips, IsPlain, IsAscii}
use s3db.Env.Plain.{changeset_key-IsAscii, epoch-IsAscii, append_log-IsPlain}
use s3db.Base.Int.{half64, add64-InRange64}
use s3db.Base.{length, ◌<◌, pos}
use s3db.Env.Quiet.{IsQuiet}
use s3db.Env.Quiet.Manifests.{
  Holds, Holds-as, written-other, written_self, put_manifest-matched, no_condition-meets,
}
use s3db.Sqlite.{Sqlite}
use s3db.Session.{capture}
use s3db.Manifest.{Manifest, validate, append_log, epoch}
use s3db.Manifest.Valid.{validate-iff-IsValid}
use s3db.Manifest.Update.{append_log-IsValid, stamp-IsValid}
use s3db.Manifest.Io.{put_manifest, stamp}
use s3db.Client.{live, CommitConfig, manifest_key, Client, outside, on_conn}
use s3db.Commit.{Attempt, first_attempt, changeset_key, new_entry, update_loop, do_update}

module _ {S : Type 0} (env : Env S) (lib : Sqlite) (cfg : CommitConfig) (hash : Text → Text)
    (at : S → Contents) (rest : S → Type 0) (quiet : IsQuiet env hash at rest) where
  open lib use {Conn}

  -- A client with an open connection and no open savepoint.
  abbrev pub working : S → Conn → ℤ → Text → Manifest → Text → Text → Client S Conn
  working s conn seq snapshot m etag disk = record {
    out = s;
    st = record {
      conn = live conn;
      local_seq = seq;
      snapshot_key = snapshot;
      manifest = m;
      etag = etag;
    };
    disk = disk;
    saved = false;
  }

  -- the attempt after the upload of a changeset
  abbrev pub uploaded : Text → Text → Attempt
  uploaded cs key = record { need_capture = false; cs = cs; cs_key = key; orphan = [] }

  -- the manifest that it leads to
  abbrev pub extended : Manifest → Text → Text → Manifest
  extended m cs key = stamp (append_log (new_entry env lib cfg (uploaded cs key) m) m)

  -- One round, by what its calls answer.
  round :
      (fn : Exec Conn (Unit {0})) (n : ℕ) (s t u v : S) (conn end : Conn) (seq : ℤ)
      (snapshot etag disk cs uuid tag cs_tag : Text) (m : Manifest)
      → capture lib fn (lib.savepoint conn) ≡ (ok (some cs), end)
      → env.uuid s ≡ (ok uuid, t)
      → env.store.put (changeset_key cfg.prefix (epoch m) uuid) cs no_condition t ≡ (ok cs_tag, u)
      → put_manifest env
          (manifest_key cfg.prefix)
          (append_log
            (new_entry env lib cfg (uploaded cs (changeset_key cfg.prefix (epoch m) uuid)) m)
            m)
          (if_match etag)
          u
        ≡ (ok (extended m cs (changeset_key cfg.prefix (epoch m) uuid), tag), v)
      → update_loop env lib cfg fn (suc n) 0 first_attempt (working s conn seq snapshot m etag disk)
        ≡ (
          ok tt,
          working v
              (lib.release end)
              (extended m cs (changeset_key cfg.prefix (epoch m) uuid)).seq
              snapshot
              (extended m cs (changeset_key cfg.prefix (epoch m) uuid))
              tag
              disk,
        )
  unfolding update_loop outside on_conn ◌>>=◌
  round fn n s t u v conn end seq snapshot etag disk cs uuid tag cs_tag m captured minted wrote
        swapped =
      rw (captured, minted, wrote, swapped) refl

  changeset_key-ne :
      (prefix epoch uuid : Text) → changeset_key prefix epoch uuid ≢ manifest_key prefix
  changeset_key-ne prefix epoch uuid h =
      let heads : ◌≡◌ {A = ℕ} b'c' b'm' = ap (λ t. byte t 0) (append-left_cancel prefix _ _ h) in
      absurd (omega (arith, heads))

  changeset_key-ne_empty : (prefix epoch uuid : Text) → changeset_key prefix epoch uuid ≢ []
  changeset_key-ne_empty [] epoch uuid h = cc
  changeset_key-ne_empty (c ∷ prefix) epoch uuid h = cc

  extended-valid :
      (m : Manifest) (cs key : Text)
      → InRange64 m.snapshot.seq
      → key ≢ []
      → validate m ≡ ok tt
      → validate (extended m cs key) ≡ ok tt
  unfolding append_log
  extended-valid m cs key range named accepted =
      let entry = new_entry env lib cfg (uploaded cs key) m in
      let valid =
        append_log-IsValid m entry ((validate-iff-IsValid m range).0 accepted) named refl in
      (validate-iff-IsValid (extended m cs key) range).1 (stamp-IsValid _ valid)

  -- What a commit leaves: the client and the store with the new manifest, and the changeset.
  pub record Commits (fn : Exec Conn (Unit {0})) (s : S) (conn end : Conn) (seq : ℤ)
      (snapshot etag disk cs : Text) (m : Manifest) : Type 0 where
    pub key : Text
    pub tag : Text
    pub out : S
    pub rests : rest out
    pub run : do_update env lib cfg fn (working s conn seq snapshot m etag disk) ≡ (
      ok tt,
      working out (lib.release end) (extended m cs key).seq snapshot (extended m cs key) tag disk,
    )
    pub stands : Holds env hash at rest quiet (manifest_key cfg.prefix) (extended m cs key) tag out
    pub stored : at out key ≡ some (cs, hash cs)
    pub others : (j : Text) → key ≢ j → manifest_key cfg.prefix ≢ j → at out j ≡ at s j

  -- One attempt is allowed at least.
  all_rounds :
      (fn : Exec Conn (Unit {0})) (n : ℕ) (c d : Client S Conn)
      → cfg.max_retries ≡ suc n
      → update_loop env lib cfg fn (suc n) 0 first_attempt c ≡ (ok tt, record d { saved = false })
      → do_update env lib cfg fn c ≡ (ok tt, record d { saved = false })
  unfolding do_update ◌>>=◌
  all_rounds fn n c d e h =
      let all : update_loop env lib cfg fn cfg.max_retries 0 first_attempt c
          ≡ (ok tt, record d { saved = false }) =
        subst
          (λ k.
            update_loop env lib cfg fn k 0 first_attempt c ≡ (ok tt, record d { saved = false }))
          (sym e) h in
      rw all refl

  -- When nobody else writes and the calls succeed, `doUpdate` commits at the first attempt.
  pub do_update-Commits :
      IsTag hash
      → RoundTrips env.codec
      → (fn : Exec Conn (Unit {0})) (n : ℕ) (s : S) (conn end : Conn) (seq : ℤ)
        (snapshot etag disk cs : Text) (m : Manifest)
      → cfg.max_retries ≡ suc n
      → IsPlain m
      → IsAscii cfg.prefix
      → length cs < half64
      → rest s
      → InRange64 m.snapshot.seq
      → Holds env hash at rest quiet (manifest_key cfg.prefix) m etag s
      → capture lib fn (lib.savepoint conn) ≡ (ok (some cs), end)
      → Commits fn s conn end seq snapshot etag disk cs m
  do_update-Commits tags codec fn n s conn end seq snapshot etag disk cs m some_retries plain ascii
        fits r range h captured =
      let mkey = manifest_key cfg.prefix in
      let (u, letters, id) = quiet.uuid s r in
      let key = changeset_key cfg.prefix (epoch m) u in
      let apart = changeset_key-ne cfg.prefix (epoch m) u in
      let up = quiet.put key cs no_condition id.end id.rests refl (no_condition-meets _) in
      let here : at up.end mkey ≡ at s mkey =
        up.holds mkey ∙ written-other (at id.end) key mkey _ apart ∙ id.holds mkey in
      let still = Holds-as env hash at rest quiet mkey m etag s up.end here h in
      let named =
        changeset_key-IsAscii cfg.prefix (epoch m) u ascii (epoch-IsAscii m plain) letters in
      let (body, coded, decodes) =
        codec (extended m cs key)
          (append_log-IsPlain m _ plain (named, add64-InRange64 m.seq (pos 1), fits)) in
      let accepted =
        extended-valid m cs key range (changeset_key-ne_empty cfg.prefix _ u) h.accepted in
      let swap =
        put_manifest-matched env hash at rest quiet tags mkey m
          (append_log (new_entry env lib cfg (uploaded cs key) m) m) body etag up.end up.rests still
          accepted coded in
      let unwritten : (j : Text) → mkey ≢ j → at swap.end j ≡ at up.end j =
        λ j ne. swap.holds j ∙ written-other (at up.end) mkey j _ ne in
      let done : Client S Conn =
        working swap.end (lib.release end) (extended m cs key).seq snapshot (extended m cs key)
          (hash body) disk in
      record {
        key = key;
        tag = hash body;
        out = swap.end;
        rests = swap.rests;
        run = all_rounds fn n _ done some_retries (
            round fn n s id.end up.end swap.end conn end seq snapshot etag disk cs u (hash body)
              (hash cs) m captured id.run up.run swap.run);
        stands = record {
          body = body;
          stored = swap.holds mkey ∙ written_self (at up.end) mkey _;
          decodes = decodes;
          accepted = accepted;
        };
        stored = unwritten key (λ e. apart (sym e)) ∙ up.holds key ∙ written_self (at id.end) key _;
        others = λ j from_key from_manifest.
            unwritten j from_manifest
            ∙ up.holds j
            ∙ written-other (at id.end) key j _ from_key
            ∙ id.holds j;
      }
