-- ===== src/Cli/Workflow.antt =====
-- cmd/s3db/main.go: a pull, an edit of the file, and a push of it.
use s3db.Base.{
  ℕ, ◌<◌, ℤ, pos, negsuc, ◌≤ℤ◌, int_eq, Text, is_empty, ◌≡◌, ◌≢◌, refl, sym, ap, ◌∙◌, ◌⊎◌, inl, inr,
  Bool, false, some, length, arith,
}
use s3db.Base.Int.{half64}
use s3db.Base.Decimal.{show_int}
use s3db.Base.Numerals.{parse_int-show_int}
use s3db.Errors.{seq_mismatch}
use s3db.Result.{Result, ok, err}
use s3db.Result.Exec.{◌>>=◌, by_bind, lift-eq-ok}
use s3db.Env.{Env}
use s3db.Sqlite.{Sqlite}
use s3db.Base.{Bool-cases}
use s3db.Blob.{Contents, IsTag, written}
use s3db.Env.{RoundTrips, IsPlain, IsAscii}
use s3db.Env.Quiet.{IsQuiet}
use s3db.Env.Quiet.Manifests.{Holds, written_self, written-other}
use s3db.Manifest.{Manifest, with_snapshot}
use s3db.Manifest.Io.{stamp}
use s3db.Client.{manifest_key}
use s3db.Transfer.Fetched.{Accepts, manifest_key-ne-under}
use s3db.Transfer.Again.{push-runs, push-refused}
use s3db.Transfer.{PullInfo, pull, push, push_key, is_stale, check_prefix}
use s3db.Cli.{Target}
use s3db.Cli.Shell.{
  Os, Shell, at_store, at_files, say, warn, Given, PushFlags, sidecar, ClientOptions,
}
use s3db.Cli.Files.{target_of, push_number, after_push, cmd_pull, cmd_push}
use s3db.Cli.Pulled.{IsOs, pull_flags, store_of, cmd_pull-Pulled}

abbrev pub push_flags : Given → Text → Bool → PushFlags
push_flags g path create = record {
  given = g;
  file = path;
  seq = negsuc 1;
  force = false;
  create = create;
}

module _ {S L : Type 0} (os : Os L) (connect : ClientOptions → Text → Env S) (lib : Sqlite)
    (fixed1 : ℕ → ℕ → Text) (empty : Result Text) (law : IsOs os) where
  -- Without -seq and -force, a push expects the number in the sidecar file.
  push_number-sidecar :
      (g : Given) (path : Text) (create : Bool) (l : L) (n : ℕ)
      → n < half64
      → os.read_file (sidecar path) l ≡ ok (show_int (pos n))
      → push_number os connect lib fixed1 empty (push_flags g path create) l ≡ ok (pos n)
  unfolding push_number
  push_number-sidecar g path create l n fits noted =
      ground (arith, noted, parse_int-show_int (pos n) fits)

  -- After a push that succeeded nothing can fail, and the store stays.
  after_push-done :
      (f : PushFlags) (tgt : Target) (expected : ℤ) (src : Result Text) (sh : Shell S L)
      → ((after_push os connect lib fixed1 empty f tgt expected src (ok tt) sh).0 ≡ ok tt)
        × ((after_push os connect lib fixed1 empty f tgt expected src (ok tt) sh).1.out ≡ sh.out)
  unfolding after_push at_files say ◌>>=◌
  after_push-done f tgt expected src sh = ground arith

  after_push-mismatch :
      (f : PushFlags) (tgt : Target) (expected : ℤ) (src : Result Text) (sh : Shell S L)
      → ((after_push os connect lib fixed1 empty f tgt expected src (err seq_mismatch) sh).0
          ≡ err seq_mismatch)
        × ((after_push os connect lib fixed1 empty f tgt expected src (err seq_mismatch) sh).1.out
            ≡ sh.out)
  unfolding after_push warn ◌>>=◌
  after_push-mismatch f tgt expected src sh = ground arith

  cmd_push-step :
      (f : PushFlags) (tgt : Target) (expected : ℤ) (r : Result (Unit {0})) (sh : Shell S L) (t : S)
      → target_of f.given ≡ ok tgt
      → is_empty f.file ≡ false
      → push_number os connect lib fixed1 empty f sh.files ≡ ok expected
      → push
          (store_of os connect lib fixed1 empty law tgt)
          lib
          tgt.prefix
          (os.read_file f.file sh.files)
          expected
          sh.out
        ≡ (r, t)
      → cmd_push os connect lib fixed1 empty f sh
        ≡ after_push os connect lib fixed1 empty f tgt expected
            (os.read_file f.file sh.files)
            r
            (record sh { out = t })
  unfolding cmd_push at_store ◌>>=◌
  cmd_push-step f tgt expected r sh t aimed named numbered pushed =
      rw (aimed, named, numbered, pushed) refl

  pull-named :
      (env : Env S) (prefix : Text) (s t : S) (x : PullInfo × Text)
      → pull env lib prefix s ≡ (ok x, t)
      → check_prefix prefix ≡ ok tt
  unfolding pull
  pull-named env prefix s t x h =
      by_bind _ _ s h λ u a named rest. (lift-eq-ok (check_prefix prefix) s named).0

  module _ (hash : Text → Text) (at : S → Contents) (rest : S → Type 0) where
    abbrev replacing : Target → Manifest → Text → Text → Manifest
    replacing tgt m edited uuid =
        with_snapshot
          (record { key = push_key tgt.prefix uuid; seq = m.seq; size = pos (length edited) }) m

    -- The push replaced the manifest by one with the file as its snapshot.
    pub record Replaced (tgt : Target) (m : Manifest) (edited : Text)
        (done : Result (Unit {0}) × Shell S L) : Type 0 where
      pub succeeded : done.0 ≡ ok tt
      pub uuid : Text
      pub body : Text
      pub decodes :
          (store_of os connect lib fixed1 empty law tgt).codec.decode body
          ≡ some (stamp (replacing tgt m edited uuid))
      pub manifest : at done.1.out (manifest_key tgt.prefix) ≡ some (body, hash body)
      pub snapshot : at done.1.out (push_key tgt.prefix uuid) ≡ some (edited, hash edited)

    -- The push was refused, and changed nothing in the store.
    pub record Refused (before : S) (done : Result (Unit {0}) × Shell S L) : Type 0 where
      pub mismatch : done.0 ≡ err seq_mismatch
      pub unchanged : (j : Text) → at done.1.out j ≡ at before j

    -- After a pull that succeeded, edits of the file that leave the sidecar file, and whatever
    -- others wrote to the store, a push of the file without -seq and -force does this, where
    -- nobody writes to the store while it runs and SQLite accepts the file: if the manifest of
    -- the store now has the number that was pulled, it succeeds, and the new manifest has the
    -- edited file as its snapshot; else it is refused with a mismatch, and the store holds what
    -- it held. This is for usable tags; a codec that reads back every manifest with keys in ASCII
    -- and numbers of 64 bits, as the manifest and the prefix are; a pulled number below 2 ^ 63,
    -- and one that is not negative in the store; and a file of less than 2 ^ 63 bytes.
    pub cmd_push-cmd_pull :
        IsTag hash
        → (g : Given) (path : Text) (create : Bool) (tgt : Target) (sh sh1 : Shell S L) (l : L)
          (s : S) (info : PullInfo) (bytes edited tag : Text) (m : Manifest) (n : ℕ)
          (quiet : IsQuiet (store_of os connect lib fixed1 empty law tgt) hash at rest)
        → RoundTrips (store_of os connect lib fixed1 empty law tgt).codec
        → target_of g ≡ ok tgt
        → cmd_pull os connect lib fixed1 empty (pull_flags g path) sh ≡ (ok tt, sh1)
        → (pull (store_of os connect lib fixed1 empty law tgt) lib tgt.prefix sh.out).0
          ≡ ok (info, bytes)
        → info.seq ≡ pos n
        → n < half64
        → os.read_file (sidecar path) l ≡ os.read_file (sidecar path) sh1.files
        → os.read_file path l ≡ ok edited
        → Accepts lib edited
        → rest s
        → Holds
            (store_of os connect lib fixed1 empty law tgt)
            hash
            at
            rest
            quiet
            (manifest_key tgt.prefix)
            m
            tag
            s
        → pos 0 ≤ℤ m.seq
        → IsPlain m
        → IsAscii tgt.prefix
        → length edited < half64
        → let done =
            cmd_push os connect lib fixed1 empty
              (push_flags g path create)
              (record sh1 { out = s; files = l }) in
          ((m.seq ≡ info.seq) × Replaced tgt m edited done) ⊎ ((m.seq ≢ info.seq) × Refused s done)
    unfolding with_snapshot
    cmd_push-cmd_pull tags g path create tgt sh sh1 l s info bytes edited tag m n quiet codec aimed
          pulled gave at_n fits kept read accepts r stands low plain ascii small =
        let p = cmd_pull-Pulled os connect lib fixed1 empty law g path tgt sh sh1 aimed pulled in
        let both : ◌≡◌ {A = PullInfo × Text} (p.info, p.bytes) (info, bytes) =
          cc (ap (λ q. q.0) p.run, gave) in
        let number : p.info.seq ≡ pos n = ap (λ q. q.0.seq) both ∙ at_n in
        let noted : os.read_file (sidecar path) l ≡ ok (show_int (pos n)) =
          kept ∙ p.number ∙ ap (λ z. ok (show_int z)) number in
        let numbered = push_number-sidecar g path create l n fits noted in
        let named =
          pull-named (store_of os connect lib fixed1 empty law tgt) tgt.prefix sh.out sh1.out _
            p.run in
        let f = push_flags g path create in
        let edit : Shell S L = record sh1 { out = s; files = l } in
        elim (Bool-cases (is_stale (pos n) m.seq)) [
          | inl stale ↦
              let (t, same, lost) =
                push-refused (store_of os connect lib fixed1 empty law tgt) lib hash at rest quiet
                  tgt.prefix edited m tag (pos n) s r named accepts stands stale in
              let end =
                cmd_push-step f tgt (pos n) (err seq_mismatch) edit t aimed p.named numbered
                  (rw read lost) in
              let last =
                after_push-mismatch f tgt (pos n) (os.read_file path l) (record edit { out = t }) in
              inr (
                ground (arith, stale, at_n),
                record {
                  mismatch = ap (λ d. d.0) end ∙ last.0;
                  unchanged = λ j. ap (λ d. at d.1.out j) end ∙ ap (λ o. at o j) last.1 ∙ same j;
                },
              )
          | inr fresh ↦
              let (u, body, decodes, won) =
                push-runs (store_of os connect lib fixed1 empty law tgt) lib hash at rest quiet tags
                  codec tgt.prefix edited m tag (pos n) s r named accepts stands low plain ascii
                  small fresh in
              let end =
                cmd_push-step f tgt (pos n) (ok tt) edit won.end aimed p.named numbered
                  (rw read (won.run)) in
              let last =
                after_push-done f tgt (pos n) (os.read_file path l)
                  (record edit { out = won.end }) in
              let holds =
                λ (j : Text). ap (λ d. at d.1.out j) end ∙ ap (λ o. at o j) last.1 ∙ won.holds j in
              inl (
                ground (arith, fresh, at_n),
                record {
                  succeeded = ap (λ d. d.0) end ∙ last.0;
                  uuid = u;
                  body = body;
                  decodes = decodes;
                  manifest =
                      holds (manifest_key tgt.prefix)
                      ∙ written_self (written (at s) (push_key tgt.prefix u) (edited, hash edited))
                          (manifest_key tgt.prefix) (body, hash body);
                  snapshot =
                      holds (push_key tgt.prefix u)
                      ∙ written-other (written (at s) (push_key tgt.prefix u) (edited, hash edited))
                          (manifest_key tgt.prefix) (push_key tgt.prefix u) _
                          (λ e. manifest_key-ne-under tgt.prefix _ (sym e))
                      ∙ written_self (at s) (push_key tgt.prefix u) (edited, hash edited);
                },
              )
        ]
