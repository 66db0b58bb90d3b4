-- ===== src/Cli/Pulled.antt =====
-- cmd/s3db/main.go: what a pull leaves in the local files.
use s3db.Base.{
  ℕ, int_eq, Text, codes, is_empty, ◌≡◌, ◌≢◌, sym, ap, ◌∙◌, subst, Bool, false, length,
  length-append, arith,
}
use s3db.Base.Decimal.{show_int}
use s3db.Errors.{Error, missing_file}
use s3db.Result.{Result, ok, fail_if}
use s3db.Result.Exec.{Exec, ◌>>=◌, by_bind, lift-eq-ok}
use s3db.Env.{Env}
use s3db.Sqlite.{Sqlite}
use s3db.Transfer.{PullInfo, pull}
use s3db.Cli.{Target}
use s3db.Cli.Shell.{Os, Shell, at_store, at_files, say, Given, PullFlags, sidecar, ClientOptions}
use s3db.Cli.Files.{target_of, new_store, write_sidecar, say_pulled, cmd_pull}

abbrev pub pull_flags : Given → Text → PullFlags
pull_flags g path = record { given = g; out = path; no_seq = false }

-- What is relied on of the local files: a write that succeeds changes one file.
pub record IsOs {L : Type 0} (os : Os L) : Type 0 where
  pub written :
      (path bytes : Text) (l l' : L)
      → os.write_file path bytes l ≡ (ok tt, l')
      → os.read_file path l' ≡ ok bytes
  pub others :
      (path bytes other : Text) (l l' : L)
      → os.write_file path bytes l ≡ (ok tt, l')
      → path ≢ other
      → os.read_file other l' ≡ os.read_file other l

fail_if-ok : (b : Bool) (e : Error) → fail_if b e ≡ ok tt → b ≡ false
fail_if-ok b e h = ground (arith, h)

sidecar-ne : (path : Text) → sidecar path ≢ path
sidecar-ne path h =
    let same : length (sidecar path) ≡ length path = ap length h in
    absurd (omega (arith, same, length-append {0} path (codes ".seq")))

module _ {S L : Type 0} (os : Os L) (connect : ClientOptions → Text → Env S) (lib : Sqlite)
    (fixed1 : ℕ → ℕ → Text) (empty : Result Text) (law : IsOs os) where
  at_store-ok :
      {A : Type 0} (m : Exec S A) (sh sh' : Shell S L) (a : A)
      → at_store m sh ≡ (ok a, sh')
      → (m sh.out ≡ (ok a, sh'.out)) × (sh'.files ≡ sh.files)
  unfolding at_store
  at_store-ok m sh sh' a h = ((λ i. ((h i).0, (h i).1.out)), ap (λ q. q.1.files) (sym h))

  at_files-ok :
      {A : Type 0} (m : Exec L A) (sh sh' : Shell S L) (a : A)
      → at_files m sh ≡ (ok a, sh')
      → (m sh.files ≡ (ok a, sh'.files)) × (sh'.out ≡ sh.out)
  unfolding at_files
  at_files-ok m sh sh' a h = ((λ i. ((h i).0, (h i).1.files)), ap (λ q. q.1.out) (sym h))

  say_pulled-ok :
      (tgt : Target) (path : Text) (info : PullInfo) (sh sh' : Shell S L)
      → say_pulled os connect lib fixed1 empty tgt path info sh ≡ (ok tt, sh')
      → (sh'.out ≡ sh.out) × (sh'.files ≡ sh.files)
  unfolding say_pulled say ◌>>=◌
  say_pulled-ok tgt path info sh sh' h = (ap (λ q. q.1.out) (sym h), ap (λ q. q.1.files) (sym h))

  abbrev pub store_of : Target → Env S
  store_of tgt = new_store os connect lib fixed1 empty tgt.bucket

  -- What a pull that succeeded leaves in the local files.
  pub record Pulled (tgt : Target) (path : Text) (sh sh1 : Shell S L) : Type 0 where
    pub info : PullInfo
    pub bytes : Text
    pub named : is_empty path ≡ false
    pub run : pull (store_of tgt) lib tgt.prefix sh.out ≡ (ok (info, bytes), sh1.out)
    pub file : os.read_file path sh1.files ≡ ok bytes
    pub number : os.read_file (sidecar path) sh1.files ≡ ok (show_int info.seq)

  pub cmd_pull-Pulled :
      (g : Given) (path : Text) (tgt : Target) (sh sh1 : Shell S L)
      → target_of g ≡ ok tgt
      → cmd_pull os connect lib fixed1 empty (pull_flags g path) sh ≡ (ok tt, sh1)
      → Pulled tgt path sh sh1
  unfolding cmd_pull write_sidecar
  cmd_pull-Pulled g path tgt sh sh1 aimed h = by_bind _ _ sh h λ tgt' a0 found r0.
      by_bind _ _ a0 r0 λ u a1 named r1. by_bind _ _ a1 r1 λ (info, bytes) a2 got r2.
        by_bind _ _ a2 r2 λ v a3 wrote r3. by_bind _ _ a3 r3 λ w a4 noted r4.
          let (got_store, got_files) = at_store-ok _ a1 a2 (info, bytes) got in
          let (file_written, file_out) = at_files-ok _ a2 a3 v wrote in
          let (seq_written, seq_out) = at_files-ok _ a3 a4 w noted in
          let (end_out, end_files) = say_pulled-ok _ _ _ a4 sh1 r4 in
          let same : tgt' ≡ tgt = cc ((lift-eq-ok _ sh found).0, aimed) in
          let (nonempty, from_a0) = lift-eq-ok _ a0 named in
          let start : a1 ≡ sh = sym ((lift-eq-ok _ sh found).1 ∙ from_a0) in
          let at_end : a2.out ≡ sh1.out = sym (end_out ∙ seq_out ∙ file_out) in
          let read_at_end = λ (p : Text). ap (λ l. os.read_file p l) end_files in
          record {
            info = info;
            bytes = bytes;
            named = fail_if-ok _ missing_file nonempty;
            run =
                subst (λ o. pull (store_of tgt) lib tgt.prefix sh.out ≡ (ok (info, bytes), o))
                  at_end
                  (subst
                    (λ x. pull (store_of tgt) lib tgt.prefix x.out ≡ (ok (info, bytes), a2.out))
                    start
                    (subst (λ t. pull (store_of t) lib t.prefix a1.out ≡ (ok (info, bytes), a2.out))
                      same got_store));
            file =
                read_at_end path
                ∙ law.others (sidecar path) (show_int info.seq) path a3.files a4.files seq_written
                    (sidecar-ne path)
                ∙ law.written path bytes a2.files a3.files file_written;
            number =
                read_at_end (sidecar path)
                ∙ law.written (sidecar path) (show_int info.seq) a3.files a4.files seq_written;
          }
