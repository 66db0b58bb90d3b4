-- ===== src/Cli/Files.antt =====
-- cmd/s3db/main.go: `init`, `pull` and `push`.
use s3db.Base.{
  ℕ, ℤ, pos, lt_int, Text, codes, is_empty, Bool, true, false, not, ◌&&◌, Option, none, some, [],
  ◌++◌, if◌then◌else◌,
}
use s3db.Base.Decimal.{show_int}
use s3db.Base.Numerals.{parse_int, trim_space}
use s3db.Errors.{Error, is_not_found, seq_mismatch, missing_file, bad_number}
use s3db.Result.{Result, ok, err, fail_if}
use s3db.Result.Exec.{Exec, pure, raise, lift, current, attempt, ◌>>=◌, ◌>>◌}
use s3db.Env.{Env}
use s3db.Sqlite.{Sqlite}
use s3db.Transfer.{PullInfo, init, pull, push}
use s3db.Cli.{Target, show_target, parse_target, expected_seq}
use s3db.Cli.Shell.{
  Os, Shell, at_store, at_files, say, warn, Given, InitFlags, PullFlags, PushFlags, sidecar,
  format_bytes, ClientOptions, client_options,
}

-- `strconv.ParseInt(strings.TrimSpace(text), 10, 64)`
abbrev or_bad_number : Option ℤ → Result ℤ
or_bad_number none = err bad_number
or_bad_number (some n) = ok n

abbrev pub number_of : Text → Result ℤ
number_of text = or_bad_number (parse_int (trim_space text))

abbrev pub target_of : Given → Result Target
target_of g = parse_target g.args g.bucket g.prefix

-- `fmt.Sprintf("%s%s%s%s", ...)` of a line that names two things
abbrev line : Text → Text → Text → Text → Text
line a b c d = a ++ (b ++ (c ++ d))

abbrev is_seq_mismatch : Error → Bool
is_seq_mismatch seq_mismatch = true
is_seq_mismatch _ = false

-- `connect` gives the store of a bucket, `empty` is the file of an empty database.
module _ {S L : Type 0} (os : Os L) (connect : ClientOptions → Text → Env S) (lib : Sqlite)
    (fixed1 : ℕ → ℕ → Text) (empty : Result Text) where
  -- `newStore`
  unfoldable pub new_store : Text → Env S
  new_store bucket = connect (client_options os.getenv) bucket

  abbrev source_file : Text → L → Option (Result Text)
  source_file path l = if is_empty path then none else some (os.read_file path l)

  -- `cmdInit`
  unfoldable pub cmd_init : InitFlags → Exec (Shell S L) (Unit {0})
  unfolding new_store
  cmd_init f = do
    tgt ← lift (target_of f.given)
    sh ← current
    at_store (init (new_store tgt.bucket) lib tgt.prefix (source_file f.file sh.files) empty)
    say (
        if is_empty f.file
        then line (codes "Initialized ") (show_target tgt) (codes " (empty)") []
        else line (codes "Initialized ") (show_target tgt) (codes " from ") f.file)

  -- The sidecar file of `cmdPull`.
  unfoldable pub write_sidecar : Text → ℤ → Exec (Shell S L) (Unit {0})
  write_sidecar path seq = at_files (os.write_file (sidecar path) (show_int seq))

  unfoldable pub say_pulled : Target → Text → PullInfo → Exec (Shell S L) (Unit {0})
  unfolding format_bytes
  say_pulled tgt path info = do
    say (line (codes "Pulled ") (show_target tgt) (codes " to ") path)
    say (codes "  seq:            " ++ show_int info.seq)
    say (codes "  schema_version: " ++ show_int info.schema_version)
    say (codes "  snapshot size:  " ++ format_bytes fixed1 info.snapshot_size)
    say (codes "  log entries:    " ++ show_int (pos info.log_entries))

  -- `cmdPull`; the file is written where `Pull` renames and closes it.
  unfoldable pub cmd_pull : PullFlags → Exec (Shell S L) (Unit {0})
  unfolding new_store write_sidecar say_pulled
  cmd_pull f = do
    tgt ← lift (target_of f.given)
    lift (fail_if (is_empty f.out) missing_file)
    (info, bytes) ← at_store (pull (new_store tgt.bucket) lib tgt.prefix)
    at_files (os.write_file f.out bytes)
    if f.no_seq then pure tt else write_sidecar f.out info.seq
    say_pulled tgt f.out info

  -- The number that `cmdPush` expects, with the local files as they are.
  unfoldable pub push_number : PushFlags → L → Result ℤ
  unfolding expected_seq
  push_number f l = expected_seq f.seq f.force f.create (os.read_file (sidecar f.file) l) number_of

  -- The database is created from the file; an error of the sidecar file is dropped.
  unfoldable pub create_from : PushFlags → Target → Result Text → Exec (Shell S L) (Unit {0})
  create_from f tgt src = do
    at_store (init (new_store tgt.bucket) lib tgt.prefix (some src) empty)
    say (line (codes "Created ") (show_target tgt) (codes " from ") f.file)
    attempt (at_files (os.write_file (sidecar f.file) (codes "0")))
    pure tt

  unfoldable pub warn_advanced : Exec (Shell S L) (Unit {0})
  warn_advanced = do
    warn []
    warn (codes "The database has advanced since your last pull.")
    warn (codes "Pull again to get the latest, re-apply your changes, then push.")
    warn (codes "Or use -force to overwrite (DANGEROUS).")

  -- A sidecar file that is there gets the expected number.
  unfoldable pub update_sidecar : PushFlags → ℤ → Exec (Shell S L) (Unit {0})
  update_sidecar f expected = do
    sh ← current
    if not (lt_int expected (pos 0)) && os.exists (sidecar f.file) sh.files
        then (attempt (at_files (os.write_file (sidecar f.file) (show_int expected))) >> pure tt)
        else pure tt

  unfoldable pub say_pushed : PushFlags → Target → ℤ → Exec (Shell S L) (Unit {0})
  say_pushed f tgt expected = do
    say (line (codes "Pushed ") f.file (codes " to ") (show_target tgt))
    if lt_int expected (pos 0)
        then pure tt
        else say (
            line (codes "  seq: ") (show_int expected)
              (codes " (unchanged; push is a snapshot replacement)") [])

  -- What follows `Push`.
  unfoldable pub after_push :
      PushFlags → Target → ℤ → Result Text → Result (Unit {0}) → Exec (Shell S L) (Unit {0})
  unfolding create_from warn_advanced update_sidecar say_pushed
  after_push f tgt expected src (ok _) = update_sidecar f expected >> say_pushed f tgt expected
  after_push f tgt expected src (err e) =
      if is_not_found e && f.create
      then create_from f tgt src
      else ((if is_seq_mismatch e then warn_advanced else pure tt) >> raise e)

  -- `cmdPush`
  unfoldable pub cmd_push : PushFlags → Exec (Shell S L) (Unit {0})
  unfolding new_store push_number after_push
  cmd_push f = do
    tgt ← lift (target_of f.given)
    lift (fail_if (is_empty f.file) missing_file)
    sh ← current
    expected ← lift (push_number f sh.files)
    let src = os.read_file f.file sh.files
    r ← attempt (at_store (push (new_store tgt.bucket) lib tgt.prefix src expected))
    after_push f tgt expected src r
