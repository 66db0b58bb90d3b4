-- ===== src/Cli/Main.antt =====
-- cmd/s3db/main.go: `main`, over the package `flag`.
use s3db.Base.{ℕ, Text, codes, text_eq, ◌||◌, List, [], ◌∷◌, ◌++◌, ◌==◌, if◌then◌else◌}
use s3db.Base.Assoc.{Assoc}
use s3db.Errors.{Error}
use s3db.Result.{Result, ok, err}
use s3db.Result.Exec.{Exec}
use s3db.Env.{Env}
use s3db.Sqlite.{Sqlite}
use s3db.Cli.Shell.{Os, Shell, Given, InitFlags, PullFlags, PushFlags, GcFlags, ClientOptions}
use s3db.Cli.Files.{cmd_init, cmd_pull, cmd_push}
use s3db.Cli.Upkeep.{cmd_status, cmd_compact, cmd_gc}

-- `fs.Parse` under `flag.ExitOnError`: the flags, or the status of an exit.
pub data Parsed (A : Type 0) : Type 0 where
  parsed : A → Parsed A
  exits : ℕ → Parsed A

pub record FlagSets : Type 0 where
  pub init_flags : List Text → Parsed InitFlags
  pub pull_flags : List Text → Parsed PullFlags
  pub push_flags : List Text → Parsed PushFlags
  pub status_flags : List Text → Parsed Given
  pub compact_flags : List Text → Parsed Given
  pub gc_flags : List Text → Parsed GcFlags

abbrev Outcome : Type 0 → Type 0
Outcome Sh = ℕ × Sh

-- `usage` is the text of the function of that name, `describe` that of an error, and
-- `quoted` is `%q`.
module _ {S L : Type 0} (os : Os L) (connect : ClientOptions → Text → Env S) (lib : Sqlite)
    (fixed1 : ℕ → ℕ → Text) (empty temp : Result Text) (remove : S → S)
    (order : Assoc (List Text) → Assoc (List Text)) (flags : FlagSets) (usage : Text)
    (describe : Error → Text) (quoted : Text → Text) where
  abbrev warned : Text → Shell S L → Shell S L
  warned text sh = record sh { warned = text ∷ sh.warned }

  -- `if err != nil { ...; os.Exit(1) }`
  abbrev finished : Result (Unit {0}) × Shell S L → Outcome (Shell S L)
  finished (ok _, sh) = (0, sh)
  finished (err e, sh) = (1, warned (codes "error: " ++ describe e) sh)

  abbrev run :
      {F : Type 0} → Parsed F → (F → Exec (Shell S L) (Unit {0})) → Shell S L → Outcome (Shell S L)
  run (parsed f) command sh = finished (command f sh)
  run (exits status) command sh = (status, sh)

  -- The switch over the command.
  unfoldable pub dispatch : Text → List Text → Shell S L → Outcome (Shell S L)
  dispatch name args sh =
      if name == codes "init"
      then run (flags.init_flags args) (cmd_init os connect lib fixed1 empty) sh
      else if name == codes "pull"
      then run (flags.pull_flags args) (cmd_pull os connect lib fixed1 empty) sh
      else if name == codes "push"
      then run (flags.push_flags args) (cmd_push os connect lib fixed1 empty) sh
      else if name == codes "status"
      then run (flags.status_flags args) (cmd_status os connect lib fixed1 empty temp remove order)
          sh
      else if name == codes "compact"
      then run (flags.compact_flags args)
          (cmd_compact os connect lib fixed1 empty temp remove order) sh
      else if name == codes "gc"
      then run (flags.gc_flags args) (cmd_gc os connect lib fixed1 empty temp remove order) sh
      else if name == codes "-h" || name == codes "--help" || name == codes "help"
      then (0, warned usage sh)
      else (2, warned usage (warned [] (warned (codes "unknown command " ++ quoted name) sh)))

  -- `main`, by `os.Args[1:]`: the status of the exit, and what is left
  unfoldable pub main : List Text → Shell S L → Outcome (Shell S L)
  unfolding dispatch
  main [] sh = (2, warned usage sh)
  main (name ∷ args) sh = dispatch name args sh
