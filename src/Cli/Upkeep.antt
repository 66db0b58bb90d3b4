-- ===== src/Cli/Upkeep.antt =====
-- cmd/s3db/main.go: `status`, `compact` and `gc`.
use s3db.Base.{
  ℕ, ℤ, pos, negsuc, lt_int, Text, codes, true, Option, none, some, List, [], ◌∷◌, ◌++◌,
  if◌then◌else◌,
}
use s3db.Base.Assoc.{Assoc}
use s3db.Base.Decimal.{show_int}
use s3db.Errors.{panic}
use s3db.Result.{Result, ok, err}
use s3db.Result.Exec.{Exec, pure, lift, ◌>>=◌, ◌>>◌}
use s3db.Env.{Env}
use s3db.Sqlite.{Sqlite}
use s3db.Client.{CommitConfig, Client}
use s3db.Compact.{compact}
use s3db.Db.{Stats, stats, close}
use s3db.Gc.{gc}
use s3db.Opening.{open_db}
use s3db.Settings.{
  Options, Setting, with_schema_unchecked, with_gc_grace_period, default_options, apply_settings,
}
use s3db.Cli.{Target, show_target}
use s3db.Cli.Shell.{Os, Shell, at_store, say, Given, GcFlags, format_bytes, ClientOptions}
use s3db.Cli.Files.{target_of, new_store}

-- " → " in UTF-8
abbrev arrow : Text
arrow = 32 ∷ 226 ∷ 134 ∷ 146 ∷ 32 ∷ []

-- the grace period that `GC` reads, where 0 and less is none
abbrev period : ℤ → ℕ
period (pos n) = n
period (negsuc n) = 0

-- `temp` is the temporary file that `Open` makes, `remove` its removal, and `order` that of Go's
-- maps.
module _ {S L : Type 0} (os : Os L) (connect : ClientOptions → Text → Env S) (lib : Sqlite)
    (fixed1 : ℕ → ℕ → Text) (empty temp : Result Text) (remove : S → S)
    (order : Assoc (List Text) → Assoc (List Text)) where
  open lib use {Conn}

  abbrev store_of : Text → Env S
  store_of = new_store os connect lib fixed1 empty

  abbrev options : List (Setting Conn (Unit {0})) → Options Conn (Unit {0})
  options settings = apply_settings settings default_options

  -- What a command does with its handle, and the deferred `Close`.
  unfoldable pub with_handle :
      {A : Type 0}
      → Env S
      → (CommitConfig → Exec (Client S Conn) A)
      → Option (CommitConfig × Client S Conn)
      → Exec S A
  with_handle env body none s = (err panic, s)
  with_handle env body (some (cfg, c)) s =
      let (r, d) = body cfg c in (r, (close env lib cfg true d).1.out)

  -- `Open` without a schema, which runs no migration, and the work with the handle.
  unfoldable pub on_db :
      {A : Type 0}
      → List (Setting Conn (Unit {0}))
      → Target
      → (Env S → CommitConfig → Exec (Client S Conn) A)
      → Exec (Shell S L) A
  unfolding with_handle
  on_db settings tgt body =
      let env = store_of tgt.bucket in
      at_store (
        open_db env lib (options (with_schema_unchecked ∷ settings)) tgt.prefix temp remove empty 0
        >>= with_handle env (body env))

  abbrev stats_of : Exec (Client S Conn) Stats
  stats_of c = (ok (stats c.st), c)

  -- `cmdStatus`
  unfoldable pub cmd_status : Given → Exec (Shell S L) (Unit {0})
  unfolding on_db format_bytes
  cmd_status g = do
    tgt ← lift (target_of g)
    st ← on_db [] tgt (λ env cfg. stats_of)
    say (codes "target:         " ++ show_target tgt)
    say (codes "seq:            " ++ show_int st.seq)
    say (codes "schema_version: " ++ show_int st.schema_version)
    say (codes "snapshot size:  " ++ format_bytes fixed1 st.snapshot_size)
    say (codes "log entries:    " ++ show_int (pos st.log_entries))
    say (codes "log bytes:      " ++ format_bytes fixed1 st.log_bytes)

  abbrev compacted : Env S → CommitConfig → Exec (Client S Conn) (Stats × Stats)
  compacted env cfg = do
    before ← stats_of
    compact env lib cfg
    after ← stats_of
    pure (before, after)

  -- `cmdCompact`
  unfoldable pub cmd_compact : Given → Exec (Shell S L) (Unit {0})
  unfolding on_db format_bytes
  cmd_compact g = do
    tgt ← lift (target_of g)
    (before, after) ← on_db [] tgt compacted
    say (codes "Compacted " ++ show_target tgt)
    say (
        codes "  log entries:   "
        ++ (show_int (pos before.log_entries) ++ (arrow ++ show_int (pos after.log_entries))))
    say (
        codes "  snapshot size: "
        ++ (format_bytes fixed1 before.snapshot_size
            ++ (arrow ++ format_bytes fixed1 after.snapshot_size)))

  abbrev grace_settings : ℤ → List (Setting Conn (Unit {0}))
  grace_settings grace = if lt_int grace (pos 0) then [] else with_gc_grace_period grace ∷ []

  -- `cmdGC`
  unfoldable pub cmd_gc : GcFlags → Exec (Shell S L) (Unit {0})
  unfolding on_db
  cmd_gc f = do
    tgt ← lift (target_of f.given)
    let settings = grace_settings f.grace
    let grace = period (options (with_schema_unchecked ∷ settings)).gc_grace_period
    on_db settings tgt (λ env cfg. gc env grace order lib cfg)
    say (codes "GC complete for " ++ show_target tgt)
