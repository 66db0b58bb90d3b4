-- ===== src/Session.antt =====
-- session.go and apply.go: capturing a changeset, and applying one.
use s3db.Base.{
  codes, ◌++◌, ℕ, ℤ, pos, add64, lt_int, Text, Option, none, some, List, [], ◌∷◌, if◌then◌else◌,
}
use s3db.Base.Int.{neg64}
use s3db.Base.Decimal.{show_int}
use s3db.Errors.{changeset_conflict, unrecorded_changes}
use s3db.Result.{Result, ok, err}
use s3db.Result.Exec.{Exec, lift, current, ◌>>=◌, ◌>>◌}
use s3db.Sqlite.{Sqlite}

module _ (lib : Sqlite) where
  open lib use {Conn, Session}

  -- The end of `applyChangeset`: a conflict that was seen is the error, whatever SQLite returned.
  abbrev applied : Option ℕ × Result (Unit {0}) × Conn → Result (Unit {0}) × Conn
  applied (some kind, r, c) = (err (changeset_conflict kind), c)
  applied (none, r, c) = (r, c)

  -- `applyChangeset` under `conflictAbort`, its only policy
  unfoldable pub apply_changeset : Text → Exec Conn (Unit {0})
  apply_changeset [] c = (ok tt, c)
  apply_changeset (b ∷ cs) c = applied (lib.apply_changeset (b ∷ cs) c)

  -- The test after an empty changeset, by the rows that were changed and the tables without a
  -- key.
  unfoldable pub check_recorded : ℤ → List Text → Result (Option Text)
  check_recorded delta [] = ok none
  check_recorded delta (t ∷ tables) =
      if lt_int (pos 0) delta then err (unrecorded_changes delta (t ∷ tables)) else ok none

  abbrev captured : ℤ → Conn → Text → Result (Option Text)
  captured before c [] =
      check_recorded (add64 (lib.total_changes c) (neg64 before)) (lib.tables_without_key c)
  captured before c (b ∷ cs) = ok (some (b ∷ cs))

  -- `capture`: the changeset of `fn`, `none` for the nil slice
  unfoldable pub capture : Exec Conn (Unit {0}) → Exec Conn (Option Text)
  unfolding check_recorded ◌>>=◌
  capture fn = do
    start ← current
    made ← lift (lib.create_session start)
    sess ← lift (lib.attach_all made)
    fn
    end ← current
    cs ← lift (lib.write_changeset sess end)
    lift (captured (lib.total_changes start) end cs)

-- `strings.Join(tables, ", ")`
unfoldable pub comma_list : List Text → Text
comma_list [] = []
comma_list (t ∷ []) = t
comma_list (t ∷ u ∷ tables) = t ++ (codes ", " ++ comma_list (u ∷ tables))

-- an em dash between spaces, in UTF-8
abbrev dash : Text
dash = 32 ∷ 226 ∷ 128 ∷ 148 ∷ 32 ∷ []

-- `(e *ErrUnrecordedChanges) Error`
unfoldable pub unrecorded_message : ℤ → List Text → Text
unfolding comma_list show_int
unrecorded_message rows tables =
    codes "s3db: "
    ++ (show_int rows
        ++ (codes " row(s) modified but not captured"
            ++ (dash
                ++ (codes "SQLite sessions skip tables without a PRIMARY KEY. Tables missing a PK: "
                    ++ (comma_list tables
                        ++ codes ". Fix: ALTER TABLE or add 'id INTEGER PRIMARY KEY'.")))))
