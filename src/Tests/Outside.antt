-- ===== src/Tests/Outside.antt =====
-- A concrete SQLite, whose database is its list of rows, and the environment of one client.
use s3db.Base.{◌%◌}
use s3db.Base.{
  codes, ℕ, pos, Text, Option, none, some, [], ◌∷◌, ◌++◌, length, drop, nat_eq, ◌==◌, Bool, true,
  false, ◌||◌,
}
use s3db.Errors.{external}
use s3db.Result.{ok, err, Result}
use s3db.Result.Exec.{Exec}
use s3db.Sqlite.{Sqlite}
use s3db.Blob.Shared.{World, shared_store}
use s3db.Env.{Env}
use s3db.Tests.Codec.{codec, hash}

pub record Rows : Type 0 where
  pub rows : Text
  pub saved : Text

abbrev has_row : Text → ℕ → Bool
has_row [] r = false
has_row (x ∷ xs) r = x == r || has_row xs r

-- A row that is there already is a conflict.
abbrev insert_all : Text → Rows → Option ℕ × Result (Unit {0}) × Rows
insert_all [] c = (none, ok tt, c)
insert_all (r ∷ cs) c =
    let rest = insert_all cs (record c { rows = c.rows ++ r ∷ [] }) in
    elim (has_row c.rows r) [ true ↦ (some 4, err (external 4), c) | false ↦ rest ]

-- `apply_changeset` takes back what it did before a conflict.
abbrev all_or_nothing :
    Rows → Option ℕ × Result (Unit {0}) × Rows → Option ℕ × Result (Unit {0}) × Rows
all_or_nothing c (none, r, d) = (none, r, d)
all_or_nothing c (some k, r, d) = (some k, r, c)

abbrev pub sqlite : Sqlite
sqlite = record {
  Conn = Rows;
  Session = Text;
  open_conn = λ b. ok (record { rows = b; saved = b });
  close = λ c. ok tt;
  close_again = err (external 21);
  open_read = λ b. ok (record { rows = b; saved = b });
  quick_check = λ c. ok (some (codes "ok"));
  file = λ c. c.rows;
  savepoint = λ c. record c { saved = c.rows };
  rollback = λ c. record c { rows = c.saved };
  release = λ c. c;
  released = λ c. ok tt;
  create_session = λ c. ok c.rows;
  attach_all = λ s. ok s;
  write_changeset = λ s c. ok (drop (length s) c.rows);
  total_changes = λ c. pos (length c.rows);
  tables_without_key = λ c. [];
  apply_changeset = λ cs c. all_or_nothing c (insert_all cs c);
  vacuum = λ c. (ok tt, c);
  begin = λ c. (ok tt, record c { saved = c.rows });
  roll_back = λ c. (ok tt, record c { rows = c.saved });
}

-- The caller's function: insert the row 7.
abbrev pub insert_seven : Exec Rows (Unit {0})
insert_seven c = (ok tt, record c { rows = c.rows ++ 7 ∷ [] })

abbrev pub env : Env (World hash)
env = record {
  store = shared_store hash;
  codec = codec;
  uuid = λ w. (ok (w.clock % 128 ∷ []), w);
  pause = λ n w. (ok tt, w);
  local_file = λ op w. ok tt;
  now = λ w. w.clock;
}
