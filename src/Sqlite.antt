-- ===== src/Sqlite.antt =====
-- SQLite and its session extension, which the program calls through a library: parameters.
use s3db.Base.{ℕ, ℤ, Text, Option, List}
use s3db.Result.{Result}

pub record Sqlite : Type 1 where
  -- an open connection, with what the database holds
  pub Conn : Type 0
  pub Session : Type 0
  -- `sqlite.OpenConn` on a file with these bytes, and `Close`
  pub open_conn : Text → Result Conn
  pub close : Conn → Result (Unit {0})
  -- `Close` on a connection that was closed before
  pub close_again : Result (Unit {0})
  -- `OpenConn` for reading alone, and the first row of `PRAGMA quick_check`
  pub open_read : Text → Result Conn
  pub quick_check : Conn → Result (Option Text)
  -- the bytes of the file below a connection
  pub file : Conn → Text
  -- `sqlitex.Save`, and the function that it returns, called on an error and on none
  pub savepoint : Conn → Conn
  pub rollback : Conn → Conn
  pub release : Conn → Conn
  -- the error that this function sets when it is called on none: that of the savepoint, if it
  -- could not be opened, or of its release
  pub released : Conn → Result (Unit {0})
  -- `CreateSession`, `Attach("")`, `WriteChangeset`
  pub create_session : Conn → Result Session
  pub attach_all : Session → Result Session
  pub write_changeset : Session → Conn → Result Text
  -- `SELECT total_changes()`, and the query for tables without a primary key
  pub total_changes : Conn → ℤ
  pub tables_without_key : Conn → List Text
  -- `ApplyChangeset` with a handler that answers every conflict by `ChangesetAbort`: the last
  -- conflict that the handler saw, the result, and the connection afterwards
  pub apply_changeset : Text → Conn → Option ℕ × Result (Unit {0}) × Conn
  -- `VACUUM`, `BEGIN`, `ROLLBACK`
  pub vacuum : Conn → Result (Unit {0}) × Conn
  pub begin : Conn → Result (Unit {0}) × Conn
  pub roll_back : Conn → Result (Unit {0}) × Conn
