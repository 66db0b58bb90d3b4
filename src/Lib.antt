-- ===== src/Lib.antt =====
-- s3db: a SQLite database kept in a blob store, which many clients read and write without a
-- server. The database is a snapshot, a log of changesets, and one manifest that names both. A
-- client has a local copy. It commits by uploading a changeset and replacing the manifest under
-- the condition that nobody replaced it since the client read it.
--
-- Parts, and the file that models each:
--   manifest.go    Manifest (the record, validate, appendLog, withSnapshot, epoch), Manifest/Io (load and put)
--   blob.go        Blob (BlobStore is a record of operations over a state of the outside; IsLawful is
--                  what clients assume of it)
--   blob_mem.go    Blob/Mem; Blob/Shared puts other writers between the calls of one client
--   blob_s3.go     Blob/S3, over the client of the AWS SDK (S3Client)
--   blob_fs.go     Blob/FileKeys (the keys), Blob/FileReads and Blob/Fs, over os.Root, the lock and
--                  random bytes (Blob/Root); Blob/Fs/Opened (the constructor)
--   internal/etag/etag.go   Etag, Etag/Md5 (Compute)
--   errors.go      Errors; an error that Go wraps by %w is the wrapped error
--   session.go, apply.go    Session
--   sync.go        Sync, with syncToManifest and refreshManifest of commit.go
--   commit.go      Commit (one definition for each phase of the loop of doUpdate), Client (the state)
--   gc.go          Gc (both sweeps; the order in which Go visits a map is a parameter)
--   compact.go     Compact (the loop of compactLocked, uploadFile, reopenConn)
--   migrate.go     Migrate (runMigrations and applyMigration)
--   pullpush.go    Transfer (Init, Pull, Push)
--   options.go     Settings
--   cmd/s3db/main.go    Cli (targets), Cli/Shell, Cli/Files (init, pull, push), Cli/Upkeep (status,
--                  compact, gc), Cli/Main
--   s3db.go        Db (bootstrap, View, Update, Close, Stats), Opening (Open)
--
-- A client operation begins with refreshManifest (Sync), which loads the manifest and brings the
-- local database up to it. Update then runs the commit loop, and Compact, a migration and the
-- commit loop end with the same conditional put of the manifest (Manifest/Io). GC deletes by the
-- manifest that it loaded.
--
-- The state of one client is the record Client: `out` is the state of the outside, `st` is
-- commitState, `disk` is the file at localPath while no connection is open on it, and `saved`
-- tells whether a savepoint is open. A fallible stateful operation is an Exec, a function from a
-- state to a result and the next state. The state comes back with an error too, so error paths
-- show what they leave behind. Other writers act inside the store: a call of an abstract store
-- may change the state in any way that IsLawful allows. Its argument `reaches` says which states
-- may follow a state, so that the moment of a write lies between the call and the return of an
-- operation; IsSteady (Env/Kept) says that every call moves along it. The shared in-memory store
-- plays a list of turns of other writers, and there `reaches` is Later, a sequence of writes.
--
-- The loop of doUpdate is recursion on the number of attempts left, which is maxRetries at the
-- start as in the source, so it needs no other fuel; so is the loop of compactLocked. The loop of
-- runMigrations has no bound in the source: the model runs it for a number of rounds and returns
-- `none` if it has not ended by then; so does List of the S3 store with its pages, for which
-- Blob/S3/Pages says what number is enough. Goroutines that
-- fetch parts of a file or changesets run one after the other. int64 arithmetic wraps.
--
-- Parameters: SQLite and its session extension (Sqlite), JSON (Codec), uuid.NewString, pauses and
-- the clock, and the failures of calls on the local file (Env), the AWS client (S3Client, with IsS3 for what S3 documents), os.Root with its lock
-- (Root, with IsFs for what is relied on), Unicode tests (Unicode), and MD5. A store takes the tag of
-- a body as the argument `hash`; Compute gives one. Theorems about compare-and-swap take tags of
-- different bodies to differ (IsTag), which an MD5 of sixteen bytes cannot promise. Of JSON they
-- assume at most that it reads back a manifest with keys in ASCII and numbers of 64 bits
-- (RoundTrips); it does not keep keys that are not UTF-8.
-- The loops of the file-system store have bounds: createTemp that of the source, pruneEmptyDirs the
-- length of the path.
--
-- A store at rest (Env/Quiet) is one that nobody else writes to and whose calls succeed; theorems
-- that an operation succeeds assume it, and the shared in-memory store is one when the other writers
-- have had their turns. A command acts on a Shell: the outside, the local files (Os) and the lines
-- that it printed. The package flag, the float in formatBytes, the texts of errors and of usage, and
-- the connection to a bucket are parameters there. A pull that fails leaves the file at its
-- destination out of account.
--
-- Not modelled: the examples, which only call the library. The mutex of DB is left out: one client
-- runs one operation at a time.
pub mod Base
pub mod Errors
pub mod Result
pub mod Etag
pub mod Blob
pub mod Manifest
pub mod Sqlite
pub mod Session
pub mod Env
pub mod Client
pub mod Sync
pub mod Commit
pub mod Gc
pub mod Compact
pub mod Migrate
pub mod Db
pub mod Transfer
pub mod Settings
pub mod Cli
pub mod Opening
mod Tests
