-- ===== src/Tests/Machinery.antt =====
-- One name that opens all that a run of the client computes with.
use s3db.Base.{has_suffix, add64, text_dec, int_dec, ℕ_discrete, has_prefix, path_base, trim_quotes}
use s3db.Base.Assoc.{lookup, insert, keys}
use s3db.Base.Sort.{sort_strings}
use s3db.Result.Exec.{◌>>=◌}
use s3db.Etag.{normalize}
use s3db.Manifest.{validate, append_log, with_snapshot, epoch}
use s3db.Manifest.Io.{load_manifest, put_manifest}
use s3db.Blob.Mem.{get, get_range, stat, put, list, delete, delete_prefix}
use s3db.Blob.Shared.{act_all, take_turn, put_in, delete_in, delete_prefix_in}
use s3db.Session.{apply_changeset, capture}
use s3db.Client.{outside, on_conn}
use s3db.Commit.{do_update}
use s3db.Sync.{refresh_manifest}
use s3db.Gc.{gc}
use s3db.Db.{update, first_manifest}
use s3db.Settings.{expected_schema}
use s3db.Migrate.{run_migrations}
use s3db.Compact.{compact, upload_file}
use s3db.Transfer.{init, push, pull}
use s3db.Opening.{open_db}
use s3db.Blob.Fs.{fs_store}
use s3db.Blob.FileKeys.{validate_key, dir_of, join}
use s3db.Base.{trim_prefix, index_of}
use s3db.Base.Assoc.{contains}
use s3db.Tests.Codec.{codec}

unfoldable pub machinery : Unit {0}
unfolding add64 text_dec int_dec ℕ_discrete has_prefix path_base trim_quotes lookup insert keys
    sort_strings ◌>>=◌ normalize validate append_log with_snapshot epoch load_manifest put_manifest
    get get_range stat put list delete delete_prefix act_all take_turn put_in delete_in
    delete_prefix_in apply_changeset capture outside on_conn do_update codec
machinery = tt

-- the same, with a refresh and a collection
unfoldable pub sweeping : Unit {0}
unfolding machinery refresh_manifest gc trim_prefix index_of contains
sweeping = tt

-- the same, with a compaction
unfoldable pub compacting : Unit {0}
unfolding sweeping compact
compacting = tt

-- the same, with migrations
unfoldable pub migrating : Unit {0}
unfolding compacting run_migrations
migrating = tt

-- the same, with updates
unfoldable pub updating : Unit {0}
unfolding migrating update
updating = tt

-- the same, with whole files
unfoldable pub transferring : Unit {0}
unfolding updating has_suffix init push pull upload_file
transferring = tt

-- the same, with the store in a directory
unfoldable pub filing : Unit {0}
unfolding transferring fs_store validate_key dir_of join
filing = tt

-- the same, with an open
unfoldable pub opening : Unit {0}
unfolding transferring first_manifest expected_schema open_db
opening = tt
