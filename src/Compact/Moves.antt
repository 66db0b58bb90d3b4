-- ===== src/Compact/Moves.antt =====
-- What the calls of the uploads to the outside keep, the uploads keep.
use s3db.Base.{ℤ, Text, arith}
use s3db.Result.{Result, ok, err}
use s3db.Result.Keeps.{Keeps, Keeps-bind, Keeps-modify, keeps_rules}
use s3db.Env.{Env}
use s3db.Env.Kept.{file_calls-Keeps, KeptBy, put_manifest-Keeps}
use s3db.Blob.{PutCondition}
use s3db.Manifest.{Manifest}
use s3db.Manifest.Io.{put_manifest}
use s3db.Sqlite.{Sqlite}
use s3db.Client.{ConnRef, nil, closed, live, Client, CommitConfig, outside, on_conn}
use s3db.Sync.{reopen_conn}
use s3db.Sync.Reads.{OfOut, outside-Keeps, on_conn-Keeps, reopen_conn-Keeps}
use s3db.Compact.{
  upload_file, close_conn, or_reopen, upload_local, upload_snapshot, after_swap, swap_snapshot,
  compact_once,
}

module _ {S : Type 0} (env : Env S) (lib : Sqlite) (Q : S → Type 0) (kept : KeptBy env Q) where
  open lib use {Conn}

  abbrev Here : Client S Conn → Type 0
  Here = OfOut env Q kept.get kept.get_range lib

  reopen_lem : Keeps Here (reopen_conn env lib)
  reopen_lem = reopen_conn-Keeps env Q kept.get kept.get_range lib

  pub upload_file-Keeps : (key bytes : Text) → Keeps Q (upload_file env key bytes)
  unfolding upload_file
  upload_file-Keeps key bytes = search (keeps_rules, file_calls-Keeps env Q, kept.put)

  pub close_conn-Keeps : (ref : ConnRef Conn) → Keeps Here (close_conn env lib ref)
  close_conn-Keeps nil = record { at = λ c h. h }
  close_conn-Keeps closed = record { at = λ c h. h }
  close_conn-Keeps (live conn) = record { at = λ c h. ground (arith, h) }

  or_reopen-Keeps : (r : Result ℤ) → Keeps Here (or_reopen env lib r)
  unfolding or_reopen
  or_reopen-Keeps (ok size) = search keeps_rules
  or_reopen-Keeps (err e) = search (keeps_rules, reopen_lem)

  outside_file : (key bytes : Text) → Keeps Here (outside (upload_file env key bytes))
  outside_file key bytes =
      outside-Keeps env Q kept.get kept.get_range lib _ (upload_file-Keeps key bytes)

  pub upload_local-Keeps : (key : Text) → Keeps Here (upload_local env lib key)
  unfolding upload_local
  upload_local-Keeps key = search (keeps_rules, outside_file, or_reopen-Keeps, reopen_lem) depth 9

  pub uuid_lem : Keeps Here (outside env.uuid)
  uuid_lem = outside-Keeps env Q kept.get kept.get_range lib _ kept.uuid

  vacuum_lem : Keeps Here (on_conn lib.vacuum)
  vacuum_lem = on_conn-Keeps env Q kept.get kept.get_range lib lib.vacuum

  pub upload_snapshot-Keeps : (cfg : CommitConfig) → Keeps Here (upload_snapshot env lib cfg)
  unfolding upload_snapshot
  upload_snapshot-Keeps cfg =
      search (keeps_rules, vacuum_lem, close_conn-Keeps, uuid_lem, upload_local-Keeps) depth 12

  after_swap-Keeps :
      (cfg : CommitConfig) (key : Text) (r : Result (Manifest × Text))
      → Keeps Here (after_swap env lib cfg key r)
  unfolding after_swap
  after_swap-Keeps cfg key (ok (m, etag)) = search (keeps_rules, Keeps-modify)
  after_swap-Keeps cfg key (err e) = search keeps_rules

  outside_put :
      (key : Text) (m : Manifest) (cond : PutCondition)
      → Keeps Here (outside (put_manifest env key m cond))
  outside_put key m cond =
      outside-Keeps env Q kept.get kept.get_range lib _ (put_manifest-Keeps env Q kept key m cond)

  swap_snapshot-Keeps :
      (cfg : CommitConfig) (key : Text) (size : ℤ) → Keeps Here (swap_snapshot env lib cfg key size)
  unfolding swap_snapshot
  swap_snapshot-Keeps cfg key size = search (keeps_rules, outside_put, after_swap-Keeps) depth 9

  pub compact_once-Keeps : (cfg : CommitConfig) → Keeps Here (compact_once env lib cfg)
  unfolding compact_once
  compact_once-Keeps cfg =
      Keeps-bind _ (λ (key, size). swap_snapshot-Keeps cfg key size) _ (upload_snapshot-Keeps cfg)
