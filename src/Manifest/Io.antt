-- ===== src/Manifest/Io.antt =====
-- `loadManifest` and `putManifest` of manifest.go.
pub mod Atomic
use s3db.Base.{Text, Option, none, some}
use s3db.Errors.{Error, manifest_decode}
use s3db.Result.{Result, ok, err}
use s3db.Result.Exec.{Exec, pure, lift, ◌>>=◌, ◌>>◌}
use s3db.Blob.{PutCondition}
use s3db.Env.{Env}
use s3db.Manifest.{Manifest, manifest_format_version, validate}

abbrev or_decode_error : Option Manifest → Result Manifest
or_decode_error none = err manifest_decode
or_decode_error (some m) = ok m

-- `m.FormatVersion = manifestFormatVersion`
abbrev pub stamp : Manifest → Manifest
stamp m = record m { format_version = manifest_format_version }

module _ {S : Type 0} (env : Env S) where
  -- the manifest and its tag
  unfoldable pub load_manifest : Text → Exec S (Manifest × Text)
  load_manifest key = do
    got ← env.store.get key
    m ← lift (or_decode_error (env.codec.decode got.0))
    lift (validate m)
    pure (m, got.1)

  -- Writes the stamped manifest, which the caller's pointer then refers to, and returns its tag.
  unfoldable pub put_manifest : Text → Manifest → PutCondition → Exec S (Manifest × Text)
  put_manifest key m cond = do
    lift (validate (stamp m))
    body ← lift (env.codec.encode (stamp m))
    tag ← env.store.put key body cond
    pure (stamp m, tag)
