-- ===== src/Env.antt =====
-- What a client runs against: a store, and the parts of the outside that it does not implement.
pub mod Kept
pub mod Plain
pub mod Quiet
use s3db.Base.{InRange64, ◌<◌, ℕ, Text, Option, some, ◌≡◌, ap, List, [], ◌∷◌}
use s3db.Result.{Result, ok, err}
use s3db.Result.Exec.{Exec}
use s3db.Blob.{BlobStore}
use s3db.Manifest.{Manifest, LogEntry}

-- `encoding/json`: `Marshal` and `Decode` of a manifest.
pub record Codec : Type 0 where
  pub encode : Manifest → Result Text
  pub decode : Text → Option Manifest

-- Text that JSON keeps as it is; it does not keep bytes that are not UTF-8.
abbrev pub IsAscii : Text → Type 0
IsAscii [] = Unit
IsAscii (c ∷ s) = (c < 128) × IsAscii s

abbrev pub ArePlain : List LogEntry → Type 0
ArePlain [] = Unit
ArePlain (e ∷ log) = (IsAscii e.key × InRange64 e.seq × InRange64 e.size) × ArePlain log

-- A manifest with keys in ASCII and numbers of 64 bits.
pub record IsPlain (m : Manifest) : Type 0 where
  pub format : InRange64 m.format_version
  pub seq : InRange64 m.seq
  pub schema : InRange64 m.schema_version
  pub snapshot : IsAscii m.snapshot.key × InRange64 m.snapshot.seq × InRange64 m.snapshot.size
  pub log : ArePlain m.log

-- Every such manifest can be encoded, and read again as it was.
abbrev pub RoundTrips : Codec → Type 0
RoundTrips codec =
    (m : Manifest)
    → IsPlain m
    → (body : Text) × (codec.encode m ≡ ok body) × (codec.decode body ≡ some m)

-- A call on the local file, or on the temporary file beside it.
pub data FileCall : Type 0 where
  open_file stat_file create_temp sync_file close_file rename_file : FileCall

-- The state `S` is that of all that is outside the process.
pub record Env (S : Type 0) : Type 0 where
  pub store : BlobStore S
  pub codec : Codec
  -- `uuid.NewString`
  pub uuid : Exec S Text
  -- a jittered pause with this base in milliseconds, which ends with an error if the context is
  -- done first
  pub pause : ℕ → Exec S (Unit {0})
  -- `time.Now`
  pub now : S → ℕ
  -- whether such a call fails here
  pub local_file : FileCall → S → Result (Unit {0})

module _ {S : Type 0} (env : Env S) where
  -- the first failure of these calls
  abbrev pub first_failure : List FileCall → S → Result (Unit {0})
  first_failure [] s = ok tt
  first_failure (op ∷ ops) s = elim (env.local_file op s) [
    | ok _ ↦ first_failure ops s
    | err e ↦ err e
  ]

  -- Calls on the local files, of which the first that fails is the end.
  unfoldable pub file_calls : List FileCall → Exec S (Unit {0})
  file_calls ops s = (first_failure ops s, s)

  pub file_calls-same :
      (ops : List FileCall) (s t : S) (r : Result (Unit {0})) → file_calls ops s ≡ (r, t) → s ≡ t
  unfolding file_calls
  file_calls-same ops s t r h = ap (λ q. q.1) h
