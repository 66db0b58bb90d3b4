-- ===== src/Tests/Workflow.antt =====
-- A pull, an edit and a push from the shell.
use s3db.Base.{
  ℕ, pos, Text, text_eq, codes, ◌≡◌, ◌≢◌, ◌⊎◌, refl, sym, ap, ◌∙◌, Bool, true, false, Option, none,
  some, [], ◌∷◌, ◌==◌, arith, if◌then◌else◌,
}
use s3db.Errors.{external}
use s3db.Result.{Result, ok, err}
use s3db.Blob.Mem.Swap.{contents}
use s3db.Blob.Shared.{World, holds}
use s3db.Env.{Env}
use s3db.Env.Quiet.Shared.{AtRest}
use s3db.Env.Quiet.Manifests.{Holds}
use s3db.Cli.{Target, parse_target}
use s3db.Cli.Shell.{Os, Shell, Given, ClientOptions, at_store, at_files, say}
use s3db.Cli.Files.{cmd_pull, cmd_push}
use s3db.Cli.Pulled.{IsOs, pull_flags}
use s3db.Cli.Workflow.{push_flags, cmd_push-cmd_pull, Replaced, Refused}
use s3db.Transfer.{PullInfo}
use s3db.Tests.Codec.{hash, hash-IsTag, codec-RoundTrips, put_manifest}
use s3db.Tests.Machinery.{transferring}
use s3db.Tests.Outside.{sqlite, env}
use s3db.Tests.Rests.{env-IsQuiet, sqlite-Accepts}
use s3db.Tests.Worlds.{m0-IsPlain, db-IsAscii, world, m0}

abbrev Files : Type 0
Files = Text → Option Text

abbrev content : Option Text → Result Text
content none = err (external 2)
content (some b) = ok b

abbrev found : Option Text → Bool
found none = false
found (some b) = true

abbrev os : Os Files
os = record {
  read_file = λ p l. content (l p);
  write_file = λ p b l. (ok tt, λ q. if p == q then some b else l q);
  exists = λ p l. found (l p);
  getenv = λ name. [];
}

os-IsOs : IsOs os
os-IsOs = record {
  written = λ path bytes l l' h. ap (λ q. content (q.1 path)) (sym h) ∙ ground arith;
  others = λ path bytes other l l' h ne. ap (λ q. content (q.1 other)) (sym h) ∙ ground (arith, ne);
}

abbrev connect : ClientOptions → Text → Env (World hash)
connect o bucket = env

abbrev fixed1 : ℕ → ℕ → Text
fixed1 n d = []

abbrev given : Given
given = record { args = codes "s3://b/db" ∷ []; bucket = []; prefix = [] }

abbrev path : Text
path = codes "f"

abbrev tgt : Target
tgt = record { bucket = codes "b"; prefix = codes "db/" }

abbrev start : Shell (World hash) Files
start = record { out = world []; files = λ p. none; printed = []; warned = [] }

abbrev fetched : Result (Unit {0}) × Shell (World hash) Files
fetched = cmd_pull os connect sqlite fixed1 (ok []) (pull_flags given path) start

fetched-ok : fetched ≡ (ok tt, fetched.1)
unfolding transferring cmd_pull parse_target at_store at_files say
fetched-ok = refl

abbrev edited : Files
edited = (os.write_file path (8 ∷ 9 ∷ []) fetched.1.files).1

m0-stands :
    Holds env hash
      (holds hash)
      (AtRest hash)
      env-IsQuiet
      (codes "db/manifest.json")
      m0
      (hash (put_manifest m0))
      fetched.1.out
unfolding transferring cmd_pull parse_target at_store at_files say contents
m0-stands = record { body = put_manifest m0; stored = refl; decodes = refl; accepted = refl }

abbrev info0 : PullInfo
info0 = record { seq = pos 0; schema_version = pos 0; snapshot_size = pos 1; log_entries = 0 }

abbrev pushed : Result (Unit {0}) × Shell (World hash) Files
pushed =
    cmd_push os connect sqlite fixed1 (ok []) (push_flags given path false)
      (record (fetched.1) { files = edited })

cmd_push-cmd_pull_example :
    ((m0.seq ≡ info0.seq)
      × Replaced os connect sqlite fixed1
          (ok [])
          os-IsOs
          hash
          (holds hash)
          (AtRest hash)
          tgt
          m0
          (8 ∷ 9 ∷ [])
          pushed)
    ⊎ ((m0.seq ≢ info0.seq)
        × Refused os connect sqlite fixed1
            (ok [])
            os-IsOs
            hash
            (holds hash)
            (AtRest hash)
            fetched.1.out
            pushed)
unfolding transferring cmd_pull parse_target at_store at_files say
cmd_push-cmd_pull_example =
    cmd_push-cmd_pull os connect sqlite fixed1 (ok []) os-IsOs hash (holds hash) (AtRest hash)
      hash-IsTag given path false tgt start fetched.1 edited fetched.1.out info0 (5 ∷ [])
      (8 ∷ 9 ∷ []) (hash (put_manifest m0)) m0 0 env-IsQuiet codec-RoundTrips refl fetched-ok refl
      refl (omega arith) refl refl (sqlite-Accepts (8 ∷ 9 ∷ [])) refl m0-stands (omega arith)
      m0-IsPlain db-IsAscii (omega arith)
