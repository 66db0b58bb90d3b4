-- ===== src/Tests/Transfers.antt =====
-- A file becomes a database, and another one replaces it.
use s3db.Base.{pos, Text, codes, ◌≡◌, refl, Option, some, [], ◌∷◌}
use s3db.Errors.{seq_mismatch}
use s3db.Result.{Result, ok, err}
use s3db.Blob.Shared.{Later, World, holds, shared_store-IsLawful}
use s3db.Transfer.{init, push, pull}
use s3db.Transfer.Pushed.{Pushed, push-Pushed}
use s3db.Transfer.Initialised.{Initialised, init-Initialised}
use s3db.Tests.Codec.{hash, hash-IsTag}
use s3db.Tests.Outside.{sqlite, env}
use s3db.Tests.Worlds.{bare}
use s3db.Tests.Steady.{env-IsSteady}
use s3db.Tests.Machinery.{transferring}

abbrev source : Option (Result Text)
source = some (ok (5 ∷ 6 ∷ []))

abbrev made : Result (Unit {0}) × World hash
made = init env sqlite (codes "db/") source (ok []) bare

made-ok : made ≡ (ok tt, made.1)
unfolding transferring
made-ok = refl

init-Initialised_example :
    Initialised env sqlite hash
      (holds hash)
      (Later hash)
      (shared_store-IsLawful hash)
      (codes "db/")
      (ok (5 ∷ 6 ∷ []))
      bare
      made.1
init-Initialised_example =
    init-Initialised env sqlite hash (holds hash) (Later hash) (shared_store-IsLawful hash)
      env-IsSteady (codes "db/") source (ok []) bare made.1 made-ok

abbrev pushed : Result (Unit {0}) × World hash
pushed = push env sqlite (codes "db/") (ok (7 ∷ 8 ∷ 9 ∷ [])) (pos 0) made.1

pushed-ok : pushed ≡ (ok tt, pushed.1)
unfolding transferring
pushed-ok = refl

push-Pushed_example :
    Pushed env sqlite hash
      (holds hash)
      (Later hash)
      (shared_store-IsLawful hash)
      (codes "db/")
      (ok (7 ∷ 8 ∷ 9 ∷ []))
      (pos 0)
      made.1
      pushed.1
push-Pushed_example =
    push-Pushed env sqlite hash (holds hash) (Later hash) (shared_store-IsLawful hash) hash-IsTag
      env-IsSteady (codes "db/") (ok (7 ∷ 8 ∷ 9 ∷ [])) (pos 0) made.1 pushed.1 pushed-ok

pulled :
    (pull env sqlite (codes "db/") pushed.1).0
    ≡ ok (
      record { seq = pos 0; schema_version = pos 0; snapshot_size = pos 3; log_entries = 0 },
      7 ∷ 8 ∷ 9 ∷ [],
    )
unfolding transferring
pulled = refl

-- another number is refused
refused : (push env sqlite (codes "db/") (ok []) (pos 4) made.1).0 ≡ err seq_mismatch
unfolding transferring
refused = refl

-- A push leaves the number as it is, so another file is accepted at the same number.
pushed_over : (push env sqlite (codes "db/") (ok (1 ∷ [])) (pos 0) pushed.1).0 ≡ ok tt
unfolding transferring
pushed_over = refl
