-- ===== src/Tests/Compactions.antt =====
-- A compaction.
use s3db.Base.{pos, ◌≡◌, refl, ◌⊎◌, [], ◌∷◌}
use s3db.Result.{Result, ok}
use s3db.Blob.Shared.{Later, World, holds, shared_store-IsLawful}
use s3db.Client.{Client}
use s3db.Compact.{compact}
use s3db.Compact.Compacted.{compact-Compacted, FoundEmpty, IsCompacted}
use s3db.Tests.Codec.{hash, hash-IsTag}
use s3db.Tests.Outside.{Rows, sqlite, env}
use s3db.Tests.Worlds.{cfg, client, busy, write, write_manifest, m1}
use s3db.Tests.Steady.{env-IsSteady}
use s3db.Tests.Machinery.{compacting}

-- A client of `m1`, which another writer made before the first call.
abbrev behind : Client (World hash) Rows
behind = client (busy (write (1 ∷ []) (9 ∷ []) ∷ write_manifest m1 ∷ []) ∷ [])

abbrev run : Result (Unit {0}) × Client (World hash) Rows
run = compact env sqlite cfg behind

run-ok : run ≡ (ok tt, run.1)
unfolding compacting
run-ok = refl

run_manifest : (run.1.st.manifest.seq ≡ pos 1) × (run.1.st.manifest.snapshot.size ≡ pos 2)
unfolding compacting
run_manifest = (refl, refl)

compact-Compacted_example :
    (run.1.st.manifest.log ≡ [])
    × (FoundEmpty env sqlite cfg hash
          (holds hash)
          (Later hash)
          (shared_store-IsLawful hash)
          behind.out
          behind
          run.1
        ⊎ IsCompacted env sqlite cfg hash
            (holds hash)
            (Later hash)
            (shared_store-IsLawful hash)
            behind.out
            run.1)
compact-Compacted_example =
    compact-Compacted env sqlite cfg hash (holds hash) (Later hash) (shared_store-IsLawful hash)
      hash-IsTag env-IsSteady behind run.1 run-ok
