-- ===== src/Tests/Migrations.antt =====
-- A migration of the small database, and what comes of it.
use s3db.Base.{pos, Text, codes, Option, ◌≡◌, refl, List, [], ◌∷◌, some, false}
use s3db.Result.{Result, ok}
use s3db.Blob.Shared.{Later, World, holds, shared_store-IsLawful}
use s3db.Client.{Client}
use s3db.Manifest.Io.Atomic.{Stands}
use s3db.Migrate.{Migration, apply_migration, run_migrations, check_versions, next_migration}
use s3db.Migrate.Next.{IsNext, next_migration-IsNext}
use s3db.Migrate.Migrated.{Migrated, apply_migration-Migrated}
use s3db.Tests.Codec.{hash, hash-IsTag, put_manifest}
use s3db.Tests.Outside.{Rows, sqlite, env, insert_seven}
use s3db.Tests.Worlds.{cfg, client, m0}
use s3db.Tests.Steady.{env-IsSteady}
use s3db.Tests.Machinery.{migrating}

abbrev pub first : Migration Rows
first = record { version = pos 1; name = codes "seven"; up = insert_seven }

abbrev second : Migration Rows
second = record { version = pos 4; name = codes "again"; up = insert_seven }

abbrev etag0 : Text
etag0 = hash (put_manifest m0)

abbrev applied : Result (Unit {0}) × Client (World hash) Rows
applied = apply_migration env sqlite cfg m0 etag0 first false (client [])

applied-ok : applied ≡ (ok tt, applied.1)
unfolding migrating
applied-ok = refl

m0-Stands : Stands env hash (holds hash) m0 etag0
unfolding migrating
m0-Stands = (put_manifest m0, refl, refl)

apply_migration-Migrated_example :
    Migrated env sqlite cfg hash
      (holds hash)
      (Later hash)
      (shared_store-IsLawful hash)
      (client []).out
      m0
      (pos 1)
      applied.1
apply_migration-Migrated_example =
    apply_migration-Migrated env sqlite cfg hash (holds hash) (Later hash)
      (shared_store-IsLawful hash) hash-IsTag env-IsSteady m0 etag0 first false (client [])
      applied.1 m0-Stands applied-ok

abbrev both : List (Migration Rows)
both = first ∷ second ∷ []

both-increase : check_versions (pos 0) both ≡ ok tt
unfolding migrating check_versions
both-increase = refl

abbrev run : Result (Option (Unit {0})) × Client (World hash) Rows
run = run_migrations env sqlite cfg both 3 (client [])

run-ok : run ≡ (ok (some tt), run.1)
unfolding migrating
run-ok = refl

run_schema : run.1.st.manifest.schema_version ≡ pos 4
unfolding migrating
run_schema = refl

next_migration-IsNext_example : IsNext (pos 1) both (next_migration (pos 1) both)
next_migration-IsNext_example = next_migration-IsNext (pos 0) (pos 1) both both-increase
