-- ===== src/Tests/Manifests.antt =====
-- Manifests: valid ones, and a load and a swap in a store that is at rest.
use s3db.Base.{pos, ◌≤ℤ◌, add64, InRange64, Text, codes, ◌≡◌, refl, ◌≢◌, ◌↔◌, [], arith}
use s3db.Result.{Result, ok}
use s3db.Blob.{if_match}
use s3db.Blob.Shared.{World, Later, holds, shared_store-IsLawful}
use s3db.Manifest.{Manifest, BlobRef, validate, append_log, with_snapshot}
use s3db.Manifest.Valid.{IsValid, validate-iff-IsValid}
use s3db.Manifest.Update.{append_log-IsValid, with_snapshot-IsValid}
use s3db.Manifest.Io.{load_manifest, put_manifest, stamp}
use s3db.Manifest.Io.Atomic.{Stands, Swapped, load_manifest-Held, Held, put_manifest-Swapped}
use s3db.Tests.Codec.{hash, hash-IsTag}
use s3db.Tests.Codec
use s3db.Tests.Outside.{env}
use s3db.Tests.Worlds.{m0, m1, theirs, world}
use s3db.Tests.Machinery.{machinery}

abbrev m2 : Manifest
m2 = append_log (theirs 2 2) m1

abbrev new_snapshot : BlobRef
new_snapshot = record { key = codes "db/snapshots/b.sqlite"; seq = pos 2; size = pos 3 }

m2-valid : validate m2 ≡ ok tt
unfolding machinery
m2-valid = refl

m1-valid : validate m1 ≡ ok tt
unfolding machinery
m1-valid = refl

zero-fits : InRange64 (pos 0)
zero-fits = ground arith

m1-fits : InRange64 m1.snapshot.seq
unfolding machinery
m1-fits = ground arith

m2-fits : InRange64 m2.snapshot.seq
unfolding machinery
m2-fits = ground arith

m1-IsValid : IsValid m1
m1-IsValid = (validate-iff-IsValid m1 m1-fits).0 m1-valid

m2-IsValid : IsValid m2
m2-IsValid = (validate-iff-IsValid m2 m2-fits).0 m2-valid

validate-iff-IsValid_example : (validate m2 ≡ ok tt) ↔ IsValid m2
validate-iff-IsValid_example = validate-iff-IsValid m2 m2-fits

key-some : (theirs 2 2).key ≢ []
key-some h = cc

next-two : (theirs 2 2).seq ≡ add64 m1.seq (pos 1)
unfolding machinery
next-two = refl

append_log-IsValid_example : IsValid m2
append_log-IsValid_example = append_log-IsValid m1 (theirs 2 2) m1-IsValid key-some next-two

new_snapshot-key : new_snapshot.key ≢ []
new_snapshot-key h = cc

new_snapshot-seq : new_snapshot.seq ≡ m2.seq
unfolding machinery
new_snapshot-seq = refl

m2-low : pos 0 ≤ℤ m2.seq
unfolding machinery
m2-low = ground arith

m2-high : InRange64 m2.seq
unfolding machinery
m2-high = ground arith

with_snapshot-IsValid_example :
    IsValid (with_snapshot new_snapshot m2)
    × ((with_snapshot new_snapshot m2).seq ≡ m2.seq)
    × ((with_snapshot new_snapshot m2).schema_version ≡ m2.schema_version)
    × ((with_snapshot new_snapshot m2).log ≡ [])
with_snapshot-IsValid_example =
    with_snapshot-IsValid m2 new_snapshot m2-IsValid new_snapshot-key new_snapshot-seq m2-low
      m2-high

abbrev loaded : Result (Manifest × Text) × World hash
loaded = load_manifest env (codes "db/manifest.json") (world [])

loaded-ok : loaded ≡ (ok (m0, hash (Codec.put_manifest m0)), loaded.1)
unfolding machinery
loaded-ok = refl

load_manifest-Held_example :
    Held env hash (holds hash) (codes "db/manifest.json") m0 (hash (Codec.put_manifest m0)) loaded.1
    × (validate m0 ≡ ok tt)
load_manifest-Held_example =
    load_manifest-Held env hash (holds hash) (Later hash) (shared_store-IsLawful hash)
      (codes "db/manifest.json") (world []) m0 (hash (Codec.put_manifest m0)) loaded.1 loaded-ok

abbrev swapped : Result (Manifest × Text) × World hash
swapped =
    put_manifest env (codes "db/manifest.json") m1 (if_match (hash (Codec.put_manifest m0)))
      (world [])

swapped-ok : swapped ≡ (ok (m1, hash (Codec.put_manifest m1)), swapped.1)
unfolding machinery
swapped-ok = refl

m0-Stands : Stands env hash (holds hash) m0 (hash (Codec.put_manifest m0))
unfolding machinery
m0-Stands = (Codec.put_manifest m0, refl, refl)

put_manifest-Swapped_example :
    (p : World hash) × Later hash (world []) p
    × Swapped env hash
        (holds hash)
        (codes "db/manifest.json")
        m0
        (stamp m1)
        (hash (Codec.put_manifest m1))
        p
        swapped.1
    × (m1 ≡ stamp m1)
put_manifest-Swapped_example =
    put_manifest-Swapped env hash (holds hash) (Later hash) (shared_store-IsLawful hash) hash-IsTag
      (codes "db/manifest.json") m0 m1 (hash (Codec.put_manifest m0)) (world []) m1
      (hash (Codec.put_manifest m1)) swapped.1 m0-Stands swapped-ok
