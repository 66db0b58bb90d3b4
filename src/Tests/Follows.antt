-- ===== src/Tests/Follows.antt =====
-- Two clients of a quiet store, and a client whose upload fails.
use s3db.Base.{false, ℤ, pos, Text, codes, ◌≡◌, refl, [], ◌∷◌, arith, some}
use s3db.Errors.{external}
use s3db.Result.{ok, err}
use s3db.Blob.Shared.{World, holds}
use s3db.Manifest.{Manifest, epoch}
use s3db.Blob.{no_condition}
use s3db.Client.{Client, CommitState}
use s3db.Commit.{do_update, changeset_key}
use s3db.Commit.Quiet.{working}
use s3db.Commit.Follows.{Small, refresh_manifest-do_update}
use s3db.Commit.Stops.{client_with, Stops, do_update-rolls_back}
use s3db.Env.Quiet.Shared.{AtRest}
use s3db.Sync.{refresh_manifest}
use s3db.Tests.Codec.{hash, hash-IsTag, codec-RoundTrips, put_manifest}
use s3db.Tests.Machinery.{updating}
use s3db.Tests.Outside.{Rows, sqlite, env, insert_seven}
use s3db.Tests.Rests.{env-IsQuiet, m0-Holds}
use s3db.Tests.Worlds.{m0-IsPlain, db-IsAscii, cfg, client, world, m0, snap}

abbrev at_five : Rows
at_five = record { rows = 5 ∷ []; saved = [] }

abbrev end : Rows
end = record { rows = 5 ∷ 7 ∷ []; saved = 5 ∷ [] }

abbrev followed : Rows
followed = record { rows = 5 ∷ 7 ∷ []; saved = [] }

abbrev at_work : World hash → Rows → ℤ → Manifest → Text → Client (World hash) Rows
at_work s conn seq m etag =
    working env sqlite cfg hash (holds hash) (AtRest hash) env-IsQuiet s conn seq snap m etag []

m0-Small : Small env sqlite cfg hash (holds hash) (AtRest hash) env-IsQuiet m0 0
m0-Small = record { base = refl; room = omega arith }

refresh_manifest-do_update_example :
    (t u : World hash) × (new : Manifest) × (tag : Text) × (new.seq ≡ pos 1)
    × (do_update env sqlite cfg insert_seven
          (at_work (world []) at_five (pos 0) m0 (hash (put_manifest m0)))
        ≡ (ok tt, at_work t end new.seq new tag))
    × (refresh_manifest env sqlite cfg (at_work t at_five (pos 0) m0 [])
        ≡ (ok tt, at_work u followed new.seq new tag))
unfolding updating
refresh_manifest-do_update_example =
    refresh_manifest-do_update env sqlite cfg hash (holds hash) (AtRest hash) env-IsQuiet hash-IsTag
      codec-RoundTrips insert_seven 2 0 (world []) at_five end at_five followed
      (hash (put_manifest m0)) [] [] [] (7 ∷ []) m0 m0 refl m0-IsPlain db-IsAscii (omega arith) refl
      m0-Small refl m0-Holds refl refl

-- The context is done before the upload.
abbrev cancelled : World hash
cancelled = world (record { others = []; ctx = some (external 7) } ∷ [])

abbrev st0 : CommitState Rows
st0 = (client []).st

abbrev after_upload : World hash
after_upload =
    (env.store.put (changeset_key (codes "db/") (epoch m0) (0 ∷ [])) (7 ∷ []) no_condition
      cancelled).1

stopped : Stops env sqlite cfg insert_seven cancelled at_five st0 (external 7) end after_upload
unfolding updating
stopped = Stops.at_upload (external 7) end (7 ∷ []) (0 ∷ []) cancelled _ refl refl refl

do_update-rolls_back_example :
    do_update env sqlite cfg insert_seven
      (client_with env sqlite cfg cancelled at_five false st0 [])
    ≡ (err (external 7), client_with env sqlite cfg after_upload (sqlite.rollback end) false st0 [])
do_update-rolls_back_example =
    do_update-rolls_back env sqlite cfg insert_seven cancelled at_five st0 2 [] (external 7) end
      after_upload refl stopped
