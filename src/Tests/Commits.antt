-- ===== src/Tests/Commits.antt =====
-- `doUpdate` against another writer.
use s3db.Base.{Text, ◌≡◌, refl, [], ◌∷◌}
use s3db.Client.{Client}
use s3db.Commit.{do_update}
use s3db.Tests.Machinery.{machinery}
use s3db.Tests.Codec.{hash}
use s3db.Tests.Outside.{Rows, sqlite, env, insert_seven}
use s3db.Tests.Worlds.{cfg, client, overtaken}
use s3db.Blob.Shared.{World}
use s3db.Client.{nil, closed, live}
use s3db.Result.Keeps.{Keeps}
use s3db.Sync.{sync_to_manifest}
use s3db.Sync.Frame.{OfManifest, sync_to_manifest-Keeps}
use s3db.Tests.Worlds.{m0}

abbrev run : Client (World hash) Rows
run = (do_update env sqlite cfg insert_seven (client overtaken)).1

abbrev rows_of : Client (World hash) Rows → Text
rows_of c = elim c.st.conn [ nil ↦ [] | closed ↦ [] | live d ↦ d.rows ]

overtaken_rows : rows_of run ≡ 5 ∷ 7 ∷ 9 ∷ []
unfolding machinery
overtaken_rows = refl

sync_to_manifest-Keeps_example : Keeps (OfManifest (λ m etag. m ≡ m0)) (sync_to_manifest env sqlite)
sync_to_manifest-Keeps_example = sync_to_manifest-Keeps env sqlite (λ m etag. m ≡ m0)
