-- ===== src/Tests/Rebase.antt =====
-- Two lost races, of which the first is rebased and the second conflicts.
use s3db.Base.{pos, Text, ◌≡◌, refl, List, [], ◌∷◌}
use s3db.Result.{Result, ok}
use s3db.Client.{Client, nil, closed, live}
use s3db.Commit.{do_update}
use s3db.Manifest.{Manifest, append_log}
use s3db.Blob.Shared.{World, Turn}
use s3db.Tests.Codec.{hash}
use s3db.Tests.Outside.{Rows, sqlite, env, insert_seven}
use s3db.Tests.Worlds.{cfg, client, theirs, m1, quiet, busy, write, write_manifest}
use s3db.Tests.Machinery.{machinery}

abbrev m2 : Manifest
m2 = append_log (theirs 2 2) m1

-- Others commit the row 9 before the first swap, and the row 7 before the second.
abbrev twice : List Turn
twice =
    quiet
    ∷ busy (write (1 ∷ []) (9 ∷ []) ∷ write_manifest m1 ∷ [])
    ∷ quiet
    ∷ quiet
    ∷ busy (write (2 ∷ []) (7 ∷ []) ∷ write_manifest m2 ∷ [])
    ∷ []

abbrev run : Result (Unit {0}) × Client (World hash) Rows
run = do_update env sqlite cfg insert_seven (client twice)

run-ok : run.0 ≡ ok tt
unfolding machinery
run-ok = refl

-- The rollback takes the row 9 back, and the sync after it starts behind that row's entry.
abbrev rows_of : Client (World hash) Rows → Text
rows_of c = elim c.st.conn [ nil ↦ [] | closed ↦ [] | live d ↦ d.rows ]

run_rows : rows_of run.1 ≡ 5 ∷ 7 ∷ 7 ∷ []
unfolding machinery
run_rows = refl

run_seq : run.1.st.local_seq ≡ pos 3
unfolding machinery
run_seq = refl
