-- ===== src/Tests/Updates.antt =====
-- An update of a client that is behind, with a compaction after it.
use s3db.Base.{pos, codes, none, arith, ◌≡◌, refl, [], ◌∷◌}
use s3db.Result.{Result}
use s3db.Blob.Shared.{World}
use s3db.Client.{Client}
use s3db.Db.{update, view, stats}
use s3db.Db.Viewed.{view-Keeps}
use s3db.Result.Keeps.{Keeps}
use s3db.Blob.Mem.Swap.{contents}
use s3db.Db.Updated.{Updated}
use s3db.Tests.Codec.{hash}
use s3db.Tests.Outside.{Rows, sqlite, env, insert_seven}
use s3db.Tests.Worlds.{cfg, client, busy, write, write_manifest, m1}
use s3db.Tests.Machinery.{updating}

abbrev behind : Client (World hash) Rows
behind = client (busy (write (1 ∷ []) (9 ∷ []) ∷ write_manifest m1 ∷ []) ∷ [])

abbrev run : Result (Unit {0}) × Client (World hash) Rows
run = update env sqlite cfg (pos 2) none insert_seven behind

run_stats : ((stats run.1.st).seq ≡ pos 2) × ((stats run.1.st).log_entries ≡ 0)
unfolding updating stats
run_stats = (refl, refl)

-- What the manifest's key holds in a store where nobody else writes.
abbrev Quiet : World hash → Type 0
Quiet w = (w.turns ≡ []) × (contents w.mem (codes "db/manifest.json") ≡ none)

view-Keeps_example :
    Keeps (λ (c : Client (World hash) Rows). Quiet c.out) (view env sqlite cfg insert_seven)
unfolding updating
view-Keeps_example =
    view-Keeps env Quiet (λ k. record { at = λ w h. ground (arith, h) })
      (λ k start end. record { at = λ w h. ground (arith, h) }) sqlite cfg insert_seven
