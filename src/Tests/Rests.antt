-- ===== src/Tests/Rests.antt =====
-- A store that nobody else writes to: a snapshot in parts, and a file that is pushed and pulled.
use s3db.Base.{◌%◌}
use s3db.Base.{ℕ_discrete, ℕ, pos, Text, codes, ◌≡◌, refl, some, [], List, ◌∷◌, arith}
use mathlib.Core.List.{Permᴰ}
use s3db.Result.{ok}
use s3db.Blob.Shared.{World, holds, act_all}
use s3db.Blob.Mem.Swap.{contents}
use s3db.Env.Quiet.{IsQuiet, Runs}
use s3db.Env.Quiet.Shared.{AtRest, shared_env-IsQuiet}
use s3db.Env.Quiet.Manifests.{Holds, quiet-Serves}
use s3db.Sync.{split_ranges, fetch_ranges}
use s3db.Sync.Whole.{Serves, fetch_ranges_any_order}
use s3db.Transfer.{push, pull}
use s3db.Transfer.Fetched.{Accepts}
use s3db.Transfer.Again.{pulled_again, pull-push}
use s3db.Env.{IsAscii}
use s3db.Tests.Codec.{codec, hash, hash-IsTag, codec-RoundTrips, put_manifest}
use s3db.Tests.Outside.{sqlite, env}
use s3db.Tests.Worlds.{m0-IsPlain, db-IsAscii, world, m0, snap, write, empty-IsWellFormed}
use s3db.Blob.Mem.{new_mem_blob_store}
use s3db.Tests.Machinery.{transferring}

clock_uuid :
    (w : World hash)
    → AtRest hash w
    → (u : Text) × IsAscii u × Runs (holds hash) (AtRest hash) env.uuid w u (holds hash w)
clock_uuid w r = (
  w.clock % 128 ∷ [],
  (omega arith, tt),
  record { end = w; rests = r; holds = λ j. refl; run = refl },
)

pub env-IsQuiet : IsQuiet env hash (holds hash) (AtRest hash)
env-IsQuiet = shared_env-IsQuiet hash codec env.uuid env.pause env.now clock_uuid

pub sqlite-Accepts : (bytes : Text) → Accepts sqlite bytes
sqlite-Accepts bytes = record {
  conn = record { rows = bytes; saved = bytes };
  opens = refl;
  checks = refl;
}

pub m0-Holds :
    Holds env hash
      (holds hash)
      (AtRest hash)
      env-IsQuiet
      (codes "db/manifest.json")
      m0
      (hash (put_manifest m0))
      (world [])
unfolding transferring contents
m0-Holds = record { body = put_manifest m0; stored = refl; decodes = refl; accepted = refl }

pull-push_example :
    (t u : World hash) × (push env sqlite (codes "db/") (ok (7 ∷ 8 ∷ [])) (pos 0) (world [])
      ≡ (ok tt, t))
    × (pull env sqlite (codes "db/") t ≡ (ok (pulled_again m0 (7 ∷ 8 ∷ []), 7 ∷ 8 ∷ []), u))
unfolding transferring
pull-push_example =
    pull-push env sqlite hash (holds hash) (AtRest hash) env-IsQuiet hash-IsTag codec-RoundTrips
      (codes "db/") (7 ∷ 8 ∷ []) m0 (hash (put_manifest m0)) (pos 0) (world []) refl refl
      (sqlite-Accepts (7 ∷ 8 ∷ [])) m0-Holds (omega arith) m0-IsPlain db-IsAscii (omega arith) refl

-- a store with one object of five bytes
abbrev five : Text
five = 1 ∷ 2 ∷ 3 ∷ 4 ∷ 5 ∷ []

abbrev holding : World hash
holding =
    let (m, good) =
      act_all hash 0 (write snap five ∷ []) (new_mem_blob_store, empty-IsWellFormed) in
    record { mem = m; well_formed = good; turns = []; clock = 0 }

abbrev Serving : World hash → Type 0
Serving w = AtRest hash w × ((j : Text) → holds hash w j ≡ holds hash holding j)

holding-five : holds hash holding snap ≡ some (five, hash five)
unfolding transferring contents
holding-five = refl

holding-Serves : Serves env snap five (hash five) Serving
holding-Serves =
    quiet-Serves env hash (holds hash) (AtRest hash) env-IsQuiet snap five (hash five) holding
      holding-five

-- The second part arrives before the first.
abbrev order : List (ℕ × ℕ)
order = (1, 1) ∷ (0, 0) ∷ (2, 2) ∷ (3, 4) ∷ []

order-perm : Permᴰ (split_ranges 5 4) order
unfolding split_ranges ℕ_discrete
order-perm = Permᴰ.swap refl refl

fetch_ranges_any_order_example :
    (t : World hash) × Serving t × (fetch_ranges env snap order [] holding ≡ (ok five, t))
fetch_ranges_any_order_example =
    fetch_ranges_any_order env snap five (hash five) Serving holding-Serves 4 order holding
      (omega arith) (omega arith) order-perm (refl, λ j. refl)
