-- ===== src/Tests/Openings.antt =====
-- An open of a small database, with a migration.
use s3db.Base.{pos, codes, Option, none, some, Bool, true, false, ◌≡◌, refl, [], ◌∷◌}
use s3db.Result.{Result, ok, err}
use s3db.Blob.Shared.{World, Later, holds, shared_store-IsLawful}
use s3db.Client.{Client, CommitConfig}
use s3db.Settings.{Options}
use s3db.Opening.{open_db}
use s3db.Opening.Ready.{IsReady, open_db-IsReady}
use s3db.Tests.Codec.{hash}
use s3db.Tests.Outside.{Rows, sqlite, env}
use s3db.Tests.Worlds
use s3db.Tests.Worlds.{world}
use s3db.Tests.Migrations.{first}
use s3db.Tests.Machinery.{opening}

abbrev options : Options Rows (Unit {0})
options = record {
  local_path = codes "f";
  max_retries = pos 10;
  auto_compact_after = pos 0;
  migrations = first ∷ [];
  gc_grace_period = pos 0;
  on_compact_error = none;
  schema_unchecked = false;
}

abbrev opened : Result (Option (CommitConfig × Client (World hash) Rows)) × World hash
opened = open_db env sqlite options (codes "db/") (ok []) (λ w. w) (ok []) 3 (world [])

abbrev Handle : Type 0
Handle = CommitConfig × Client (World hash) Rows

-- the handle of a run, or another one
abbrev handle : Handle → Result (Option Handle) → Handle
handle d (ok (some h)) = h
handle d _ = d

abbrev has_handle : Result (Option Handle) → Bool
has_handle (ok (some h)) = true
has_handle _ = false

handle-ok :
    (d : Handle) (r : Result (Option Handle)) → has_handle r ≡ true → r ≡ ok (some (handle d r))
handle-ok d (ok (some h)) e = refl
handle-ok d (ok none) e = cc e
handle-ok d (err x) e = cc e

abbrev other : Handle
other = (record { prefix = []; max_retries = 0; schema_ver = pos 0 }, Worlds.client [])

abbrev db : Handle
db = handle other opened.0

opened-handle : has_handle opened.0 ≡ true
unfolding opening
opened-handle = refl

opened-ok : opened ≡ (ok (some db), opened.1)
opened-ok = λ i. (handle-ok other opened.0 opened-handle i, opened.1)

open_db-IsReady_example :
    IsReady env sqlite options hash (holds hash) (Later hash) (shared_store-IsLawful hash) db.0 db.1
    × (db.1.out ≡ opened.1)
open_db-IsReady_example =
    open_db-IsReady env sqlite options hash (holds hash) (Later hash) (shared_store-IsLawful hash)
      (codes "db/") (ok []) (λ w. w) (ok []) 3 (world []) opened.1 db.0 db.1 refl opened-ok
