-- ===== src/Tests/Worlds.antt =====
-- A small database, a client of it, and what other writers do between the client's calls.
use s3db.Base.{arith}
use s3db.Base.{ℕ, pos, Text, codes, none, List, [], ◌∷◌, false}
use s3db.Base.Assoc
use s3db.Env.{IsPlain, IsAscii}
use s3db.Manifest.{Manifest, LogEntry, append_log}
use s3db.Blob.{no_condition}
use s3db.Blob.Mem.{new_mem_blob_store}
use s3db.Blob.Mem.Listing.{IsWellFormed}
use s3db.Blob.Shared.{World, Write, Turn, act_all}
use s3db.Client.{Client, CommitConfig, live}
use s3db.Tests.Codec.{hash, put_manifest}
use s3db.Tests.Outside.{Rows}

abbrev pub cfg : CommitConfig
cfg = record { prefix = codes "db/"; max_retries = 3; schema_ver = pos 0 }

abbrev pub snap : Text
snap = codes "db/snapshots/a.sqlite"

abbrev pub m0 : Manifest
m0 = record {
  format_version = pos 1;
  seq = pos 0;
  schema_version = pos 0;
  snapshot = record { key = snap; seq = pos 0; size = pos 1 };
  log = [];
}

-- The entry `n`, under the key `k`.
abbrev pub theirs : ℕ → ℕ → LogEntry
theirs k n = record { key = k ∷ []; seq = pos n; size = pos 1 }

abbrev pub write : Text → Text → Write
write k body = Write.put k body no_condition

abbrev pub write_manifest : Manifest → Write
write_manifest m = write (codes "db/manifest.json") (put_manifest m)

pub empty-IsWellFormed : IsWellFormed hash new_mem_blob_store
unfolding Assoc.lookup
empty-IsWellFormed = record { nodup = tt; tags = λ k e h. cc }

abbrev pub bare : World hash
bare = record { mem = new_mem_blob_store; well_formed = empty-IsWellFormed; turns = []; clock = 0 }

-- The store with `m0` and its snapshot, which has the row 5.
abbrev pub world : List Turn → World hash
world turns =
    let (m, good) =
      act_all hash 0 (write snap (5 ∷ []) ∷ write_manifest m0 ∷ [])
        (new_mem_blob_store, empty-IsWellFormed) in
    record { mem = m; well_formed = good; turns = turns; clock = 0 }

abbrev pub client : List Turn → Client (World hash) Rows
client turns = record {
  out = world turns;
  st = record {
    conn = live (record { rows = 5 ∷ []; saved = [] });
    local_seq = pos 0;
    snapshot_key = snap;
    manifest = m0;
    etag = hash (put_manifest m0);
  };
  disk = [];
  saved = false;
}

abbrev pub quiet : Turn
quiet = record { others = []; ctx = none }

abbrev pub busy : List Write → Turn
busy ws = record { others = ws; ctx = none }

abbrev pub m1 : Manifest
m1 = append_log (theirs 1 1) m0

-- Between the upload and the swap another writer commits the row 9.
abbrev pub overtaken : List Turn
overtaken = quiet ∷ busy (write (1 ∷ []) (9 ∷ []) ∷ write_manifest m1 ∷ []) ∷ []

snap-IsAscii : IsAscii snap
snap-IsAscii = ground arith

-- the keys of `m0` are in ASCII
pub m0-IsPlain : IsPlain m0
m0-IsPlain = record {
  format = omega arith;
  seq = omega arith;
  schema = omega arith;
  snapshot = (snap-IsAscii, omega arith, omega arith);
  log = tt;
}

pub db-IsAscii : IsAscii (codes "db/")
db-IsAscii = ground arith
