-- ===== src/Env/Plain.antt =====
-- The manifests that the client writes have keys in ASCII, if those that it read have.
use s3db.Base.{
  ℕ, zero, suc, InRange64, Text, Option, none, some, List, [], ◌∷◌, ◌++◌, ◌==◌, ◌&&◌, nat_eq,
  is_empty, Bool-cases, inl, inr, take, drop, slash, codes, arith, path_base, trim_right,
}
use s3db.Base.Strings.{after_slash, or_slash}
use s3db.Env.{IsAscii, ArePlain, IsPlain}
use s3db.Manifest.{Manifest, LogEntry, BlobRef, epoch, strip_extension, append_log, with_snapshot}
use s3db.Manifest.Io.{stamp}
use s3db.Commit.{changeset_key}
use s3db.Transfer.{push_key}

IsAscii-append : (a b : Text) → IsAscii a → IsAscii b → IsAscii (a ++ b)
IsAscii-append [] b ha hb = hb
IsAscii-append (c ∷ a) b ha hb = (ha.0, IsAscii-append a b ha.1 hb)

-- A text between two others, as in the keys that the client makes.
pub IsAscii-between : (a b c : Text) → IsAscii a → IsAscii b → IsAscii c → IsAscii (a ++ (b ++ c))
IsAscii-between a b c ha hb hc = IsAscii-append a (b ++ c) ha (IsAscii-append b c hb hc)

IsAscii-take : (n : ℕ) (a : Text) → IsAscii a → IsAscii (take n a)
IsAscii-take zero a h = tt
IsAscii-take (suc n) [] h = tt
IsAscii-take (suc n) (c ∷ a) h = (h.0, IsAscii-take n a h.1)

IsAscii-drop : (n : ℕ) (a : Text) → IsAscii a → IsAscii (drop n a)
IsAscii-drop zero a h = h
IsAscii-drop (suc n) [] h = tt
IsAscii-drop (suc n) (c ∷ a) h = IsAscii-drop n a h.1

IsAscii-trim_right : (c : ℕ) (a : Text) → IsAscii a → IsAscii (trim_right c a)
unfolding trim_right
IsAscii-trim_right c [] h = tt
IsAscii-trim_right c (d ∷ a) h = elim (Bool-cases (d == c && is_empty (trim_right c a))) [
  | inl last ↦ rw last tt
  | inr on ↦ rw on (h.0, IsAscii-trim_right c a h.1)
]

after_slash-IsAscii : (s : Text) (o : Option ℕ) → IsAscii s → IsAscii (after_slash s o)
after_slash-IsAscii s none h = h
after_slash-IsAscii s (some i) h = IsAscii-drop (suc i) s h

or_slash-IsAscii : (s : Text) → IsAscii s → IsAscii (or_slash s)
or_slash-IsAscii [] h = (omega arith, tt)
or_slash-IsAscii (c ∷ s) h = h

IsAscii-path_base : (a : Text) → IsAscii a → IsAscii (path_base a)
unfolding path_base
IsAscii-path_base [] h = (omega arith, tt)
IsAscii-path_base (c ∷ a) h =
    or_slash-IsAscii _ (after_slash-IsAscii _ _ (IsAscii-trim_right slash (c ∷ a) h))

strip_extension-IsAscii :
    (base : Text) (o : Option ℕ) → IsAscii base → IsAscii (strip_extension base o)
strip_extension-IsAscii base none h = h
strip_extension-IsAscii base (some zero) h = h
strip_extension-IsAscii base (some (suc i)) h = IsAscii-take (suc i) base h

pub epoch-IsAscii : (m : Manifest) → IsPlain m → IsAscii (epoch m)
unfolding epoch
epoch-IsAscii m h =
    strip_extension-IsAscii (path_base m.snapshot.key) _ (IsAscii-path_base _ h.snapshot.0)

ArePlain-append :
    (log : List LogEntry) (e : LogEntry)
    → ArePlain log
    → IsAscii e.key × InRange64 e.seq × InRange64 e.size
    → ArePlain (log ++ e ∷ [])
ArePlain-append [] e h g = (g, tt)
ArePlain-append (x ∷ log) e h g = (h.0, ArePlain-append log e h.1 g)

pub append_log-IsPlain :
    (m : Manifest) (e : LogEntry)
    → IsPlain m
    → IsAscii e.key × InRange64 e.seq × InRange64 e.size
    → IsPlain (stamp (append_log e m))
unfolding append_log
append_log-IsPlain m e h g = record {
  format = omega arith;
  seq = g.1;
  schema = h.schema;
  snapshot = h.snapshot;
  log = ArePlain-append m.log e h.log g;
}

pub with_snapshot-IsPlain :
    (m : Manifest) (b : BlobRef)
    → IsPlain m
    → IsAscii b.key × InRange64 b.seq × InRange64 b.size
    → IsPlain (stamp (with_snapshot b m))
unfolding with_snapshot
with_snapshot-IsPlain m b h g = record {
  format = omega arith;
  seq = g.1;
  schema = h.schema;
  snapshot = g;
  log = tt;
}

pub changeset_key-IsAscii :
    (prefix e uuid : Text)
    → IsAscii prefix
    → IsAscii e
    → IsAscii uuid
    → IsAscii (changeset_key prefix e uuid)
changeset_key-IsAscii prefix e uuid hp he hu =
    IsAscii-between prefix (codes "changesets/") _ hp (ground arith) (
      IsAscii-between e (codes "/cs-") _ he (ground arith)
        (IsAscii-append uuid (codes ".bin") hu (ground arith)))

pub push_key-IsAscii :
    (prefix uuid : Text) → IsAscii prefix → IsAscii uuid → IsAscii (push_key prefix uuid)
push_key-IsAscii prefix uuid hp hu =
    IsAscii-between prefix (codes "snapshots/snap-push-") _ hp (ground arith)
      (IsAscii-append uuid (codes ".sqlite") hu (ground arith))
