-- ===== src/Manifest/Update.antt =====
-- The updates of the manifest keep its invariants.
use s3db.Base.{
  ℕ, zero, suc, ◌+◌, ◌<◌, pos, add64, add64-add64_pos, ◌≤ℤ◌, add64_zero, InRange64, ◌≡◌, refl, sym,
  ◌∙◌, ◌≢◌, some, List, [], ◌∷◌, arith, length, length-append, get_elem?, get_elem?-append_one,
}
use s3db.Base.Int.{add64_pos, half64}
use s3db.Manifest.{Manifest, LogEntry, BlobRef, append_log, with_snapshot}
use s3db.Manifest.Io.{stamp}
use s3db.Manifest.Valid.{IsValid}

module _ (m : Manifest) (e : LogEntry) (v : IsValid m) (key : e.key ≢ [])
    (next : e.seq ≡ add64 m.seq (pos 1)) where
  seq-next : e.seq ≡ add64 m.snapshot.seq (pos (length m.log + 1))
  seq-next = next ∙ rw v.seq_end (add64-add64_pos m.snapshot.seq (length m.log) 1)

  -- The entry after the end keeps a manifest valid, and is its new end.
  pub append_log-IsValid : IsValid (append_log e m)
  unfolding append_log
  append_log-IsValid = record {
    snapshot_key = v.snapshot_key;
    snapshot_seq = v.snapshot_seq;
    format = v.format;
    schema = v.schema;
    log_key = λ i x h. ground (arith, get_elem?-append_one m.log e i x h, v.log_key i x);
    log_seq = λ i x h. ground (arith, get_elem?-append_one m.log e i x h, v.log_seq i x, seq-next);
    seq_end = ground (arith, seq-next, length-append m.log (e ∷ []));
  }

pub stamp-IsValid : (m : Manifest) → IsValid m → IsValid (stamp m)
stamp-IsValid m v = record {
  snapshot_key = v.snapshot_key;
  snapshot_seq = v.snapshot_seq;
  format = omega arith;
  schema = v.schema;
  log_key = v.log_key;
  log_seq = v.log_seq;
  seq_end = v.seq_end;
}

-- Where the number of a valid manifest is not negative and fits 64 bits, the manifest with a new
-- snapshot at that number, under a key that is not empty, is valid, its log is empty, and
-- sequence number and schema version are kept.
pub with_snapshot-IsValid :
    (m : Manifest) (b : BlobRef)
    → IsValid m
    → b.key ≢ []
    → b.seq ≡ m.seq
    → pos 0 ≤ℤ m.seq
    → InRange64 m.seq
    → IsValid (with_snapshot b m)
      × ((with_snapshot b m).seq ≡ m.seq)
      × ((with_snapshot b m).schema_version ≡ m.schema_version)
      × ((with_snapshot b m).log ≡ [])
unfolding with_snapshot
with_snapshot-IsValid m b v key same low fits = (
  record {
    snapshot_key = key;
    snapshot_seq = ground arith;
    format = omega arith;
    schema = v.schema;
    log_key = λ i x h. cc;
    log_seq = λ i x h. cc;
    seq_end = sym (add64_zero b.seq (rw same fits));
  },
  same,
  refl,
  refl,
)

get_elem?-lt_length :
    {A : Type 0} (xs : List A) (i : ℕ) (x : A) → get_elem? xs i ≡ some x → i < length xs
get_elem?-lt_length [] i x h = cc
get_elem?-lt_length (y ∷ xs) zero x h = omega arith
get_elem?-lt_length (y ∷ xs) (suc i) x h = omega (arith, get_elem?-lt_length xs i x h)

module _ (m : Manifest) (s : ℕ) (v : IsValid m) (base : m.snapshot.seq ≡ pos s)
    (fits : s + length m.log < half64) where
  -- The numbers of the entries, which stay below 2 ^ 63.
  pub entry-seq :
      (i : ℕ) (e : LogEntry)
      → get_elem? m.log i ≡ some e
      → (e.seq ≡ pos (s + (1 + i))) × (i < length m.log)
  entry-seq i e g =
      let lt = get_elem?-lt_length m.log i e g in
      (v.log_seq i e g ∙ rw base (add64_pos s (1 + i) (omega arith)), lt)
