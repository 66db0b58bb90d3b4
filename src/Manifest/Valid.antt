-- ===== src/Manifest/Valid.antt =====
-- What `validate` accepts, by a specification over the positions of the log.
use s3db.Base.{
  ℕ, zero, suc, ◌+◌, ℤ, pos, ◌≤ℤ◌, add64, int_eq, ◌≡◌, ◌∙◌, sym, refl, ◌≢◌, ◌↔◌, some, List, [],
  ◌∷◌, arith, length, get_elem?, InRange64,
}
use s3db.Base.Int.{add64_zero, add64-add64_pos}
use s3db.Result.{ok}
use s3db.Manifest.{Manifest, LogEntry, validate_log, validate, last_seq}

-- The documented invariants: the log counts up by one from the snapshot, and `seq` is its end.
pub record IsValid (m : Manifest) : Type 0 where
  pub snapshot_key : m.snapshot.key ≢ []
  pub snapshot_seq : pos 0 ≤ℤ m.snapshot.seq
  pub format : m.format_version ≤ℤ pos 1
  pub schema : pos 0 ≤ℤ m.schema_version
  pub log_key : (i : ℕ) (e : LogEntry) → get_elem? m.log i ≡ some e → e.key ≢ []
  pub log_seq :
      (i : ℕ) (e : LogEntry)
      → get_elem? m.log i ≡ some e
      → e.seq ≡ add64 m.snapshot.seq (pos (1 + i))
  pub seq_end : m.seq ≡ add64 m.snapshot.seq (pos (length m.log))

-- The entries count up from `add64 s (pos k)`.
abbrev pub CountsFrom : ℤ → ℕ → List LogEntry → Type 0
CountsFrom s k [] = Unit
CountsFrom s k (e ∷ log) = (e.key ≢ []) × (e.seq ≡ add64 s (pos k)) × CountsFrom s (k + 1) log

validate_log-CountsFrom :
    (i k : ℕ) (s want : ℤ) (log : List LogEntry)
    → want ≡ add64 s (pos k)
    → (validate_log i want log ≡ ok tt) ↔ CountsFrom s k log
unfolding validate_log
validate_log-CountsFrom i k s want [] h = (λ _. tt, λ _. refl)
validate_log-CountsFrom i k s want (e ∷ log) h = ground (
  arith,
  validate_log-CountsFrom (i + 1) (k + 1) s (add64 want (pos 1)) log,
  add64-add64_pos s k 1,
)

CountsFrom-get :
    (s : ℤ) (k : ℕ) (log : List LogEntry)
    → CountsFrom s k log
    → (i : ℕ) (e : LogEntry) → get_elem? log i ≡ some e
    → (e.key ≢ []) × (e.seq ≡ add64 s (pos (k + i)))
CountsFrom-get s k [] c i e h = cc
CountsFrom-get s k (x ∷ log) c zero e h = ground arith
CountsFrom-get s k (x ∷ log) c (suc i) e h = ground (arith, CountsFrom-get s (k + 1) log c.2 i e h)

CountsFrom-of_get :
    (s : ℤ) (k : ℕ) (log : List LogEntry)
    → ((i : ℕ) (e : LogEntry)
        → get_elem? log i ≡ some e
        → (e.key ≢ []) × (e.seq ≡ add64 s (pos (k + i))))
    → CountsFrom s k log
CountsFrom-of_get s k [] h = tt
CountsFrom-of_get s k (x ∷ log) h = (
  (h 0 x refl).0,
  ground (arith, h 0 x refl),
  CountsFrom-of_get s (k + 1) log λ i e g. ground (arith, h (suc i) e g),
)

last_seq-CountsFrom :
    (s t : ℤ) (k : ℕ) (log : List LogEntry)
    → CountsFrom s (k + 1) log
    → t ≡ add64 s (pos k)
    → last_seq t log ≡ add64 s (pos (k + length log))
last_seq-CountsFrom s t k [] c h = ground arith
last_seq-CountsFrom s t k (e ∷ log) c h =
    ground (arith, last_seq-CountsFrom s e.seq (k + 1) log c.2)

-- The seven tests of `validate`, read as propositions; the loop over the log stays a call.
validate-tests :
    (m : Manifest)
    → (validate m ≡ ok tt) ↔ (
        (m.snapshot.key ≢ [])
        × (pos 0 ≤ℤ m.snapshot.seq)
        × (m.format_version ≤ℤ pos 1)
        × (pos 0 ≤ℤ m.schema_version)
        × (validate_log 0 (add64 m.snapshot.seq (pos 1)) m.log ≡ ok tt)
        × (m.seq ≡ last_seq m.snapshot.seq m.log))
unfolding validate
validate-tests m = ground arith

module _ (m : Manifest) (fits : InRange64 m.snapshot.seq) where
  -- the entry before the first is the snapshot
  last_seq-end :
      CountsFrom m.snapshot.seq 1 m.log
      → last_seq m.snapshot.seq m.log ≡ add64 m.snapshot.seq (pos (length m.log))
  last_seq-end c =
      ground (
        arith,
        last_seq-CountsFrom m.snapshot.seq m.snapshot.seq 0 m.log c (sym (add64_zero _ fits)),
      )

  IsValid-of_validate : validate m ≡ ok tt → IsValid m
  IsValid-of_validate h =
      let t = (validate-tests m).0 h in
      let c = (validate_log-CountsFrom 0 1 m.snapshot.seq _ m.log refl).0 t.4 in
      record {
        snapshot_key = t.0;
        snapshot_seq = t.1;
        format = t.2;
        schema = t.3;
        log_key = λ i e g. (CountsFrom-get m.snapshot.seq 1 m.log c i e g).0;
        log_seq = λ i e g. (CountsFrom-get m.snapshot.seq 1 m.log c i e g).1;
        seq_end = t.5 ∙ last_seq-end c;
      }

  validate-of_IsValid : IsValid m → validate m ≡ ok tt
  validate-of_IsValid v =
      let c =
        CountsFrom-of_get m.snapshot.seq 1 m.log (λ i e g. (v.log_key i e g, v.log_seq i e g)) in
      (validate-tests m).1 (
        v.snapshot_key,
        v.snapshot_seq,
        v.format,
        v.schema,
        (validate_log-CountsFrom 0 1 m.snapshot.seq _ m.log refl).1 c,
        v.seq_end ∙ sym (last_seq-end c),
      )

  -- For a snapshot number that an int64 holds, `validate` accepts exactly the manifests that meet
  -- the documented invariants: key, number, format and schema version of the snapshot in range,
  -- each log entry with a key and with the number of its position after the snapshot, and `seq`
  -- the end.
  pub validate-iff-IsValid : (validate m ≡ ok tt) ↔ IsValid m
  validate-iff-IsValid = (IsValid-of_validate, validate-of_IsValid)
