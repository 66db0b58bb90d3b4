-- ===== src/Sync/Whole.antt =====
-- sync.go: a snapshot fetched in parts is the snapshot, in whatever order the parts arrive.
use s3db.Base.{
  ℕ, ◌+◌, ◌-◌, ◌*◌, ◌/◌, ◌≤◌, ◌<◌, pos, Text, Bool, true, false, ◌||◌, ◌≡◌, refl, ◌∙◌, ap, subst,
  List, [], ◌∷◌, length, leb, arith,
}
use mathlib.Core.List.{Permᴰ}
use mathlib.Core.List.Permᴰ
use s3db.Base.{Bool-cases, inl, inr, ◌==◌, nat_eq}
use s3db.Base.Bytes.{byte, eq_of_bytes}
use s3db.Result.{ok}
use s3db.Result.Exec.{◌>>=◌}
use s3db.Env.{Env}
use s3db.Sync.{
  write_at, split_ranges, fetch_ranges, download_parallel, download_single, fetch_snapshot,
  parallel_download_threshold, parallel_download_parts,
}
use s3db.Sync.Parts.{
  part, in_range, covered, Fits, AllFit, length-part, byte-part, length-write_at,
  byte-write_at_before, byte-write_at_on, byte-write_at_after, ranges-fit, ranges-covered,
}

-- What a file has of `body`: the bytes at the places that `filled` names.
record Has (body : Text) (filled : ℕ → Bool) (file : Text) : Type 0 where
  fits : length file ≤ length body
  right : (i : ℕ) → filled i ≡ true → (i < length file) × (byte file i ≡ byte body i)

-- A store that holds `body` under `key` as long as `P` holds, and gives it whole and in ranges.
pub record Serves {S : Type 0} (env : Env S) (key body tag : Text) (P : S → Type 0) : Type 0 where
  pub whole : (s : S) → P s → (t : S) × P t × (env.store.get key s ≡ (ok (body, tag), t))
  pub range :
      (start end : ℕ) (s : S)
      → start ≤ end
      → end < length body
      → P s
      → (t : S) × P t
        × (env.store.get_range key (pos start) (pos end) s ≡ (ok (part body start end), t))

module _ (body : Text) (start end : ℕ) (le : start ≤ end) (lt : end < length body)
    (filled : ℕ → Bool) (file : Text) (has : Has body filled file) where
  after : Text
  after = write_at start (part body start end) file

  size_after : length after ≡ end + 1 + (length file - (end + 1))
  unfolding after
  size_after =
      omega
        (arith, length-write_at start (part body start end) file, length-part body start end le lt)

  byte_on : (k : ℕ) → start + k ≤ end → byte after (start + k) ≡ byte body (start + k)
  unfolding after
  byte_on k within =
      byte-write_at_on start (part body start end) file k
        (omega (arith, length-part body start end le lt))
      ∙ byte-part body start end k within

  byte-after : (k : ℕ) → byte after (end + 1 + k) ≡ byte file (end + 1 + k)
  unfolding after
  byte-after k =
      let size = length-part body start end le lt in
      let place : end + 1 + k ≡ start + (length (part body start end) + k) = omega (arith, size) in
      let back : start + length (part body start end) + k ≡ end + 1 + k = omega (arith, size) in
      ap (byte after) place
      ∙ byte-write_at_after start (part body start end) file k
      ∙ ap (byte file) back

  byte_before : (i : ℕ) → i < start → byte after i ≡ byte file i
  unfolding after
  byte_before i h = byte-write_at_before start (part body start end) file i h

  written_right :
      (i : ℕ)
      → (in_range (start, end) i || filled i) ≡ true
      → (i < length after) × (byte after i ≡ byte body i)
  written_right i h = ground (
    arith,
    size_after,
    byte_on (i - start),
    byte-after (i - (end + 1)),
    byte_before i,
    has.right i,
  )

  written-Has : Has body (λ i. in_range (start, end) i || filled i) after
  unfolding after
  written-Has = record {
    fits = omega (
      arith,
      has.fits,
      length-write_at start (part body start end) file,
      length-part body start end le lt,
    );
    right = written_right;
  }

module _ {S : Type 0} (env : Env S) (key body tag : Text) (P : S → Type 0)
    (served : Serves env key body tag P) where
  -- The parts of any list of ranges end up in the file.
  fetch_ranges-Has :
      (rs : List (ℕ × ℕ)) (filled : ℕ → Bool) (file : Text) (s : S)
      → AllFit (length body) rs
      → P s
      → Has body filled file
      → (end : Text) × (t : S) × P t
        × (fetch_ranges env key rs file s ≡ (ok end, t))
        × Has body (λ i. covered rs i || filled i) end
  unfolding fetch_ranges ◌>>=◌
  fetch_ranges-Has [] filled file s fit p has = (file, s, p, refl, has)
  fetch_ranges-Has ((start, end) ∷ rs) filled file s fit p has =
      let (t, q, e) = served.range start end s fit.0.0 fit.0.1 p in
      let now = written-Has body start end fit.0.0 fit.0.1 filled file has in
      let (out, u, r, f, all) =
        fetch_ranges-Has rs (λ i. in_range (start, end) i || filled i)
          (write_at start (part body start end) file) t fit.1 q (unfold after in now) in
      (
        out,
        u,
        r,
        rw e f,
        record { fits = all.fits; right = λ i h. all.right i (ground (arith, h)) },
      )

abbrev nothing : ℕ → Bool
nothing i = false

empty-Has : (body : Text) → Has body nothing []
empty-Has body = record { fits = omega arith; right = λ i h. cc }

-- A file that has every byte is the body.
full-Has :
    (body file : Text) (filled : ℕ → Bool)
    → ((i : ℕ) → i < length body → filled i ≡ true)
    → Has body filled file
    → file ≡ body
full-Has body file filled all has =
    eq_of_bytes file body
      (ground (arith, has.fits, all (length body - 1), has.right (length body - 1)))
      (λ i h. (has.right i (all i h)).1)

-- An order changes neither what fits nor what is covered.
AllFit-perm : (size : ℕ) {rs os : List (ℕ × ℕ)} → Permᴰ rs os → AllFit size rs → AllFit size os
AllFit-perm size Permᴰ.nil fit = tt
AllFit-perm size (Permᴰ.cons e p) fit = (subst (Fits size) e fit.0, AllFit-perm size p fit.1)
AllFit-perm size (Permᴰ.swap e f) fit =
    (subst (Fits size) f fit.1.0, (subst (Fits size) e fit.0, fit.1.1))
AllFit-perm size (Permᴰ.trans p q) fit = AllFit-perm size q (AllFit-perm size p fit)

covered-perm : {rs os : List (ℕ × ℕ)} → Permᴰ rs os → (i : ℕ) → covered rs i ≡ covered os i
covered-perm Permᴰ.nil i = refl
covered-perm (Permᴰ.cons e p) i = ground (arith, e, covered-perm p i)
covered-perm (Permᴰ.swap e f) i = ground (arith, e, f)
covered-perm (Permᴰ.trans p q) i = covered-perm p i ∙ covered-perm q i

module _ (size parts : ℕ) (some_bytes : 1 ≤ size) (some_parts : 1 ≤ parts) where
  chunks-fit : parts * (size / parts) ≤ size
  chunks-fit = grind arith

  split_ranges-fit : AllFit size (split_ranges size parts)
  unfolding split_ranges
  split_ranges-fit = elim (Bool-cases (size / parts == 0)) [
    | inl none ↦ rw none (ranges-fit size size some_bytes 1 0 (omega arith))
    | inr some ↦
        rw some (
          ranges-fit size (size / parts) (ground (arith, some)) parts 0 (omega (arith, chunks-fit)))
  ]

  split_ranges-covered : (i : ℕ) → i < size → covered (split_ranges size parts) i ≡ true
  unfolding split_ranges
  split_ranges-covered i lt = elim (Bool-cases (size / parts == 0)) [
    | inl none ↦ rw none (ranges-covered size size some_bytes 1 0 i (omega arith) (omega arith) lt)
    | inr some ↦ rw some (
        ranges-covered size (size / parts) (ground (arith, some)) parts 0 i some_parts (omega arith)
          lt)
  ]

module _ {S : Type 0} (env : Env S) (key body tag : Text) (P : S → Type 0)
    (served : Serves env key body tag P) where
  -- The parts of an object that is not empty make up its body, in whatever order the ranges are
  -- fetched and written, where the store serves that body throughout.
  pub fetch_ranges_any_order :
      (parts : ℕ) (order : List (ℕ × ℕ)) (s : S)
      → 1 ≤ length body
      → 1 ≤ parts
      → Permᴰ (split_ranges (length body) parts) order
      → P s
      → (t : S) × P t × (fetch_ranges env key order [] s ≡ (ok body, t))
  fetch_ranges_any_order parts order s some_bytes some_parts perm p =
      let fit = split_ranges-fit (length body) parts some_bytes some_parts in
      let cover = split_ranges-covered (length body) parts some_bytes some_parts in
      let (end, t, q, e, has) =
        fetch_ranges-Has env key body tag P served order nothing [] s
          (AllFit-perm (length body) perm fit) p (empty-Has body) in
      let same : end ≡ body =
        full-Has body end _ (λ i h. ground (arith, covered-perm perm i, cover i h)) has in
      (t, q, rw same at e)

  single-whole : (s : S) → P s → (t : S) × P t × (download_single env key s ≡ (ok body, t))
  unfolding download_single ◌>>=◌
  single-whole s p = let (t, q, e) = served.whole s p in (t, q, rw e)

  parallel-whole :
      (s : S)
      → P s
      → 1 ≤ length body
      → (t : S) × P t
        × (download_parallel env key (length body) parallel_download_parts s ≡ (ok body, t))
  unfolding download_parallel
  parallel-whole s p some_bytes =
      fetch_ranges_any_order parallel_download_parts _ s some_bytes (omega arith)
        (Permᴰ.refl (split_ranges (length body) parallel_download_parts)) p

  -- What `downloadSnapshot` fetches with the size of the object is its body, by one get below the
  -- threshold and in parts from there on, where the store serves that body throughout.
  pub fetch_snapshot-whole :
      (s : S) → P s → (t : S) × P t × (fetch_snapshot env key (pos (length body)) s ≡ (ok body, t))
  unfolding fetch_snapshot
  fetch_snapshot-whole s p = elim (Bool-cases (leb parallel_download_threshold (length body))) [
    | inl large ↦ rw large (parallel-whole s p (ground (arith, large)))
    | inr small ↦ rw small (single-whole s p)
  ]
