-- ===== src/Sync/Parts.antt =====
-- sync.go, `downloadParallel`: the ranges cover the object, and the writes of its parts.
use s3db.Base.{
  ℕ, zero, suc, ◌+◌, ◌-◌, ◌*◌, ◌≤◌, ◌<◌, Text, Bool, true, false, ◌&&◌, ◌||◌, ◌≡◌, ◌∙◌, ap, List,
  [], ◌∷◌, ◌++◌, nat_eq, leb, length, length-append, take, drop, arith,
}
use mathlib.Core.List.{append_assoc}
use s3db.Base.Lists.{length-drop, replicate}
use s3db.Base.Bytes.{
  byte, byte-append_left, byte-append_right, byte-append_zeros, byte-take, byte-drop, length-take,
  length-replicate,
}
use s3db.Sync.{write_at, ranges}

-- The bytes from `start` to `end`, both included.
abbrev pub part : Text → ℕ → ℕ → Text
part body start end = take (end + 1 - start) (drop start body)

abbrev pub in_range : ℕ × ℕ → ℕ → Bool
in_range (start, end) i = leb start i && leb i end

abbrev pub covered : List (ℕ × ℕ) → ℕ → Bool
covered [] i = false
covered (r ∷ rs) i = in_range r i || covered rs i

abbrev pub Fits : ℕ → ℕ × ℕ → Type 0
Fits size (start, end) = (start ≤ end) × (end < size)

abbrev pub AllFit : ℕ → List (ℕ × ℕ) → Type 0
AllFit size [] = Unit
AllFit size (r ∷ rs) = Fits size r × AllFit size rs

pub length-part :
    (body : Text) (start end : ℕ)
    → start ≤ end
    → end < length body
    → length (part body start end) ≡ end + 1 - start
length-part body start end le lt =
    length-take (end + 1 - start) (drop start body) (omega (arith, length-drop start body))

pub byte-part :
    (body : Text) (start end i : ℕ)
    → start + i ≤ end
    → byte (part body start end) i ≡ byte body (start + i)
byte-part body start end i le =
    byte-take (end + 1 - start) (drop start body) i (omega arith) ∙ byte-drop start body i

-- The file that a write is made on, with zeros up to the offset.
abbrev grown : ℕ → Text → Text
grown off file = file ++ replicate (off - length file) 0

length-grown : (off : ℕ) (file : Text) → off ≤ length (grown off file)
length-grown off file = omega (
  arith,
  length-append {0} file (replicate (off - length file) 0),
  length-replicate (off - length file),
)

write_at_split :
    (off : ℕ) (p file : Text)
    → write_at off p file ≡ take off (grown off file) ++ (p ++ drop (off + length p) file)
unfolding write_at
write_at_split off p file = append_assoc (take off (grown off file)) p (drop (off + length p) file)

pub length-write_at :
    (off : ℕ) (p file : Text)
    → length (write_at off p file) ≡ off + length p + (length file - (off + length p))
length-write_at off p file =
    let before = take off (grown off file) in
    rw (write_at_split off p file) omega (
      arith,
      length-append {0} before (p ++ drop (off + length p) file),
      length-append {0} p (drop (off + length p) file),
      length-drop {0} (off + length p) file,
      length-take off (grown off file) (length-grown off file),
    )

-- The bytes before the offset stay.
pub byte-write_at_before :
    (off : ℕ) (p file : Text) (i : ℕ) → i < off → byte (write_at off p file) i ≡ byte file i
byte-write_at_before off p file i lt =
    let size = length-take off (grown off file) (length-grown off file) in
    ap (λ (f : Text). byte f i) (write_at_split off p file)
    ∙ byte-append_left (take off (grown off file)) (p ++ drop (off + length p) file) i
        (omega (arith, size))
    ∙ byte-take off (grown off file) i lt
    ∙ byte-append_zeros file (off - length file) i

byte-write_at_from :
    (off : ℕ) (p file : Text) (i : ℕ)
    → byte (write_at off p file) (off + i) ≡ byte (p ++ drop (off + length p) file) i
byte-write_at_from off p file i =
    let before = take off (grown off file) in
    let size = length-take off (grown off file) (length-grown off file) in
    let place : off + i ≡ length before + i = omega (arith, size) in
    ap (λ (f : Text). byte f (off + i)) (write_at_split off p file)
    ∙ ap (byte (before ++ (p ++ drop (off + length p) file))) place
    ∙ byte-append_right before (p ++ drop (off + length p) file) i

-- The bytes that are written.
pub byte-write_at_on :
    (off : ℕ) (p file : Text) (i : ℕ)
    → i < length p
    → byte (write_at off p file) (off + i) ≡ byte p i
byte-write_at_on off p file i lt =
    byte-write_at_from off p file i ∙ byte-append_left p (drop (off + length p) file) i lt

-- The bytes behind them stay.
pub byte-write_at_after :
    (off : ℕ) (p file : Text) (i : ℕ)
    → byte (write_at off p file) (off + (length p + i)) ≡ byte file (off + length p + i)
byte-write_at_after off p file i =
    byte-write_at_from off p file (length p + i)
    ∙ byte-append_right p (drop (off + length p) file) i
    ∙ byte-drop (off + length p) file i

module _ (size chunk : ℕ) (some_bytes : 1 ≤ chunk) where
  pub ranges-fit : (n i : ℕ) → (i + n) * chunk ≤ size → AllFit size (ranges size chunk n i)
  unfolding ranges
  ranges-fit zero i le = tt
  ranges-fit (suc zero) i le = grind arith
  ranges-fit (suc (suc n)) i le =
      let rest : (i + 1 + suc n) * chunk ≤ size = grind arith in
      let room : i * chunk + chunk ≤ size = grind arith in
      ((ground arith, ground arith), ranges-fit (suc n) (i + 1) rest)

  pub ranges-covered :
      (n i j : ℕ) → 1 ≤ n → i * chunk ≤ j → j < size → covered (ranges size chunk n i) j ≡ true
  unfolding ranges
  ranges-covered zero i j some_parts le lt = absurd (omega arith)
  ranges-covered (suc zero) i j some_parts le lt = ground arith
  ranges-covered (suc (suc n)) i j some_parts le lt =
      let next : (i + 1) * chunk ≡ i * chunk + chunk = grind arith in
      ground (arith, next, ranges-covered (suc n) (i + 1) j)
