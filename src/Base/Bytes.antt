-- ===== src/Base/Bytes.antt =====
-- Texts byte by byte: two texts with the same length and the same bytes are one.
use Prim.Native.Nat.{ℕ, zero, suc, ◌+◌, ◌≤◌, ◌<◌}
use mathlib.Core.Path.{◌≡◌, refl, ap₂}
use mathlib.Core.List.{List, [], ◌∷◌, ◌++◌}
use native.Mathlib.Omega.{arith}
use s3db.Base.Lists.{length, take, drop, replicate}

-- The byte at a place; beyond the end it is 0.
abbrev pub byte : List ℕ → ℕ → ℕ
byte [] i = 0
byte (x ∷ xs) zero = x
byte (x ∷ xs) (suc i) = byte xs i

pub byte-append_left : (xs ys : List ℕ) (i : ℕ) → i < length xs → byte (xs ++ ys) i ≡ byte xs i
byte-append_left [] ys i h = absurd (omega arith)
byte-append_left (x ∷ xs) ys zero h = refl
byte-append_left (x ∷ xs) ys (suc i) h = byte-append_left xs ys i (omega arith)

pub byte-append_right : (xs ys : List ℕ) (i : ℕ) → byte (xs ++ ys) (length xs + i) ≡ byte ys i
byte-append_right [] ys i = ground arith
byte-append_right (x ∷ xs) ys i = ground (arith, byte-append_right xs ys i)

pub byte-replicate : (n i : ℕ) → byte (replicate n 0) i ≡ 0
byte-replicate zero i = refl
byte-replicate (suc n) zero = refl
byte-replicate (suc n) (suc i) = byte-replicate n i

-- Zeros at the end change no byte.
pub byte-append_zeros : (xs : List ℕ) (n i : ℕ) → byte (xs ++ replicate n 0) i ≡ byte xs i
byte-append_zeros [] n i = byte-replicate n i
byte-append_zeros (x ∷ xs) n zero = refl
byte-append_zeros (x ∷ xs) n (suc i) = byte-append_zeros xs n i

pub byte-take : (n : ℕ) (xs : List ℕ) (i : ℕ) → i < n → byte (take n xs) i ≡ byte xs i
byte-take zero xs i h = absurd (omega arith)
byte-take (suc n) [] i h = refl
byte-take (suc n) (x ∷ xs) zero h = refl
byte-take (suc n) (x ∷ xs) (suc i) h = byte-take n xs i (omega arith)

pub byte-drop : (n : ℕ) (xs : List ℕ) (i : ℕ) → byte (drop n xs) i ≡ byte xs (n + i)
byte-drop zero xs i = ground arith
byte-drop (suc n) [] i = refl
byte-drop (suc n) (x ∷ xs) i = ground (arith, byte-drop n xs i)

pub length-take : (n : ℕ) (xs : List ℕ) → n ≤ length xs → length (take n xs) ≡ n
length-take zero xs h = refl
length-take (suc n) [] h = absurd (omega arith)
length-take (suc n) (x ∷ xs) h = omega (arith, length-take n xs (omega arith))

pub length-replicate : (n : ℕ) → length (replicate {A = ℕ} n 0) ≡ n
length-replicate zero = refl
length-replicate (suc n) = omega (arith, length-replicate n)

pub eq_of_bytes :
    (xs ys : List ℕ)
    → length xs ≡ length ys
    → ((i : ℕ) → i < length ys → byte xs i ≡ byte ys i)
    → xs ≡ ys
eq_of_bytes [] [] h same = refl
eq_of_bytes [] (y ∷ ys) h same = absurd (omega arith)
eq_of_bytes (x ∷ xs) [] h same = absurd (omega arith)
eq_of_bytes (x ∷ xs) (y ∷ ys) h same =
    ap₂ (λ z zs. z ∷ zs) (same 0 (omega arith))
      (eq_of_bytes xs ys (omega arith) (λ i k. same (suc i) (omega arith)))

pub append-left_cancel : (p a b : List ℕ) → p ++ a ≡ p ++ b → a ≡ b
append-left_cancel [] a b h = h
append-left_cancel (c ∷ p) a b h = append-left_cancel p a b (cc)
