-- ===== src/Base/Int.antt =====
-- Signed 64-bit integers (`int64`, `int`) as integers, with their wrap-around written out.
use Prim.Native.Nat.{ℕ, suc, ◌+◌, ◌-◌, ◌%◌, ◌≤◌, ◌<◌}
use mathlib.Core.Path.{◌≡◌}
use mathlib.Core.Bool.{Bool}
use native.Mathlib.Decide.{ℕ_discrete}
use native.Mathlib.Omega.{arith}
use s3db.Base.Tests.{Eq, ltb, if◌then◌else◌}

-- `negsuc n` is -(n + 1).
pub data ℤ : Type 0 where
  pos : ℕ → ℤ
  negsuc : ℕ → ℤ

unfoldable pub int_dec : Discrete ℤ
unfolding ℕ_discrete
int_dec = hlevel ℕ_discrete

-- `==` at `int64`
instance abbrev pub int_eq : Eq ℤ
int_eq = record { dec = int_dec }

abbrev pub pos_part : ℤ → ℕ
pos_part (pos n) = n
pos_part (negsuc n) = 0

abbrev pub neg_part : ℤ → ℕ
neg_part (pos n) = 0
neg_part (negsuc n) = suc n

-- `a < b`
abbrev pub lt_int : ℤ → ℤ → Bool
lt_int a b = ltb (pos_part a + neg_part b) (pos_part b + neg_part a)

infix 50 ◌≤ℤ◌
abbrev pub ◌≤ℤ◌ : ℤ → ℤ → Type 0
a ≤ℤ b = pos_part a + neg_part b ≤ pos_part b + neg_part a

abbrev pub half64 : ℕ
half64 = 9223372036854775808

abbrev pub mod64 : ℕ
mod64 = 18446744073709551616

-- The 64 bits of an integer, as a number, and back.
abbrev pub bits64 : ℤ → ℕ
bits64 (pos n) = n % mod64
bits64 (negsuc n) = mod64 - 1 - n % mod64

abbrev pub of_bits64 : ℕ → ℤ
of_bits64 b = if ltb b half64 then pos b else negsuc (mod64 - 1 - b)

-- `a + b` at `int64`
unfoldable pub add64 : ℤ → ℤ → ℤ
add64 a b = of_bits64 ((bits64 a + bits64 b) % mod64)

-- The integers that an `int64` holds.
abbrev pub InRange64 : ℤ → Type 0
InRange64 (pos n) = n < half64
InRange64 (negsuc n) = n < half64

pub add64-InRange64 : (a b : ℤ) → InRange64 (add64 a b)
unfolding add64
add64-InRange64 a b = ground arith

pub add64_pos : (a b : ℕ) → a + b < half64 → add64 (pos a) (pos b) ≡ pos (a + b)
unfolding add64
add64_pos a b h = ground arith

-- Counting up one at a time is adding the count.
pub add64-add64_pos : (a : ℤ) (m n : ℕ) → add64 (add64 a (pos m)) (pos n) ≡ add64 a (pos (m + n))
unfolding add64
add64-add64_pos a m n = ground arith

pub add64_zero : (a : ℤ) → InRange64 a → add64 a (pos 0) ≡ a
unfolding add64
add64_zero a h = ground arith

-- `-a` at `int64`
unfoldable pub neg64 : ℤ → ℤ
neg64 a = of_bits64 ((mod64 - bits64 a) % mod64)
