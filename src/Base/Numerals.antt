-- ===== src/Base/Numerals.antt =====
-- `strconv.ParseInt` in base 10 for 64 bits, and `strings.TrimSpace` on ASCII.
use Prim.Native.Nat.{ℕ, zero, suc, ◌+◌, ◌-◌, ◌*◌, ◌/◌, ◌%◌, ◌<◌, ◌≤◌}
use mathlib.Core.Path.{◌≡◌, refl, ap, ◌∙◌}
use mathlib.Core.Bool.{Bool, true, false, ◌&&◌, ◌||◌}
use mathlib.Core.List.{[], ◌∷◌, ◌++◌}
use mathlib.Core.Option.{Option, none, some}
use native.Mathlib.Omega.{arith}
use native.Mathlib.Decide.{ℕ_discrete}
use s3db.Base.Tests.{ltb, leb, ◌==◌, nat_eq, if◌then◌else◌}
use s3db.Base.Int.{ℤ, pos, negsuc, half64, InRange64}
use s3db.Base.Lists.{length, length-append}
use s3db.Base.Strings.{Text}
use s3db.Base.Decimal.{decimal, show_int}

abbrev is_digit : ℕ → Bool
is_digit c = leb b'0' c && leb c b'9'

-- The value of the digits after those of `acc`.
unfoldable pub digits_value : ℕ → Text → Option ℕ
digits_value acc [] = some acc
digits_value acc (c ∷ s) =
    let rest = digits_value (acc * 10 + (c - b'0')) s in if is_digit c then rest else none

-- A number from its sign and its magnitude, where an int64 holds it.
unfoldable pub signed : Bool → Option ℕ → Option ℤ
signed negative none = none
signed true (some zero) = some (pos zero)
signed true (some (suc n)) = if ltb n half64 then some (negsuc n) else none
signed false (some n) = if ltb n half64 then some (pos n) else none

unfoldable pub magnitude : Text → Option ℕ
unfolding digits_value
magnitude [] = none
magnitude (c ∷ s) = digits_value 0 (c ∷ s)

-- `strconv.ParseInt(s, 10, 64)`; `none` is an error
unfoldable pub parse_int : Text → Option ℤ
unfolding signed magnitude
parse_int [] = none
parse_int (c ∷ s) =
    if c == b'-'
    then signed true (magnitude s)
    else if c == b'+'
    then signed false (magnitude s)
    else signed false (magnitude (c ∷ s))

abbrev is_space : ℕ → Bool
is_space c = c == 32 || leb 9 c && leb c 13

unfoldable pub trim_front : Text → Text
trim_front [] = []
trim_front (c ∷ s) = let rest = trim_front s in if is_space c then rest else c ∷ s

abbrev keep_back : ℕ → Text → Text
keep_back c [] = if is_space c then [] else c ∷ []
keep_back c (d ∷ s) = c ∷ d ∷ s

unfoldable pub trim_back : Text → Text
trim_back [] = []
trim_back (c ∷ s) = keep_back c (trim_back s)

-- `strings.TrimSpace`; spaces beyond ASCII stay
unfoldable pub trim_space : Text → Text
unfolding trim_front trim_back
trim_space s = trim_back (trim_front s)

digits_value-append_one :
    (acc n : ℕ) (s : Text) (c : ℕ)
    → digits_value acc s ≡ some n
    → is_digit c ≡ true
    → digits_value acc (s ++ c ∷ []) ≡ some (n * 10 + (c - b'0'))
unfolding digits_value
digits_value-append_one acc n [] c e d = ground (arith, e, d)
digits_value-append_one acc n (x ∷ s) c e d =
    ground (arith, e, digits_value-append_one (acc * 10 + (x - b'0')) n s c, d)

digits_value-decimal : (fuel n : ℕ) → n < fuel → digits_value 0 (decimal fuel n) ≡ some n
unfolding digits_value decimal
digits_value-decimal zero n h = absurd (omega arith)
digits_value-decimal (suc fuel) n h = ground (
  arith,
  digits_value-decimal fuel (n / 10),
  digits_value-append_one 0 (n / 10) (decimal fuel (n / 10)) (b'0' + n % 10),
)

-- Digits alone, at least one.
abbrev all_digits : Text → Bool
all_digits [] = true
all_digits (c ∷ s) = is_digit c && all_digits s

all_digits-append_one :
    (s : Text) (c : ℕ) → all_digits s ≡ true → is_digit c ≡ true → all_digits (s ++ c ∷ []) ≡ true
all_digits-append_one [] c h d = ground (arith, d)
all_digits-append_one (x ∷ s) c h d = ground (arith, all_digits-append_one s c, h, d)

decimal-all_digits : (fuel n : ℕ) → all_digits (decimal fuel n) ≡ true
unfolding decimal
decimal-all_digits zero n = refl
decimal-all_digits (suc fuel) n = ground (
  arith,
  decimal-all_digits fuel (n / 10),
  all_digits-append_one (decimal fuel (n / 10)) (b'0' + n % 10),
)

length-append_one : (s : Text) (c : ℕ) → 1 ≤ length (s ++ c ∷ [])
length-append_one s c = omega (arith, length-append {0} s (c ∷ []))

decimal-ne_nil : (fuel n : ℕ) → 1 ≤ length (decimal (suc fuel) n)
unfolding decimal
decimal-ne_nil fuel n = ground (arith, length-append_one (decimal fuel (n / 10)) (b'0' + n % 10))

trim_front-digits : (s : Text) → all_digits s ≡ true → trim_front s ≡ s
unfolding trim_front
trim_front-digits [] h = refl
trim_front-digits (c ∷ s) h = ground (arith, h)

trim_back-digits : (s : Text) → all_digits s ≡ true → trim_back s ≡ s
unfolding trim_back
trim_back-digits [] h = refl
trim_back-digits (c ∷ []) h = ground (arith, h)
trim_back-digits (c ∷ d ∷ s) h = ground (arith, h, trim_back-digits (d ∷ s))

trim_space-digits : (s : Text) → all_digits s ≡ true → trim_space s ≡ s
unfolding trim_space
trim_space-digits s h = ap trim_back (trim_front-digits s h) ∙ trim_back-digits s h

trim_space-minus :
    (s : Text) → all_digits s ≡ true → 1 ≤ length s → trim_space (b'-' ∷ s) ≡ b'-' ∷ s
unfolding trim_space trim_front trim_back ℕ_discrete
trim_space-minus [] h some_digits = absurd (omega arith)
trim_space-minus (c ∷ s) h some_digits = ap (keep_back b'-') (trim_back-digits (c ∷ s) h)

parse_int-digits :
    (n : ℕ) (s : Text)
    → all_digits s ≡ true
    → 1 ≤ length s
    → digits_value 0 s ≡ some n
    → (parse_int s ≡ signed false (some n)) × (parse_int (b'-' ∷ s) ≡ signed true (some n))
unfolding parse_int ℕ_discrete
parse_int-digits n [] h some_digits e = absurd (omega arith)
parse_int-digits n (c ∷ s) h some_digits e =
    let plain : ((c == b'-') ≡ false) × ((c == b'+') ≡ false) = ground (arith, h) in
    (rw (plain.0, plain.1, e) refl, rw e refl)

-- What `FormatInt` writes, `ParseInt` reads after `TrimSpace`.
pub parse_int-show_int : (n : ℤ) → InRange64 n → parse_int (trim_space (show_int n)) ≡ some n
unfolding show_int signed
parse_int-show_int (pos n) range =
    let digits = decimal-all_digits (suc n) n in
    let value = digits_value-decimal (suc n) n (omega arith) in
    ap parse_int (trim_space-digits (decimal (suc n) n) digits)
    ∙ (parse_int-digits n (decimal (suc n) n) digits (decimal-ne_nil n n) value).0
    ∙ ground (arith, range)
parse_int-show_int (negsuc n) range =
    let text = decimal (n + 2) (suc n) in
    let digits = decimal-all_digits (n + 2) (suc n) in
    let value = digits_value-decimal (n + 2) (suc n) (omega arith) in
    let some_digits : 1 ≤ length text = ground (arith, decimal-ne_nil (n + 1) (suc n)) in
    ap parse_int (trim_space-minus text digits some_digits)
    ∙ (parse_int-digits (suc n) text digits some_digits value).1
    ∙ ground (arith, range)
