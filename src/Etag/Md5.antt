-- ===== src/Etag/Md5.antt =====
-- `Compute`: the tag of a body is its MD5 in hexadecimal. MD5 is a parameter.
use s3db.Base.{
  ◌-◌, ℕ, ◌+◌, ◌/◌, ◌%◌, ◌<◌, ◌≤◌, ◌≡◌, ◌≢◌, refl, ap, ap₂, ◌∙◌, Text, Bool, true, false, ◌==◌,
  nat_eq, [], ◌∷◌, length, arith, if◌then◌else◌, trim_left, trim_right, trim_quotes,
}
use s3db.Base.{ltb, drop}
use s3db.Base.Bytes.{byte}
use s3db.Etag.{normalize, quoted}
use s3db.Etag.Trim.{normalize-quoted}

-- a digit of `hex.EncodeToString`
unfoldable pub hex_digit : ℕ → ℕ
hex_digit n = if ltb n 10 then b'0' + n else b'a' + (n - 10)

-- `hex.EncodeToString`
unfoldable pub hex : Text → Text
unfolding hex_digit
hex [] = []
hex (b ∷ bytes) = hex_digit (b / 16) ∷ hex_digit (b % 16) ∷ hex bytes

-- `Compute`
unfoldable pub compute : (Text → Text) → Text → Text
unfolding hex
compute md5 body = hex (md5 body)

abbrev pub AllBytes : Text → Type 0
AllBytes [] = Unit
AllBytes (b ∷ s) = (b < 256) × AllBytes s

-- What is relied on of MD5: its sums are bytes, and there are some.
pub record IsDigest (md5 : Text → Text) : Type 0 where
  pub some_bytes : (body : Text) → 1 ≤ length (md5 body)
  pub bytes : (body : Text) → AllBytes (md5 body)

hex_digit-ne_quote : (n : ℕ) → n < 16 → hex_digit n ≢ b'"'
unfolding hex_digit
hex_digit-ne_quote n h e = ground arith

hex_digit_injective : (m n : ℕ) → m < 16 → n < 16 → hex_digit m ≡ hex_digit n → m ≡ n
unfolding hex_digit
hex_digit_injective m n hm hn e = ground arith

byte_of_digits :
    (x y : ℕ)
    → x < 256
    → y < 256
    → hex_digit (x / 16) ≡ hex_digit (y / 16)
    → hex_digit (x % 16) ≡ hex_digit (y % 16)
    → x ≡ y
byte_of_digits x y hx hy high low = omega (
  arith,
  hex_digit_injective (x / 16) (y / 16) (omega arith) (omega arith) high,
  hex_digit_injective (x % 16) (y % 16) (omega arith) (omega arith) low,
)

hex_injective : (a b : Text) → AllBytes a → AllBytes b → hex a ≡ hex b → a ≡ b
unfolding hex
hex_injective [] [] ba bb e = refl
hex_injective [] (y ∷ b) ba bb e = cc e
hex_injective (x ∷ a) [] ba bb e = cc e
hex_injective (x ∷ a) (y ∷ b) ba bb e =
    let high : hex_digit (x / 16) ≡ hex_digit (y / 16) = ap (λ s. byte s 0) e in
    let low : hex_digit (x % 16) ≡ hex_digit (y % 16) = ap (λ s. byte s 1) e in
    let rest : hex a ≡ hex b = ap (λ s. drop 2 s) e in
    ap₂ (λ c s. c ∷ s) (byte_of_digits x y ba.0 bb.0 high low) (hex_injective a b ba.1 bb.1 rest)

hex-ne_nil : (bytes : Text) → 1 ≤ length bytes → hex bytes ≢ []
unfolding hex
hex-ne_nil [] h e = absurd (omega arith)
hex-ne_nil (b ∷ bytes) h e = cc e

abbrev no_quote : Text → Bool
no_quote [] = true
no_quote (c ∷ s) = if c == b'"' then false else no_quote s

hex-no_quote : (bytes : Text) → AllBytes bytes → no_quote (hex bytes) ≡ true
unfolding hex
hex-no_quote [] h = refl
hex-no_quote (b ∷ bytes) h =
    ground (arith, hex_digit-ne_quote (b / 16), hex_digit-ne_quote (b % 16), hex-no_quote bytes h.1)

trim_left-no_quote : (s : Text) → no_quote s ≡ true → trim_left b'"' s ≡ s
unfolding trim_left
trim_left-no_quote [] h = refl
trim_left-no_quote (c ∷ s) h = ground (arith, h)

trim_right-no_quote : (s : Text) → no_quote s ≡ true → trim_right b'"' s ≡ s
unfolding trim_right
trim_right-no_quote [] h = refl
trim_right-no_quote (c ∷ s) h = ground (arith, h, trim_right-no_quote s)

normalize-no_quote : (s : Text) → no_quote s ≡ true → normalize s ≡ s
unfolding normalize trim_quotes
normalize-no_quote s h = ap (trim_right b'"') (trim_left-no_quote s h) ∙ trim_right-no_quote s h

-- For a hash function whose sums are bytes, and not empty, the tags that `Compute` makes are not
-- empty, `Normalize` leaves them as they are, also where the server puts quotes around them, and
-- two bodies have the same tag just where they have the same sum.
pub compute_lem :
    (md5 : Text → Text) (a b : Text)
    → IsDigest md5
    → (compute md5 a ≢ [])
      × (normalize (compute md5 a) ≡ compute md5 a)
      × (normalize (quoted (compute md5 a)) ≡ compute md5 a)
      × (compute md5 a ≡ compute md5 b → md5 a ≡ md5 b)
      × (md5 a ≡ md5 b → compute md5 a ≡ compute md5 b)
unfolding compute
compute_lem md5 a b is =
    let plain = normalize-no_quote (hex (md5 a)) (hex-no_quote (md5 a) (is.bytes a)) in
    (
      hex-ne_nil (md5 a) (is.some_bytes a),
      plain,
      normalize-quoted (hex (md5 a)) ∙ plain,
      hex_injective (md5 a) (md5 b) (is.bytes a) (is.bytes b),
      ap hex,
    )
