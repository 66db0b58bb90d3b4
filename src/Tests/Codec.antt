-- ===== src/Tests/Codec.antt =====
-- A concrete encoding of manifests, and a concrete hash, which stand for JSON and MD5.
use s3db.Base.{
  ℕ, zero, suc, ◌+◌, ℤ, pos, negsuc, Text, ◌≡◌, refl, Option, none, some, List, [], ◌∷◌, ◌++◌,
  length, length-append, ap, take, drop, leb, arith, map, trim_right, if◌then◌else◌,
}
use s3db.Result.{ok}
use s3db.Etag.{normalize}
use s3db.Blob.{IsTag}
use s3db.Env.{Codec, RoundTrips}
use s3db.Manifest.{Manifest, LogEntry}

abbrev put_text : Text → Text → Text
put_text t rest = length t ∷ (t ++ rest)

abbrev put_int : ℤ → Text → Text
put_int (pos n) rest = 0 ∷ n ∷ rest
put_int (negsuc n) rest = 1 ∷ n ∷ rest

put_log : List LogEntry → Text
put_log [] = []
put_log (e ∷ log) = put_text e.key (put_int e.seq (put_int e.size (put_log log)))

unfoldable pub put_manifest : Manifest → Text
unfolding put_log
put_manifest m = put_int m.format_version (
    put_int m.seq (
      put_int m.schema_version (
        put_text m.snapshot.key
          (put_int m.snapshot.seq (put_int m.snapshot.size (length m.log ∷ put_log m.log))))))

abbrev Parser : Type 0 → Type 0
Parser A = Text → Option (A × Text)

infixl 5 ◌>>=◌
abbrev ◌>>=◌ : {A B : Type 0} → Option (A × Text) → (A → Parser B) → Option (B × Text)
none >>= f = none
some (a, rest) >>= f = f a rest

get_text : Parser Text
get_text [] = none
get_text (n ∷ rest) = if leb n (length rest) then some (take n rest, drop n rest) else none

get_int : Parser ℤ
get_int (zero ∷ n ∷ rest) = some (pos n, rest)
get_int (suc k ∷ n ∷ rest) = some (negsuc n, rest)
get_int _ = none

get_log : ℕ → Parser (List LogEntry)
get_log zero s = some ([], s)
get_log (suc n) s = get_text s >>= λ key r. get_int r >>= λ seq r1. get_int r1 >>= λ size r2.
    get_log n r2 >>= λ log r3. some (record { key = key; seq = seq; size = size } ∷ log, r3)

abbrev get_counted : Parser (List LogEntry)
get_counted [] = none
get_counted (n ∷ rest) = get_log n rest

get_manifest : Parser Manifest
unfolding get_text get_int get_log
get_manifest s = get_int s >>= λ format r. get_int r >>= λ seq r1. get_int r1 >>= λ schema r2.
    get_text r2 >>= λ key r3. get_int r3 >>= λ at_seq r4. get_int r4 >>= λ size r5.
    get_counted r5 >>= λ log r6. some (
      record {
        format_version = format;
        seq = seq;
        schema_version = schema;
        snapshot = record { key = key; seq = at_seq; size = size };
        log = log;
      },
      r6,
    )

abbrev only : Option (Manifest × Text) → Option Manifest
only none = none
only (some (m, rest)) = some m

unfoldable pub codec : Codec
unfolding put_manifest get_manifest
codec = record { encode = λ m. ok (put_manifest m); decode = λ s. only (get_manifest s) }

take-append : (t rest : Text) → take (length t) (t ++ rest) ≡ t
take-append [] rest = refl
take-append (c ∷ t) rest = ap (λ u. c ∷ u) (take-append t rest)

drop-append : (t rest : Text) → drop (length t) (t ++ rest) ≡ rest
drop-append [] rest = refl
drop-append (c ∷ t) rest = drop-append t rest

get_text-put : (t rest : Text) → get_text (put_text t rest) ≡ some (t, rest)
unfolding get_text
get_text-put t rest =
    ground (arith, length-append {0} t rest, take-append t rest, drop-append t rest)

get_int-put : (n : ℤ) (rest : Text) → get_int (put_int n rest) ≡ some (n, rest)
unfolding get_int
get_int-put (pos n) rest = refl
get_int-put (negsuc n) rest = refl

get_log-put : (log : List LogEntry) → get_log (length log) (put_log log) ≡ some (log, [])
unfolding get_log put_log
get_log-put [] = refl
get_log-put (e ∷ log) = simp (get_text-put, get_int-put, get_log-put log)

pub codec-RoundTrips : RoundTrips codec
unfolding codec
codec-RoundTrips m plain =
    (put_manifest m, refl, simp (get_int-put, get_text-put, get_log-put m.log))

-- Every byte moved past the quotes.
abbrev shifted : Text → Text
shifted = map (λ c. c + 35)

abbrev pub hash : Text → Text
hash b = 1 ∷ shifted b

trim_right-shifted : (b : Text) → trim_right b'"' (shifted b) ≡ shifted b
unfolding trim_right
trim_right-shifted [] = refl
trim_right-shifted (c ∷ b) = ground (arith, trim_right-shifted b)

shifted_injective : (a b : Text) → shifted a ≡ shifted b → a ≡ b
shifted_injective [] [] h = refl
shifted_injective [] (c ∷ b) h = cc
shifted_injective (c ∷ a) [] h = cc
shifted_injective (c ∷ a) (d ∷ b) h = ground (arith, shifted_injective a b)

pub hash-IsTag : IsTag hash
unfolding normalize
hash-IsTag = record {
  ne_empty = λ b h. cc;
  plain = λ b. ground (arith, trim_right-shifted b);
  distinct = λ a b h. shifted_injective a b (ground arith);
}
