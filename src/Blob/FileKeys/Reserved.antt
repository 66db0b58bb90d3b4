-- ===== src/Blob/FileKeys/Reserved.antt =====
-- The names of temporary files are reserved, so they are no keys.
use s3db.Base.{
  ℕ_discrete, ℕ, Text, text_eq, nat_eq, codes, slash, has_prefix, Bool, true, false, ◌==◌, ◌≡◌, ◌≢◌,
  refl, sym, ◌∙◌, ap, List, [], ◌∷◌, ◌++◌, arith, Bool-cases, inl, inr,
}
use s3db.Result.{ok}
use s3db.Blob.FileKeys.{
  Unicode, fs_tmp_prefix, split, onto_first, any, is_reserved, is_reserved_key, validate_key, join,
}
use s3db.Blob.FileKeys.Valid.{split-cons}

-- What is relied on of `strings.ToLower`: it leaves the prefix of temporary names as it is.
pub record IsUnicode (u : Unicode) : Type 0 where
  pub low : (y : Text) → has_prefix fs_tmp_prefix (u.lower (fs_tmp_prefix ++ y)) ≡ true

onto_first-append :
    (c : ℕ) (first : Text) (more ys : List Text)
    → onto_first c ((first ∷ more) ++ ys) ≡ onto_first c (first ∷ more) ++ ys
onto_first-append c first more ys = refl

split-append : (dir base : Text) → split (dir ++ slash ∷ base) ≡ split dir ++ split base
unfolding split ℕ_discrete
split-append [] base = refl
split-append (c ∷ dir) base = elim (Bool-cases (c == slash)) [
  | inl cut ↦ rw cut (ap (λ parts. [] ∷ parts) (split-append dir base))
  | inr on ↦
      let (first, more, e) = split-cons dir in
      let whole : split (dir ++ slash ∷ base) ≡ (first ∷ more) ++ split base =
        split-append dir base ∙ ap (λ parts. parts ++ split base) e in
      rw on (
        ap (onto_first c) whole
        ∙ onto_first-append c first more (split base)
        ∙ ap (λ parts. onto_first c parts ++ split base) (sym e))
]

any-append :
    (test : Text → Bool) (xs ys : List Text) → any test ys ≡ true → any test (xs ++ ys) ≡ true
any-append test [] ys h = h
any-append test (x ∷ xs) ys h = ground (arith, any-append test xs ys h)

base-reserved :
    (u : Unicode)
    → IsUnicode u
    → (hex : Text) → any (is_reserved u) (split (fs_tmp_prefix ++ hex)) ≡ true
unfolding split ℕ_discrete
base-reserved u is hex =
    let (first, more, e) = split-cons hex in rw e (ground (arith, is.low first))

join-reserved :
    (u : Unicode)
    → IsUnicode u
    → (dir hex : Text) → any (is_reserved u) (split (join dir (fs_tmp_prefix ++ hex))) ≡ true
unfolding join
join-reserved u is dir hex = elim (Bool-cases (dir == codes ".")) [
  | inl top ↦ rw top (base-reserved u is hex)
  | inr deep ↦
      rw (deep, split-append dir (fs_tmp_prefix ++ hex))
        (any-append (is_reserved u) (split dir) (split (fs_tmp_prefix ++ hex))
          (base-reserved u is hex))
]

-- A temporary file's name is not accepted as a key.
pub validate_key-temp :
    (u : Unicode)
    → IsUnicode u
    → (dir hex key : Text) → validate_key u key ≡ ok tt
    → key ≢ join dir (fs_tmp_prefix ++ hex)
unfolding validate_key is_reserved_key
validate_key-temp u is dir hex key h e =
    let free : any (is_reserved u) (split key) ≡ false = ground (arith, h) in
    cc (sym free ∙ ap (λ k. any (is_reserved u) (split k)) e ∙ join-reserved u is dir hex)
