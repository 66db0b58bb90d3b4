-- ===== src/Blob/FileKeys/Valid.antt =====
-- The keys that `validateKey` accepts.
use s3db.Base.{
  ℕ, zero, suc, Text, text_eq, nat_eq, ◌∙◌, codes, slash, Bool, false, ◌≡◌, ◌≢◌, refl, ap, sym,
  ◌==◌, some, List, [], ◌∷◌, ◌++◌, get_elem?, arith, Bool-cases, inl, inr,
}
use s3db.Result.{ok}
use s3db.Blob.FileKeys.{
  Unicode, split, onto_first, any, is_bad_element, valid_path, has_backslash, is_reserved,
  is_reserved_key, validate_key,
}

-- The parts of a path with slashes between them.
abbrev pub joined : List Text → Text
joined [] = []
joined (part ∷ []) = part
joined (part ∷ next ∷ parts) = part ++ slash ∷ joined (next ∷ parts)

any-none :
    (test : Text → Bool) (parts : List Text) (i : ℕ) (part : Text)
    → any test parts ≡ false
    → get_elem? parts i ≡ some part
    → test part ≡ false
any-none test [] i part h g = cc g
any-none test (x ∷ xs) zero part h g = ground (arith, h, g)
any-none test (x ∷ xs) (suc i) part h g = any-none test xs i part (ground (arith, h)) g

-- What an accepted key is made of.
pub record IsFileKey (u : Unicode) (key : Text) : Type 0 where
  pub parts : joined (split key) ≡ key
  pub part_ok :
      (i : ℕ) (part : Text)
      → get_elem? (split key) i ≡ some part
      → (part ≢ []) × (part ≢ codes ".") × (part ≢ codes "..") × (is_reserved u part ≡ false)
  pub no_backslash : has_backslash key ≡ false

joined-onto_first : (c : ℕ) (parts : List Text) → joined (onto_first c parts) ≡ c ∷ joined parts
joined-onto_first c [] = refl
joined-onto_first c (part ∷ []) = refl
joined-onto_first c (part ∷ next ∷ parts) = refl

onto_first-cons :
    (c : ℕ) (parts : List Text)
    → (first : Text) × (more : List Text) × (onto_first c parts ≡ first ∷ more)
onto_first-cons c [] = (c ∷ [], [], refl)
onto_first-cons c (part ∷ parts) = (c ∷ part, parts, refl)

pub split-cons : (key : Text) → (first : Text) × (more : List Text) × (split key ≡ first ∷ more)
unfolding split
split-cons [] = ([], [], refl)
split-cons (c ∷ key) = elim (Bool-cases (c == slash)) [
  | inl cut ↦ ([], split key, rw cut refl)
  | inr on ↦ let (first, more, e) = onto_first-cons c (split key) in (first, more, rw on e)
]

joined-split : (key : Text) → joined (split key) ≡ key
unfolding split
joined-split [] = refl
joined-split (c ∷ key) = elim (Bool-cases (c == slash)) [
  | inl cut ↦
      let (first, more, e) = split-cons key in
      let is : c ≡ slash = ground (arith, cut) in
      let whole : joined (split key) ≡ joined (first ∷ more) = ap joined e in
      let rest : joined ([] ∷ split key) ≡ slash ∷ joined (first ∷ more) =
        ap (λ parts. joined ([] ∷ parts)) e in
      rw (cut, is) (rest ∙ ap (λ k. slash ∷ k) (sym whole ∙ joined-split key))
  | inr on ↦ rw on (joined-onto_first c (split key) ∙ ap (λ k. c ∷ k) (joined-split key))
]

-- A key that `validateKey` accepts is its parts with slashes between them, has no backslash, and
-- none of its parts is empty, "." or "..", or a reserved name.
pub validate_key-IsFileKey :
    (u : Unicode) (key : Text) → validate_key u key ≡ ok tt → IsFileKey u key
unfolding validate_key valid_path is_reserved_key
validate_key-IsFileKey u key h =
    let good : any is_bad_element (split key) ≡ false = ground (arith, h) in
    let free : any (is_reserved u) (split key) ≡ false = ground (arith, h) in
    record {
      parts = joined-split key;
      part_ok = λ i part at.
          let bad = any-none is_bad_element (split key) i part good at in
          let taken = any-none (is_reserved u) (split key) i part free at in
          (ground (arith, bad), ground (arith, bad), ground (arith, bad), taken);
      no_backslash = ground (arith, h);
    }
