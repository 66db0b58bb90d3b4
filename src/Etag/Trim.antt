-- ===== src/Etag/Trim.antt =====
-- Trimming quotes from an entity tag.
use s3db.Base.{ℕ_discrete, Text, ◌≡◌, refl, [], ◌∷◌, ◌++◌, arith, trim_left, trim_right}
use s3db.Etag.{normalize, quoted}

trim_right_idem : (c : _) (s : Text) → trim_right c (trim_right c s) ≡ trim_right c s
unfolding trim_right
trim_right_idem c [] = refl
trim_right_idem c (d ∷ s) = ground (arith, trim_right_idem c s)

trim_right-trim_left_idem :
    (c : _) (s : Text) → trim_left c (trim_right c (trim_left c s)) ≡ trim_right c (trim_left c s)
unfolding trim_right trim_left
trim_right-trim_left_idem c [] = refl
trim_right-trim_left_idem c (d ∷ s) = ground (arith, trim_right-trim_left_idem c s)

-- Normalising twice is normalising once, so a tag compares equal however often it was normalised.
pub normalize_idem : (s : Text) → normalize (normalize s) ≡ normalize s
unfolding normalize
normalize_idem s = cc (trim_right-trim_left_idem b'"' s, trim_right_idem b'"' (trim_left b'"' s))

trim_right-last : (c : _) (s : Text) → trim_right c (s ++ c ∷ []) ≡ trim_right c s
unfolding trim_right
trim_right-last c [] = ground arith
trim_right-last c (d ∷ s) = ground (arith, trim_right-last c s)

trim-last :
    (c : _) (s : Text) → trim_right c (trim_left c (s ++ c ∷ [])) ≡ trim_right c (trim_left c s)
unfolding trim_left trim_right
trim-last c [] = ground arith
trim-last c (d ∷ s) = ground (arith, trim-last c s, trim_right-last c s)

-- Quotes around a tag do not matter.
pub normalize-quoted : (tag : Text) → normalize (quoted tag) ≡ normalize tag
unfolding normalize ℕ_discrete
normalize-quoted tag = trim-last b'"' tag
