-- ===== src/Cli/Targets.antt =====
-- A target that is printed is read back.
use s3db.Base.{
  nat_eq, text_eq, ℕ_discrete, Text, codes, slash, is_empty, has_prefix, has_suffix, true, false,
  ◌==◌, ◌≡◌, refl, sym, ◌∙◌, ap, subst, [], ◌∷◌, ◌++◌, arith, Bool-cases, inl, inr,
}
use mathlib.Core.List.{reverse_aux}
use s3db.Result.{ok}
use s3db.Cli.{rest_of, Target, show_target, cut, with_slash, from_parts, parse_s3_url}

starts_slash : (p acc : Text) → has_prefix (codes "/") (reverse_aux (p ++ slash ∷ []) acc) ≡ true
unfolding has_prefix ℕ_discrete
starts_slash [] acc = refl
starts_slash (c ∷ p) acc = starts_slash p (c ∷ acc)

with_slash-ends : (p : Text) → has_suffix (codes "/") (with_slash p) ≡ true
unfolding with_slash has_suffix
with_slash-ends p = elim (Bool-cases (has_suffix (codes "/") p)) [
  | inl there ↦ rw there there
  | inr missing ↦ rw missing (starts_slash p [])
]

with_slash_idem : (p : Text) → has_suffix (codes "/") p ≡ true → with_slash p ≡ p
unfolding with_slash
with_slash_idem p h = rw h refl

ends-ne_nil : (p : Text) → has_suffix (codes "/") p ≡ true → is_empty p ≡ false
unfolding has_suffix has_prefix
ends-ne_nil [] h = cc h
ends-ne_nil (c ∷ p) h = refl

cut-again : (s q : Text) → cut ((cut s).0 ++ slash ∷ q) ≡ ((cut s).0, q)
unfolding cut ℕ_discrete
cut-again [] q = refl
cut-again (c ∷ s) q = elim (Bool-cases (c == slash)) [
  | inl here ↦ rw here refl
  | inr on ↦ rw (on, on, cut-again s q) refl
]

from_parts-ok :
    (bucket prefix : Text) (t : Target)
    → from_parts (bucket, prefix) ≡ ok t
    → (is_empty bucket ≡ false) × (t ≡ record { bucket = bucket; prefix = with_slash prefix })
unfolding from_parts
from_parts-ok bucket prefix t h = ground (arith, h)

-- The parts of a printed target are read as they were.
again :
    (s prefix : Text)
    → is_empty (cut s).0 ≡ false
    → has_suffix (codes "/") prefix ≡ true
    → from_parts (cut ((cut s).0 ++ slash ∷ prefix))
      ≡ ok (record { bucket = (cut s).0; prefix = prefix })
unfolding from_parts
again s prefix named ends =
    rw (cut-again s prefix, named, ends-ne_nil prefix ends, with_slash_idem prefix ends) refl

parsed : (u : Text) (t : Target) → parse_s3_url u ≡ ok t → from_parts (cut (rest_of u)) ≡ ok t
unfolding parse_s3_url
parsed u t h = elim (Bool-cases (has_prefix (codes "s3://") u)) [
  | inl url ↦ rw url at h
  | inr other ↦ cc (rw other at h)
]

-- A URL that `parseS3URL` accepts gives a prefix that ends in a slash, and what `String` prints
-- of the target is a URL for the same target.
pub parse_s3_url-show_target :
    (u : Text) (t : Target)
    → parse_s3_url u ≡ ok t
    → (has_suffix (codes "/") t.prefix ≡ true) × (parse_s3_url (show_target t) ≡ ok t)
unfolding parse_s3_url has_prefix ℕ_discrete
parse_s3_url-show_target u t h =
    let s = rest_of u in
    let (named, is) = from_parts-ok (cut s).0 (cut s).1 t (parsed u t h) in
    let ends : has_suffix (codes "/") t.prefix ≡ true =
      ap (λ (x : Target). has_suffix (codes "/") x.prefix) is ∙ with_slash-ends (cut s).1 in
    let back = again s (with_slash (cut s).1) named (with_slash-ends (cut s).1) in
    (
      ends,
      subst (λ (x : Target). from_parts (cut (x.bucket ++ slash ∷ x.prefix)) ≡ ok x) (sym is) back,
    )
