-- ===== src/Blob/S3/Pages.antt =====
-- The pages of a list in the S3 store.
use s3db.Base.{
  ℕ, zero, suc, ◌<◌, ◌≡◌, refl, sym, ◌∙◌, ap, Text, true, false, List, [], ◌∷◌, ◌++◌, Option, some,
  arith, map,
}
use s3db.Result.{Result, ok, err}
use s3db.Result.Exec.{pure, ◌>>=◌}
use s3db.Result.Reply.{failed, got}
use s3db.Blob.S3.{S3Client, list_pages, list, to_string, S3Error}

-- The keys of a page before those of the pages after it.
abbrev pub then : List Text → Result (List Text) → Result (List Text)
then keys (ok more) = ok (keys ++ more)
then keys (err e) = err e

-- The pages have ended, or one of them has failed.
abbrev pub listed : Result (List Text) → Result (Option (List Text))
listed (ok keys) = ok (some keys)
listed (err e) = err e

append_assoc : (a b c : List Text) → (a ++ b) ++ c ≡ a ++ (b ++ c)
append_assoc [] b c = refl
append_assoc (x ∷ a) b c = ap (λ t. x ∷ t) (append_assoc a b c)

append_nil : (a : List Text) → a ++ [] ≡ a
append_nil [] = refl
append_nil (x ∷ a) = ap (λ t. x ∷ t) (append_nil a)

then_assoc : (a b : List Text) (r : Result (List Text)) → then (a ++ b) r ≡ then a (then b r)
then_assoc a b (ok c) = ap ok (append_assoc a b c)
then_assoc a b (err e) = refl

then_nil : (r : Result (List Text)) → then [] r ≡ r
then_nil (ok keys) = refl
then_nil (err e) = refl

module _ {S : Type 0} (client : S3Client S) where
  open client use {Paginator}

  -- What the paginator serves from a state on, in so many calls: the keys of its pages in their
  -- order, or the error of the first page that fails; and the state after that.
  pub data Serves : Paginator → S → Result (List Text) → S → ℕ → Type 0 where
    no_more : (p : Paginator) (s : S) → client.has_more_pages p ≡ false → Serves p s (ok []) s 0
    page :
        (p p' : Paginator) (keys : List (Option Text)) (r : Result (List Text)) (s t u : S) (n : ℕ)
        → client.has_more_pages p ≡ true
        → client.next_page p s ≡ (got (keys, p'), t)
        → Serves p' t r u n
        → Serves p s (then (map to_string keys) r) u (suc n)
    broken :
        (p : Paginator) (e : S3Error) (s t : S)
        → client.has_more_pages p ≡ true
        → client.next_page p s ≡ (failed e, t)
        → Serves p s (err e.cause) t 1

  list_pages-Serves :
      (bucket : Text) (rounds n : ℕ) (p : Paginator) (keys : List Text) (s u : S)
      (r : Result (List Text))
      → Serves p s r u n
      → n < rounds
      → list_pages client bucket rounds p keys s ≡ (listed (then keys r), u)
  unfolding list_pages ◌>>=◌ pure
  list_pages-Serves bucket zero n p keys s u r served lt = absurd (omega (arith, lt))
  list_pages-Serves bucket (suc k) n p keys s u r (no_more _ _ done) lt =
      rw done (ap (λ x. (ok (some x), s)) (sym (append_nil keys)))
  list_pages-Serves bucket (suc k) n p keys s u r (broken _ e _ _ more fails) lt =
      rw (more, fails) refl
  list_pages-Serves bucket (suc k) n p keys s u r (page _ p' ks r' _ t _ m more gives rest) lt =
      rw (more, gives)
        (list_pages-Serves bucket k m p' (keys ++ map to_string ks) t u r' rest (omega (arith, lt))
          ∙ ap (λ x. (listed x, u)) (then_assoc keys (map to_string ks) r'))

  -- Where the paginator of a prefix ends within fewer calls than `List` is allowed, `List`
  -- returns the keys of all pages in their order, each page's once, or, if a page fails, its
  -- error.
  pub list-Serves :
      (bucket prefix : Text) (pages n : ℕ) (s u : S) (r : Result (List Text))
      → Serves (client.new_paginator bucket prefix) s r u n
      → n < pages
      → list client bucket pages prefix s ≡ (listed r, u)
  unfolding list
  list-Serves bucket prefix pages n s u r served lt =
      list_pages-Serves bucket pages n _ [] s u r served lt ∙ ap (λ x. (listed x, u)) (then_nil r)
