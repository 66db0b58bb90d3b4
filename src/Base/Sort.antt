-- ===== src/Base/Sort.antt =====
-- `sort.Strings`: strings in the order of their bytes.
use mathlib.Core.Path.{◌≡◌, ◌∙◌, refl}
use mathlib.Core.Logic.{◌⊎◌}
use mathlib.Core.Bool.{Bool, true, false, ◌&&◌, ◌||◌}
use mathlib.Core.List.{List, [], ◌∷◌}
use native.Mathlib.Omega.{arith}
use s3db.Base.Tests.{◌==◌, nat_eq, ltb, if◌then◌else◌}
use s3db.Base.Strings.{Text, text_eq}
use s3db.Base.Assoc.{contains}

-- `s < t`
unfoldable pub lt_text : Text → Text → Bool
lt_text s [] = false
lt_text [] (d ∷ t) = true
lt_text (c ∷ s) (d ∷ t) = ltb c d || (c == d && lt_text s t)

unfoldable pub insert_sorted : Text → List Text → List Text
insert_sorted k [] = k ∷ []
insert_sorted k (j ∷ js) =
    let rest = insert_sorted k js in if lt_text j k then j ∷ rest else k ∷ j ∷ js

unfoldable pub sort_strings : List Text → List Text
unfolding insert_sorted lt_text
sort_strings [] = []
sort_strings (k ∷ ks) = insert_sorted k (sort_strings ks)

-- Every string is less than all that follow it.
abbrev pub IsAscending : List Text → Type 0
IsAscending [] = Unit
IsAscending (k ∷ []) = Unit
IsAscending (k ∷ j ∷ js) = (lt_text k j ≡ true) × IsAscending (j ∷ js)

-- no string stands twice
abbrev pub IsDistinct : List Text → Type 0
IsDistinct [] = Unit
IsDistinct (k ∷ ks) = (contains ks k ≡ false) × IsDistinct ks

lt_text_total : (s t : Text) → (lt_text s t ≡ true) ⊎ (lt_text t s ≡ true) ⊎ (s ≡ t)
unfolding lt_text
lt_text_total [] [] = ground arith
lt_text_total [] (d ∷ t) = ground arith
lt_text_total (c ∷ s) [] = ground arith
lt_text_total (c ∷ s) (d ∷ t) = ground (arith, lt_text_total s t)

contains-insert_sorted :
    (k j : Text) (ks : List Text) → contains (insert_sorted k ks) j ≡ (k == j || contains ks j)
unfolding insert_sorted contains
contains-insert_sorted k j [] = refl
contains-insert_sorted k j (i ∷ ks) = ground (arith, contains-insert_sorted k j ks)

pub contains-sort_strings :
    (k : Text) (ks : List Text) → contains (sort_strings ks) k ≡ contains ks k
unfolding sort_strings contains
contains-sort_strings k [] = refl
contains-sort_strings k (j ∷ ks) =
    ground (arith, contains-insert_sorted j k (sort_strings ks), contains-sort_strings k ks)

insert_sorted-IsAscending :
    (k : Text) (ks : List Text)
    → IsAscending ks
    → contains ks k ≡ false
    → IsAscending (insert_sorted k ks)
unfolding insert_sorted contains
insert_sorted-IsAscending k [] h n = tt
insert_sorted-IsAscending k (j ∷ []) h n = ground (arith, lt_text_total k j)
insert_sorted-IsAscending k (j ∷ i ∷ ks) h n =
    ground (arith, lt_text_total k j, insert_sorted-IsAscending k (i ∷ ks) h.1)

pub sort_strings-IsAscending : (ks : List Text) → IsDistinct ks → IsAscending (sort_strings ks)
unfolding sort_strings
sort_strings-IsAscending [] h = tt
sort_strings-IsAscending (k ∷ ks) h =
    insert_sorted-IsAscending k (sort_strings ks) (sort_strings-IsAscending ks h.1)
      (contains-sort_strings k ks ∙ h.0)
