-- ===== src/Gc/Epochs.antt =====
-- `groupByEpoch` puts no key in the group of another epoch, and the prefix of an epoch covers its
-- keys.
use s3db.Base.{
  ℕ, zero, suc, Text, text_eq, slash, ◌≡◌, refl, ◌≢◌, true, false, ◌==◌, Option, none, some, List,
  [], ◌∷◌, ◌++◌, arith, take, index_of, has_prefix, drop, length, trim_prefix, Bool-cases, inl, inr,
}
use s3db.Base.Assoc
use s3db.Base.Assoc.{Assoc, contains}
use s3db.Gc.{epoch_at, epoch_of, or_empty, add_key, group_from, has_live, epoch_prefix}
use s3db.Gc.Groups.{in_group, contains-append}

module _ (cs_prefix e k : Text) (other : epoch_of cs_prefix k ≢ some e) where
  add_key-other :
      (j : Text) (o : Option Text) (out : Assoc (List Text))
      → epoch_of cs_prefix j ≡ o
      → in_group e k out ≡ false
      → in_group e k (add_key o j out) ≡ false
  unfolding in_group
  add_key-other j none out eq h = h
  add_key-other j (some f) out eq h = elim (Bool-cases (j == k)) [
    | inl same ↦ ground (
      arith,
      Assoc.lookup-insert f e (or_empty (Assoc.lookup f out) ++ j ∷ []) out,
      contains-append (or_empty (Assoc.lookup f out)) j k,
    )
    | inr apart ↦ ground (
      arith,
      Assoc.lookup-insert f e (or_empty (Assoc.lookup f out) ++ j ∷ []) out,
      contains-append (or_empty (Assoc.lookup f out)) j k,
    )
  ]

  pub group_from-other :
      (ks : List Text) (out : Assoc (List Text))
      → in_group e k out ≡ false
      → in_group e k (group_from cs_prefix ks out) ≡ false
  unfolding group_from
  group_from-other [] out h = h
  group_from-other (j ∷ ks) out h = group_from-other ks _ (add_key-other j _ out refl h)

pub has_live-none :
    (live ks : List Text)
    → ((k : Text) → contains ks k ≡ true → contains live k ≡ false)
    → has_live live ks ≡ false
unfolding has_live contains
has_live-none live [] h = refl
has_live-none live (k ∷ ks) h =
    ground (arith, h k (ground arith), has_live-none live ks (λ j g. h j (ground arith)))

index_of-prefix :
    (c : ℕ) (s : Text) (i : ℕ) → index_of c s ≡ some i → has_prefix (take i s ++ c ∷ []) s ≡ true
unfolding index_of has_prefix
index_of-prefix c [] i h = cc
index_of-prefix c (d ∷ s) zero h = ground arith
index_of-prefix c (d ∷ s) (suc i) h = ground (arith, index_of-prefix c s i)

has_prefix_join :
    (p q s : Text)
    → has_prefix p s ≡ true
    → has_prefix q (drop (length p) s) ≡ true
    → has_prefix (p ++ q) s ≡ true
unfolding has_prefix
has_prefix_join [] q s h g = g
has_prefix_join (c ∷ p) q [] h g = cc
has_prefix_join (c ∷ p) q (d ∷ s) h g = ground (arith, has_prefix_join p q s)

epoch_at-prefix :
    (rest e : Text) (o : Option ℕ)
    → index_of slash rest ≡ o
    → epoch_at rest o ≡ some e
    → has_prefix (e ++ slash ∷ []) rest ≡ true
epoch_at-prefix rest e none h g = cc
epoch_at-prefix rest e (some zero) h g = cc
epoch_at-prefix rest e (some (suc i)) h g = ground (arith, index_of-prefix slash rest (suc i) h)

pub epoch_of-prefix :
    (cs_prefix e k : Text)
    → has_prefix cs_prefix k ≡ true
    → epoch_of cs_prefix k ≡ some e
    → has_prefix (epoch_prefix cs_prefix e) k ≡ true
unfolding epoch_of trim_prefix
epoch_of-prefix cs_prefix e k under mine =
    has_prefix_join cs_prefix (e ++ slash ∷ []) k under
      (epoch_at-prefix (drop (length cs_prefix) k) e _ refl (ground arith))
