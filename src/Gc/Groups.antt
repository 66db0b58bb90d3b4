-- ===== src/Gc/Groups.antt =====
-- `groupByEpoch` misses no key of an epoch.
use s3db.Base.{
  ℕ, zero, suc, Text, text_eq, slash, ◌≡◌, refl, ◌≢◌, ap, Bool, true, ◌||◌, ◌==◌, Option, none,
  some, List, [], ◌∷◌, ◌++◌, arith, take, index_of, has_prefix, drop, length,
}
use s3db.Base.Assoc
use s3db.Base.Assoc.{Assoc, contains}
use s3db.Gc.{epoch_at, epoch_of, or_empty, add_key, group_from, epoch_prefix}

pub contains-append :
    (xs : List Text) (j k : Text) → contains (xs ++ j ∷ []) k ≡ (contains xs k || j == k)
unfolding contains
contains-append [] j k = ground arith
contains-append (x ∷ xs) j k = ground (arith, contains-append xs j k)

-- Whether the group of `e` has `k`.
unfoldable pub in_group : Text → Text → Assoc (List Text) → Bool
in_group e k out = contains (or_empty (Assoc.lookup e out)) k

in_group-keeps :
    (e k j : Text) (o : Option Text) (out : Assoc (List Text))
    → in_group e k out ≡ true
    → in_group e k (add_key o j out) ≡ true
unfolding in_group
in_group-keeps e k j none out h = h
in_group-keeps e k j (some f) out h = ground (
  arith,
  Assoc.lookup-insert f e (or_empty (Assoc.lookup f out) ++ j ∷ []) out,
  contains-append (or_empty (Assoc.lookup f out)) j k,
)

in_group-added :
    (e k : Text) (out : Assoc (List Text)) → in_group e k (add_key (some e) k out) ≡ true
unfolding in_group
in_group-added e k out = ground (
  arith,
  Assoc.lookup-insert e e (or_empty (Assoc.lookup e out) ++ k ∷ []) out,
  contains-append (or_empty (Assoc.lookup e out)) k k,
)

group_from-keeps :
    (cs_prefix e k : Text) (ks : List Text) (out : Assoc (List Text))
    → in_group e k out ≡ true
    → in_group e k (group_from cs_prefix ks out) ≡ true
unfolding group_from
group_from-keeps cs_prefix e k [] out h = h
group_from-keeps cs_prefix e k (j ∷ ks) out h =
    group_from-keeps cs_prefix e k ks _ (in_group-keeps e k j (epoch_of cs_prefix j) out h)

pub group_from_complete :
    (cs_prefix e k : Text) (ks : List Text) (out : Assoc (List Text))
    → contains ks k ≡ true
    → epoch_of cs_prefix k ≡ some e
    → in_group e k (group_from cs_prefix ks out) ≡ true
unfolding group_from contains
group_from_complete cs_prefix e k [] out h he = cc
group_from_complete cs_prefix e k (j ∷ ks) out h he = ground (
  arith,
  group_from-keeps cs_prefix e k ks (add_key (epoch_of cs_prefix j) j out),
  in_group-added e k out,
  group_from_complete cs_prefix e k ks (add_key (epoch_of cs_prefix j) j out),
)

index_of-take : (c : ℕ) (s : Text) (i : ℕ) → index_of c s ≡ some i → index_of c (take i s) ≡ none
unfolding index_of
index_of-take c [] i h = cc
index_of-take c (d ∷ s) zero h = refl
index_of-take c (d ∷ s) (suc i) h = ground (arith, index_of-take c s i)

-- An epoch's name: not empty, and without a slash.
abbrev pub IsEpoch : Text → Type 0
IsEpoch e = (e ≢ []) × (index_of slash e ≡ none)

epoch_at-IsEpoch :
    (rest e : Text) (o : Option ℕ) → index_of slash rest ≡ o → epoch_at rest o ≡ some e → IsEpoch e
unfolding index_of
epoch_at-IsEpoch rest e none h g = cc
epoch_at-IsEpoch rest e (some zero) h g = cc
epoch_at-IsEpoch [] e (some (suc i)) h g = cc
epoch_at-IsEpoch (d ∷ s) e (some (suc i)) h g =
    ground (arith, index_of-take slash (d ∷ s) (suc i) h)

add_key-IsEpoch :
    (cs_prefix k : Text) (o : Option Text) (out : Assoc (List Text))
    → epoch_of cs_prefix k ≡ o
    → ((f : Text) → Assoc.lookup f out ≢ none → IsEpoch f)
    → (f : Text) → Assoc.lookup f (add_key o k out) ≢ none
    → IsEpoch f
unfolding epoch_of
add_key-IsEpoch cs_prefix k none out eq h f g = h f g
add_key-IsEpoch cs_prefix k (some e) out eq h f g = ground (
  arith,
  Assoc.lookup-insert e f (or_empty (Assoc.lookup e out) ++ k ∷ []) out,
  epoch_at-IsEpoch _ e _ refl eq,
  h f,
)

pub group_from-IsEpoch :
    (cs_prefix e : Text) (ks : List Text) (out : Assoc (List Text))
    → ((f : Text) → Assoc.lookup f out ≢ none → IsEpoch f)
    → Assoc.lookup e (group_from cs_prefix ks out) ≢ none
    → IsEpoch e
unfolding group_from
group_from-IsEpoch cs_prefix e [] out h g = h e g
group_from-IsEpoch cs_prefix e (k ∷ ks) out h g =
    group_from-IsEpoch cs_prefix e ks _ (add_key-IsEpoch cs_prefix k _ out refl h) g

pub has_prefix-append :
    (p q s : Text)
    → has_prefix (p ++ q) s ≡ true
    → (has_prefix p s ≡ true) × (has_prefix q (drop (length p) s) ≡ true)
unfolding has_prefix
has_prefix-append [] q s h = (refl, h)
has_prefix-append (c ∷ p) q [] h = cc
has_prefix-append (c ∷ p) q (d ∷ s) h = ground (arith, has_prefix-append p q s)

index_of-under :
    (c : ℕ) (e s : Text)
    → index_of c e ≡ none
    → has_prefix (e ++ c ∷ []) s ≡ true
    → (index_of c s ≡ some (length e)) × (take (length e) s ≡ e)
unfolding index_of has_prefix
index_of-under c [] [] h g = cc
index_of-under c [] (d ∷ s) h g = ground arith
index_of-under c (x ∷ e) [] h g = cc
index_of-under c (x ∷ e) (d ∷ s) h g = ground (arith, index_of-under c e s)

-- A key under the prefix of an epoch belongs to that epoch.
pub epoch_of-under :
    (cs_prefix e k : Text)
    → IsEpoch e
    → has_prefix (epoch_prefix cs_prefix e) k ≡ true
    → epoch_of cs_prefix k ≡ some e
unfolding epoch_of
epoch_of-under cs_prefix [] k ie h = absurd (ie.0 refl)
epoch_of-under cs_prefix (x ∷ e) k ie h =
    let (under, rest) = has_prefix-append cs_prefix ((x ∷ e) ++ slash ∷ []) k h in
    let (at, same) = index_of-under slash (x ∷ e) (drop (length cs_prefix) k) ie.1 rest in
    rw (under, at) (ap some same)

add_key-NodupKeys :
    (o : Option Text) (k : Text) (out : Assoc (List Text))
    → Assoc.NodupKeys out
    → Assoc.NodupKeys (add_key o k out)
add_key-NodupKeys none k out h = h
add_key-NodupKeys (some e) k out h = Assoc.insert-NodupKeys e _ out h

-- No epoch has two groups.
pub group_from-NodupKeys :
    (cs_prefix : Text) (ks : List Text) (out : Assoc (List Text))
    → Assoc.NodupKeys out
    → Assoc.NodupKeys (group_from cs_prefix ks out)
unfolding group_from
group_from-NodupKeys cs_prefix [] out h = h
group_from-NodupKeys cs_prefix (k ∷ ks) out h =
    group_from-NodupKeys cs_prefix ks _ (add_key-NodupKeys (epoch_of cs_prefix k) k out h)
