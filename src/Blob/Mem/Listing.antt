-- ===== src/Blob/Mem/Listing.antt =====
-- Listing and deletion, by key and by prefix; keys stand at most once and tags are those of the
-- bodies.
use s3db.Base.{
  Option-cases, inl, inr, ℕ, Text, has_prefix, text_eq, ◌≡◌, refl, Bool, true, false, ◌&&◌, Option,
  none, some, List, [], ◌∷◌, ◌==◌, arith, if◌then◌else◌,
}
use s3db.Base.Assoc
use s3db.Base.Assoc.{Assoc, contains, NodupKeys}
use s3db.Base.Sort.{
  IsAscending, IsDistinct, sort_strings, contains-sort_strings, sort_strings-IsAscending,
}
use s3db.Errors.{Error}
use s3db.Result.{Result, ok, err}
use s3db.Blob.{PutCondition}
use s3db.Blob.Mem.{
  MemBlobStore, MemEntry, put, delete, delete_prefix, without_prefix, store_entry, list,
  with_prefix,
}
use s3db.Blob.Mem.Swap.{contents}

contains-with_prefix :
    (prefix k : Text) (ks : List Text)
    → contains (with_prefix prefix ks) k ≡ (has_prefix prefix k && contains ks k)
unfolding with_prefix contains
contains-with_prefix prefix k [] = ground arith
contains-with_prefix prefix k (j ∷ ks) = ground (arith, contains-with_prefix prefix k ks)

with_prefix-IsDistinct :
    (prefix : Text) (ks : List Text) → IsDistinct ks → IsDistinct (with_prefix prefix ks)
unfolding with_prefix
with_prefix-IsDistinct prefix [] h = tt
with_prefix-IsDistinct prefix (k ∷ ks) h =
    ground (arith, with_prefix-IsDistinct prefix ks h.1, contains-with_prefix prefix k ks)

keys-IsDistinct : (m : Assoc MemEntry) → NodupKeys m → IsDistinct (Assoc.keys m)
unfolding Assoc.keys
keys-IsDistinct [] h = tt
keys-IsDistinct ((k, e) ∷ m) h = ground (arith, keys-IsDistinct m h.1, Assoc.contains-keys k m)

abbrev pub is_some : {A : Type 0} → Option A → Bool
is_some none = false
is_some (some _) = true

-- `List` returns exactly the stored keys with the prefix, in strictly ascending order of their
-- bytes.
pub list_lem :
    (prefix k : Text) (m : MemBlobStore)
    → NodupKeys m.objects
    → (ks : List Text) × (list none prefix m ≡ ok ks)
      × IsAscending ks
      × (contains ks k ≡ (has_prefix prefix k && is_some (contents m k)))
unfolding list contents
list_lem prefix k m h = (
  sort_strings (with_prefix prefix (Assoc.keys m.objects)),
  refl,
  sort_strings-IsAscending _ (with_prefix-IsDistinct prefix _ (keys-IsDistinct m.objects h)),
  ground (
    arith,
    contains-sort_strings k (with_prefix prefix (Assoc.keys m.objects)),
    contains-with_prefix prefix k (Assoc.keys m.objects),
    Assoc.contains-keys k m.objects,
  ),
)

lookup-without_prefix :
    (prefix k : Text) (m : Assoc MemEntry)
    → Assoc.lookup k (without_prefix prefix m)
      ≡ (if has_prefix prefix k then none else Assoc.lookup k m)
unfolding without_prefix Assoc.lookup
lookup-without_prefix prefix k [] = ground arith
lookup-without_prefix prefix k ((j, e) ∷ m) = ground (arith, lookup-without_prefix prefix k m)

-- `Delete` removes its key and `DeletePrefix` the keys with its prefix; each succeeds also where
-- there is none, and every other key keeps its object.
pub contents-delete :
    (key prefix k : Text) (m : MemBlobStore)
    → ((delete none key m).0 ≡ ok tt)
      × (contents (delete none key m).1 k ≡ (if key == k then none else contents m k))
      × ((delete_prefix none prefix m).0 ≡ ok tt)
      × (contents (delete_prefix none prefix m).1 k
          ≡ (if has_prefix prefix k then none else contents m k))
unfolding delete delete_prefix contents
contents-delete key prefix k m =
    ground (arith, Assoc.lookup-without key k m.objects, lookup-without_prefix prefix k m.objects)

-- Each key stands once, and each entry has the tag of its body.
pub record IsWellFormed (compute : Text → Text) (m : MemBlobStore) : Type 0 where
  pub nodup : NodupKeys m.objects
  pub tags : (k : Text) (e : MemEntry) → Assoc.lookup k m.objects ≡ some e → e.etag ≡ compute e.body

without_prefix-NodupKeys :
    (prefix : Text) (m : Assoc MemEntry) → NodupKeys m → NodupKeys (without_prefix prefix m)
unfolding without_prefix
without_prefix-NodupKeys prefix [] h = tt
without_prefix-NodupKeys prefix ((k, e) ∷ m) h =
    ground (arith, without_prefix-NodupKeys prefix m h.1, lookup-without_prefix prefix k m)

module _ {compute : Text → Text} {m : MemBlobStore} (w : IsWellFormed compute m) (key : Text) where
  store_entry-IsWellFormed :
      (now : ℕ) (r : Result Text) → IsWellFormed compute (store_entry compute now key r m).1
  store_entry-IsWellFormed now (err x) = w
  store_entry-IsWellFormed now (ok body) =
      let new : MemEntry = record { body = body; etag = compute body; mod_time = now } in
      record {
        nodup = Assoc.insert-NodupKeys key new m.objects w.nodup;
        tags = λ k e h. ground (arith, Assoc.lookup-insert key k new m.objects, w.tags k e);
      }

  -- Every operation that changes the store keeps it well formed: no key twice, each tag the hash
  -- of its body.
  pub writes-IsWellFormed :
      (ctx : Option Error) (now : ℕ) (r : Result Text) (cond : PutCondition)
      → IsWellFormed compute (put compute now ctx key r cond m).1
        × IsWellFormed compute (delete ctx key m).1
        × IsWellFormed compute (delete_prefix ctx key m).1
  unfolding put delete delete_prefix
  writes-IsWellFormed none now r cond = (
    store_entry-IsWellFormed now _,
    record {
      nodup = Assoc.without-NodupKeys key m.objects w.nodup;
      tags = λ k e h. ground (arith, Assoc.lookup-without key k m.objects, w.tags k e);
    },
    record {
      nodup = without_prefix-NodupKeys key m.objects w.nodup;
      tags = λ k e h. ground (arith, lookup-without_prefix key k m.objects, w.tags k e);
    },
  )
  writes-IsWellFormed (some x) now r cond = (w, w, w)

-- In a well-formed store the tag of an object is that of its body.
pub tag_of_contents :
    {compute : Text → Text} {m : MemBlobStore}
    → IsWellFormed compute m
    → (k body tag : Text) → contents m k ≡ some (body, tag)
    → tag ≡ compute body
unfolding contents
tag_of_contents {compute} {m} w k body tag h = elim (Option-cases (Assoc.lookup k m.objects)) [
  | inl e ↦ ground arith
  | inr (x, e) ↦ ground (arith, w.tags k x)
]
