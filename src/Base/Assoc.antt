-- ===== src/Base/Assoc.antt =====
-- Go maps with string keys: association lists in which a key stands at most once.
use mathlib.Core.Path.{◌≡◌, refl}
use mathlib.Core.Logic.{◌≢◌, ◌↔◌}
use mathlib.Core.Bool.{Bool, true, false, ◌||◌}
use mathlib.Core.Option.{Option, none, some}
use mathlib.Core.List.{List, [], ◌∷◌}
use native.Mathlib.Omega.{arith}
use s3db.Base.Tests.{◌==◌, if◌then◌else◌}
use s3db.Base.Strings.{Text, text_eq}

abbrev pub Assoc {ℓ} : Type ℓ → Type ℓ
Assoc V = List (Text × V)

-- Whether a list of keys has `k`.
unfoldable pub contains : List Text → Text → Bool
contains [] k = false
contains (j ∷ js) k = j == k || contains js k

module _ {ℓ} {V : Type ℓ} where
  -- `v, ok := m[k]`
  unfoldable pub lookup : Text → Assoc V → Option V
  lookup k [] = none
  lookup k ((j, v) ∷ m) = if j == k then some v else lookup k m

  -- `delete(m, k)`
  unfoldable pub without : Text → Assoc V → Assoc V
  without k [] = []
  without k ((j, v) ∷ m) = let rest = without k m in if j == k then rest else (j, v) ∷ rest

  -- `m[k] = v`
  unfoldable pub insert : Text → V → Assoc V → Assoc V
  unfolding without
  insert k v m = (k, v) ∷ without k m

  unfoldable pub keys : Assoc V → List Text
  keys [] = []
  keys ((k, v) ∷ m) = k ∷ keys m

  pub lookup-without :
      (k j : Text) (m : Assoc V) → lookup j (without k m) ≡ (if k == j then none else lookup j m)
  unfolding lookup without
  lookup-without k j [] = ground arith
  lookup-without k j ((i, v) ∷ m) = ground (arith, lookup-without k j m)

  pub lookup-insert :
      (k j : Text) (v : V) (m : Assoc V)
      → lookup j (insert k v m) ≡ (if k == j then some v else lookup j m)
  unfolding lookup insert
  lookup-insert k j v m = ground (arith, lookup-without k j m)

  pub contains-keys : (k : Text) (m : Assoc V) → (contains (keys m) k ≡ true) ↔ (lookup k m ≢ none)
  unfolding lookup keys contains
  contains-keys k [] = (λ h. cc, λ h. absurd (h refl))
  contains-keys k ((j, v) ∷ m) = ground (arith, contains-keys k m)

  -- No key stands twice.
  abbrev pub NodupKeys : Assoc V → Type ℓ
  NodupKeys [] = Unit
  NodupKeys ((k, v) ∷ m) = (lookup k m ≡ none) × NodupKeys m

  pub without-NodupKeys : (k : Text) (m : Assoc V) → NodupKeys m → NodupKeys (without k m)
  unfolding without
  without-NodupKeys k [] h = tt
  without-NodupKeys k ((j, v) ∷ m) h =
      ground (arith, without-NodupKeys k m h.1, lookup-without k j m)

  pub insert-NodupKeys : (k : Text) (v : V) (m : Assoc V) → NodupKeys m → NodupKeys (insert k v m)
  unfolding insert
  insert-NodupKeys k v m h = ground (arith, without-NodupKeys k m h, lookup-without k k m)
