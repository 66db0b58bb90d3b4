-- ===== src/Migrate/Next.antt =====
-- Which migration a round of `runMigrations` applies.
use s3db.Base.{
  ℕ, zero, suc, ℤ, ◌≤ℤ◌, lt_int, ◌≡◌, refl, subst, ◌⊎◌, inl, inr, Bool-cases, true, Option, none,
  some, List, [], ◌∷◌, get_elem?, arith,
}
use s3db.Result.{ok}
use s3db.Migrate.{Migration, check_versions, next_migration}

module _ {C : Type 0} where
  -- The migration is one of the list above the version that was found, and no other above it is
  -- lower; there is none where the whole list is below.
  abbrev pub IsNext : ℤ → List (Migration C) → Option (Migration C) → Type 0
  IsNext found migs none =
      (j : ℕ) (other : Migration C) → get_elem? migs j ≡ some other → other.version ≤ℤ found
  IsNext found migs (some mig) =
      ((i : ℕ) × (get_elem? migs i ≡ some mig))
      × (lt_int found mig.version ≡ true)
      × ((j : ℕ) (other : Migration C)
          → get_elem? migs j ≡ some other
          → (other.version ≤ℤ found) ⊎ (mig.version ≤ℤ other.version))

  -- the versions that follow are above
  above :
      (last : ℤ) (migs : List (Migration C)) (j : ℕ) (other : Migration C)
      → check_versions last migs ≡ ok tt
      → get_elem? migs j ≡ some other
      → last ≤ℤ other.version
  unfolding check_versions
  above last [] j other h g = cc
  above last (m ∷ migs) zero other h g = ground (arith, h, g)
  above last (m ∷ migs) (suc j) other h g = ground (arith, h, above m.version migs j other)

  all_below :
      (found : ℤ) (m : Migration C) (migs : List (Migration C))
      → m.version ≤ℤ found
      → IsNext found migs none
      → (j : ℕ) (other : Migration C) → get_elem? (m ∷ migs) j ≡ some other
      → other.version ≤ℤ found
  all_below found m migs low h zero other g =
      subst (λ (o : Option (Migration C)). elim o [ none ↦ Unit {0} | some x ↦ x.version ≤ℤ found ])
        g low
  all_below found m migs low h (suc j) other g = h j other g

  least_of :
      (found : ℤ) (mig m : Migration C) (migs : List (Migration C))
      → (m.version ≤ℤ found) ⊎ (mig.version ≤ℤ m.version)
      → ((j : ℕ) (other : Migration C)
          → get_elem? migs j ≡ some other
          → (other.version ≤ℤ found) ⊎ (mig.version ≤ℤ other.version))
      → (j : ℕ) (other : Migration C) → get_elem? (m ∷ migs) j ≡ some other
      → (other.version ≤ℤ found) ⊎ (mig.version ≤ℤ other.version)
  least_of found mig m migs head tail zero other g =
      let same : m ≡ other = cc g in
      subst (λ (x : Migration C). (x.version ≤ℤ found) ⊎ (mig.version ≤ℤ x.version)) same head
  least_of found mig m migs head tail (suc j) other g = tail j other g

  IsNext-below :
      (found : ℤ) (m : Migration C) (migs : List (Migration C)) (o : Option (Migration C))
      → m.version ≤ℤ found
      → IsNext found migs o
      → IsNext found (m ∷ migs) o
  IsNext-below found m migs none low h = all_below found m migs low h
  IsNext-below found m migs (some mig) low ((i, at), over, least) =
      ((suc i, at), over, least_of found mig m migs (inl low) least)

  -- Where the versions increase, a round applies the lowest migration above the version that it
  -- has found, and none exactly where no migration is above.
  pub next_migration-IsNext :
      (last found : ℤ) (migs : List (Migration C))
      → check_versions last migs ≡ ok tt
      → IsNext found migs (next_migration found migs)
  unfolding next_migration check_versions
  next_migration-IsNext last found [] h = λ j other g. cc
  next_migration-IsNext last found (m ∷ migs) h = elim (Bool-cases (lt_int found m.version)) [
    | inl over ↦ rw over (
      (zero, refl),
      over,
      least_of found m m migs (inr (ground arith))
          (λ j other g. inr (above m.version migs j other (ground (arith, h)) g)),
    )
    | inr low ↦ rw low (
        IsNext-below found m migs _ (ground (arith, low))
          (next_migration-IsNext m.version found migs (ground (arith, h))))
  ]
