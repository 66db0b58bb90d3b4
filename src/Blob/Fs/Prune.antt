-- ===== src/Blob/Fs/Prune.antt =====
-- The loop that removes empty directories ends.
use s3db.Base.{
  ℕ, zero, suc, ◌+◌, ◌≤◌, ◌<◌, Text, text_eq, text_dec, codes, slash, is_empty, last_index, ◌||◌,
  ◌==◌, ◌≡◌, refl, sym, ◌∙◌, ap, some, [], ◌∷◌, length, arith, Bool-cases, Option-cases, ◌⊎◌, inl,
  inr,
}
use s3db.Base.Lists.{length-take_lem}
use s3db.Result.{Result, ok}
use s3db.Result.Exec.{pure}
use s3db.Blob.FileKeys.{Unicode, dir_of}
use s3db.Blob.Root.{Root}
use s3db.Blob.Fs.{prune_empty_dirs, after_remove}

last_index-below : (c : ℕ) (s : Text) (i : ℕ) → last_index c s ≡ some i → i < length s
unfolding last_index
last_index-below c [] i h = cc h
last_index-below c (d ∷ s) i h = elim (Option-cases (last_index c s)) [
  | inl end ↦ ground (arith, end, h)
  | inr (k, e) ↦ ground (arith, e, h, last_index-below c s k e)
]

-- The directory of a path is shorter, or "." for a path of one element.
dir_of-shorter : (dir : Text) → (dir_of dir ≡ codes ".") ⊎ (length (dir_of dir) < length dir)
unfolding dir_of
dir_of-shorter dir = elim (Option-cases (last_index slash dir)) [
  | inl end ↦ inl (rw end refl)
  | inr (i, e) ↦
      let (below, _) = length-take_lem i dir in
      let inside = last_index-below slash dir i e in inr (rw e (omega (arith, below, inside)))
]

module _ {S : Type 0} (root : Root S) (u : Unicode) (hash : Text → Text) where
  abbrev prune : ℕ → Text → S → Result (Unit {0}) × S
  prune n dir = prune_empty_dirs root u hash n dir

  prune-top : (n : ℕ) (dir : Text) (s : S) → dir ≡ codes "." → prune n dir s ≡ (ok tt, s)
  unfolding prune_empty_dirs pure text_dec
  prune-top zero dir s h = refl
  prune-top (suc n) dir s h = rw h refl

  prune-more : (n : ℕ) (dir : Text) (s : S) → length dir ≤ n → prune n dir s ≡ prune (suc n) dir s
  unfolding prune_empty_dirs pure text_dec
  prune-more zero [] s h = refl
  prune-more zero (c ∷ dir) s h = ground (arith, h)
  prune-more (suc n) dir s h = elim (Bool-cases (dir == codes "." || is_empty dir)) [
    | inl stop ↦ rw stop refl
    | inr on ↦
        let t = (root.remove dir s).1 in
        let next : prune n (dir_of dir) t ≡ prune (suc n) (dir_of dir) t =
          elim (dir_of-shorter dir) [
            | inl top ↦ prune-top n (dir_of dir) t top ∙ sym (prune-top (suc n) (dir_of dir) t top)
            | inr less ↦ prune-more n (dir_of dir) t (omega (arith, h, less))
          ] in
        rw on (ap (λ x. after_remove root u hash (root.remove dir s).0 x t) next)
  ]

  -- As many rounds as the path has bytes are enough for `pruneEmptyDirs`: more rounds do the
  -- same, whatever the removals return.
  pub prune_empty_dirs-ends :
      (more : ℕ) (dir : Text) (s : S)
      → prune_empty_dirs root u hash (length dir + more) dir s
        ≡ prune_empty_dirs root u hash (length dir) dir s
  prune_empty_dirs-ends zero dir s = ap (λ n. prune n dir s) (omega arith)
  prune_empty_dirs-ends (suc more) dir s =
      let step : suc (length dir + more) ≡ length dir + suc more = omega arith in
      ap (λ n. prune n dir s) (sym step)
      ∙ sym (prune-more (length dir + more) dir s (omega arith))
      ∙ prune_empty_dirs-ends more dir s
