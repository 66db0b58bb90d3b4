-- ===== src/Gc/Sweeping.antt =====
-- gc.go: the two sweeps in a store at rest.
use s3db.Base.{
  ℕ, Text, codes, slash, has_prefix, text_eq, ◌≡◌, refl, sym, ap, ◌∙◌, Bool, true, false, not, ◌&&◌,
  ◌||◌, Option, none, some, List, [], ◌∷◌, ◌++◌, ◌==◌, nat_eq, arith, if◌then◌else◌, Bool-cases,
  inl, inr, ◌≢◌,
}
use s3db.Base.Assoc
use s3db.Base.Assoc.{Assoc, contains}
use s3db.Result.Exec.{pure, current}
use s3db.Blob.{BlobStore, Contents}
use s3db.Blob.Mem.Listing.{is_some}
use s3db.Env.{Env}
use s3db.Env.Quiet.{Runs, runs_pure, runs_bind, runs_then, runs_as}
use s3db.Manifest.{Manifest, epoch}
use s3db.Gc.Groups.{in_group, group_from_complete}
use s3db.Gc.Epochs.{group_from-other, has_live-none, epoch_of-prefix}
use s3db.Gc.{
  changesets_prefix, snapshots_prefix, epoch_prefix, live_changesets, has_live, group_by_epoch,
  epoch_of, or_empty, is_old, sweep_epochs, sweep_changesets, sweep_old, sweep_snapshots, sweep,
}

-- Listing and deleting when nobody else writes.
pub record IsSweepable {S : Type 0} (store : BlobStore S) (at : S → Contents) (rest : S → Type 0)
    : Type 0 where
  pub list :
      (prefix : Text) (s : S)
      → rest s
      → (ks : List Text) × Runs at rest (store.list prefix) s ks (at s)
        × ((k : Text) → contains ks k ≡ (has_prefix prefix k && is_some (at s k)))
  pub delete :
      (k : Text) (s : S)
      → rest s
      → Runs at rest (store.delete k) s tt (λ j. if k == j then none else at s j)
  pub delete_prefix :
      (prefix : Text) (s : S)
      → rest s
      → Runs at rest
          (store.delete_prefix prefix)
          s
          tt
          (λ j. if has_prefix prefix j then none else at s j)

-- A key under `changesets/` in an epoch that is over and that the log does not mention.
pub record Garbage (cs_prefix : Text) (m : Manifest) (e j : Text) : Type 0 where
  pub under : has_prefix cs_prefix j ≡ true
  pub mine : epoch_of cs_prefix j ≡ some e
  pub other : e ≢ epoch m
  pub unlogged :
      (k : Text) → contains (live_changesets m.log) k ≡ true → epoch_of cs_prefix k ≢ some e

apart : (p q j : Text) → has_prefix p j ≡ false → has_prefix (p ++ q) j ≡ false
unfolding has_prefix
apart [] q j h = absurd (cc h)
apart (x ∷ p) q [] h = refl
apart (x ∷ p) q (y ∷ j) h = ground (arith, apart p q j)

missing : (o : Option (Text × Text)) → is_some o ≡ false → o ≡ none
missing none h = refl
missing (some x) h = absurd (cc h)

module _ {S : Type 0} (env : Env S) (order : Assoc (List Text) → Assoc (List Text))
    (orders : (keys : List Text) (cs_prefix e : Text)
      → Assoc.lookup e (order (group_by_epoch keys cs_prefix))
        ≡ Assoc.lookup e (group_by_epoch keys cs_prefix))
    (at : S → Contents) (rest : S → Type 0) (sweepable : IsSweepable env.store at rest) where
  -- whether the sweep of these epochs deletes the key
  abbrev swept : Text → Manifest → List (Text × List Text) → Text → Bool
  swept cs_prefix m [] j = false
  swept cs_prefix m ((e, ks) ∷ epochs) j =
      not (e == epoch m || has_live (live_changesets m.log) ks)
        && has_prefix (epoch_prefix cs_prefix e) j
      || swept cs_prefix m epochs j

  sweep_epochs-runs :
      (cs_prefix : Text) (m : Manifest) (epochs : List (Text × List Text)) (s : S)
      → rest s
      → Runs at rest
          (sweep_epochs env 0 order cs_prefix m epochs)
          s
          tt
          (λ j. if swept cs_prefix m epochs j then none else at s j)
  unfolding sweep_epochs
  sweep_epochs-runs cs_prefix m [] s r = runs_pure at rest tt s r
  sweep_epochs-runs cs_prefix m ((e, ks) ∷ epochs) s r = elim (Bool-cases (e == epoch m)) [
    | inl mine ↦ rw mine (sweep_epochs-runs cs_prefix m epochs s r)
    | inr other ↦ elim (Bool-cases (has_live (live_changesets m.log) ks)) [
      | inl live ↦ rw (other, live) (sweep_epochs-runs cs_prefix m epochs s r)
      | inr dead ↦
          rw (other, dead)
            (runs_bind at rest _ _ s tt tt (sweepable.delete_prefix (epoch_prefix cs_prefix e) s r)
              λ t rt at_t.
                runs_as at rest _ t tt (sweep_epochs-runs cs_prefix m epochs t rt)
                  λ j. ground (arith, at_t j))
    ]
  ]

  is_old-runs :
      (now : ℕ) (k : Text) (s : S) → rest s → Runs at rest (is_old env 0 order now k) s true (at s)
  unfolding is_old s3db.Base.ℕ_discrete pure
  is_old-runs now k s r = runs_pure at rest true s r

  sweep_old-runs :
      (now : ℕ) (m : Manifest) (keys : List Text) (s : S)
      → rest s
      → Runs at rest
          (sweep_old env 0 order now m keys)
          s
          tt
          (λ j. if contains keys j && not (j == m.snapshot.key) then none else at s j)
  unfolding sweep_old contains
  sweep_old-runs now m [] s r = runs_pure at rest tt s r
  sweep_old-runs now m (k ∷ keys) s r = elim (Bool-cases (k == m.snapshot.key)) [
    | inl mine ↦
        rw mine (runs_as at rest _ s tt (sweep_old-runs now m keys s r) λ j. ground (arith, mine))
    | inr other ↦ rw other (
        runs_bind at rest _ _ s true tt (is_old-runs now k s r) λ t rt at_t.
          runs_bind at rest _ _ t tt tt (sweepable.delete k t rt) λ v rv at_v.
            runs_as at rest _ v tt (sweep_old-runs now m keys v rv)
              λ j. ground (arith, at_t j, at_v j, other))
  ]

  swept-outside :
      (cs_prefix : Text) (m : Manifest) (epochs : List (Text × List Text)) (j : Text)
      → has_prefix cs_prefix j ≡ false
      → swept cs_prefix m epochs j ≡ false
  swept-outside cs_prefix m [] j h = refl
  swept-outside cs_prefix m ((e, ks) ∷ epochs) j h =
      ground (arith, swept-outside cs_prefix m epochs j h, apart cs_prefix (e ++ slash ∷ []) j h)

  -- what a sweep leaves of each key
  abbrev pub Spared : Text → Manifest → Contents → Contents → Type 0
  Spared prefix m before after =
      (j : Text)
      → has_prefix (changesets_prefix prefix) j ≡ false
      → after j ≡ (
          if has_prefix (snapshots_prefix prefix) j && not (j == m.snapshot.key)
          then none
          else before j)

  -- the epoch is swept, or has no group
  swept-group :
      (cs_prefix : Text) (m : Manifest) (e j : Text) (epochs : Assoc (List Text))
      → e ≢ epoch m
      → has_live (live_changesets m.log) (or_empty (Assoc.lookup e epochs)) ≡ false
      → has_prefix (epoch_prefix cs_prefix e) j ≡ true
      → Assoc.lookup e epochs ≢ none
      → swept cs_prefix m epochs j ≡ true
  unfolding Assoc.lookup
  swept-group cs_prefix m e j [] other dead under there = absurd (there refl)
  swept-group cs_prefix m e j ((f, ks) ∷ epochs) other dead under there =
      elim (Bool-cases (f == e)) [
        | inl same ↦ ground arith
        | inr apart ↦ ground (arith, swept-group cs_prefix m e j epochs other)
      ]

  group-dead :
      (cs_prefix : Text) (m : Manifest) (e : Text) (ks : List Text)
      → ((k : Text) → contains (live_changesets m.log) k ≡ true → epoch_of cs_prefix k ≢ some e)
      → has_live (live_changesets m.log) (or_empty (Assoc.lookup e (group_by_epoch ks cs_prefix)))
        ≡ false
  unfolding in_group contains Assoc.lookup
  group-dead cs_prefix m e ks gone = has_live-none _ _ λ k has.
      elim (Bool-cases (contains (live_changesets m.log) k)) [
        | inl live ↦
            let none_of = group_from-other cs_prefix e k (gone k live) ks [] refl in
            absurd (cc (has, none_of))
        | inr dead ↦ dead
      ]

  sweep_changesets-runs :
      (cs_prefix : Text) (m : Manifest) (s : S)
      → rest s
      → (c : Contents) × Runs at rest (sweep_changesets env 0 order cs_prefix m) s tt c
        × ((j : Text) → has_prefix cs_prefix j ≡ false → c j ≡ at s j)
        × ((e j : Text) → Garbage cs_prefix m e j → c j ≡ none)
  unfolding sweep_changesets in_group
  sweep_changesets-runs cs_prefix m s r =
      let (ks, listed, full) = sweepable.list cs_prefix s r in
      let groups = group_by_epoch ks cs_prefix in
      let epochs = order groups in
      (
        λ j. if swept cs_prefix m epochs j then none else at s j,
        runs_bind at rest _ _ s ks tt listed λ t rt at_t.
            runs_as at rest _ t tt (sweep_epochs-runs cs_prefix m epochs t rt)
              λ j. ground (arith, at_t j),
        λ j h. ground (arith, swept-outside cs_prefix m epochs j h),
        λ e j g. elim (Bool-cases (is_some (at s j))) [
          | inl there ↦
              let grouped =
                group_from_complete cs_prefix e j ks [] (ground (arith, full j, g.under)) g.mine in
              let dead = group-dead cs_prefix m e ks g.unlogged in
              let found : Assoc.lookup e epochs ≢ none =
                λ h. ground (arith, grouped, orders ks cs_prefix e, h) in
              let covered = epoch_of-prefix cs_prefix e j g.under g.mine in
              ground (
                arith,
                swept-group cs_prefix m e j epochs g.other (rw (orders ks cs_prefix e) dead) covered
                    found,
              )
          | inr gone ↦ ground (arith, missing (at s j) gone)
        ],
      )

  sweep_snapshots-runs :
      (now : ℕ) (snap_prefix : Text) (m : Manifest) (s : S)
      → rest s
      → Runs at rest
          (sweep_snapshots env 0 order now snap_prefix m)
          s
          tt
          (λ j. if has_prefix snap_prefix j && not (j == m.snapshot.key) then none else at s j)
  unfolding sweep_snapshots
  sweep_snapshots-runs now snap_prefix m s r =
      let (ks, listed, full) = sweepable.list snap_prefix s r in
      runs_bind at rest _ _ s ks tt listed λ t rt at_t.
        runs_as at rest _ t tt (sweep_old-runs now m ks t rt)
          λ j. ground (arith, at_t j, full j, missing (at s j))

  pub sweep-runs :
      (prefix : Text) (m : Manifest) (s : S)
      → rest s
      → (c : Contents) × Runs at rest (sweep env 0 order prefix m) s tt c
        × Spared prefix m (at s) c
        × ((e j : Text) → Garbage (changesets_prefix prefix) m e j → c j ≡ none)
  unfolding sweep current is_old s3db.Base.ℕ_discrete pure
  sweep-runs prefix m s r =
      let (c, swept, same, clean) = sweep_changesets-runs (changesets_prefix prefix) m s r in
      let here : Runs at rest current s s (at s) = record {
        end = s;
        rests = r;
        holds = λ j. refl;
        run = refl;
      } in
      let sure : Runs at rest (is_old env 0 order (env.now s) m.snapshot.key) s true (at s) =
        record { end = s; rests = r; holds = λ j. refl; run = refl } in
      (
        λ j.
            if has_prefix (snapshots_prefix prefix) j && not (j == m.snapshot.key)
            then none
            else c j,
        runs_then at rest _ _ s s tt here (
            runs_then at rest _ _ s true tt sure (
              runs_bind at rest _ _ s tt tt swept λ t rt at_t.
                runs_as at rest _ t tt
                  (sweep_snapshots-runs (env.now s) (snapshots_prefix prefix) m t rt)
                  λ j. ground (arith, at_t j))),
        λ j h. ground (arith, same j h),
        λ e j g. ground (arith, clean e j g),
      )
