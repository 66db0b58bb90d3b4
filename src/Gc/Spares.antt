-- ===== src/Gc/Spares.antt =====
-- What `GC` never deletes.
use s3db.Base.{
  ℕ, Text, text_eq, slash, ◌≡◌, refl, ◌≢◌, sym, subst, ◌⊎◌, true, false, ◌==◌, none, some, List, [],
  ◌∷◌, ◌++◌, arith, has_prefix,
}
use s3db.Base.Assoc
use s3db.Base.Assoc.{Assoc, contains}
use s3db.Result.{Result, ok}
use s3db.Result.Exec.{current, ◌>>=◌, next}
use s3db.Result.Keeps.{Keeps, Keeps-cases, Keeps-bind, Keeps-bind_ran, keeps_rules}
use s3db.Env.{Env}
use s3db.Sqlite.{Sqlite}
use s3db.Client.{Client, CommitConfig, outside}
use s3db.Sync.{refresh_manifest}
use s3db.Manifest.{Manifest, epoch}
use s3db.Blob.{BlobStore}
use s3db.Gc.{
  live_changesets, epoch_of, group_by_epoch, has_live, changesets_prefix, snapshots_prefix,
  epoch_prefix, is_old, sweep_epochs, sweep_changesets, sweep_old, sweep_snapshots, sweep, gc,
}
use s3db.Gc.Groups.{
  in_group, group_from_complete, group_from-IsEpoch, IsEpoch, epoch_of-under, has_prefix-append,
}

-- `Q` holds while the object at `k` is there, and only a deletion of `k`, by its key or a prefix
-- of it, ends that. A list has the keys with its prefix, `k` among them.
pub record Guards {S : Type 0} (store : BlobStore S) (k : Text) (Q : S → Type 0) : Type 0 where
  pub stat : (j : Text) → Keeps Q (store.stat j)
  pub list : (p : Text) → Keeps Q (store.list p)
  pub delete : (j : Text) → j ≢ k → Keeps Q (store.delete j)
  pub delete_prefix : (p : Text) → has_prefix p k ≡ false → Keeps Q (store.delete_prefix p)
  pub listed :
      (p : Text) (s : S) (ks : List Text) (s' : S)
      → Q s
      → store.list p s ≡ (ok ks, s')
      → has_prefix p k ≡ true
      → contains ks k ≡ true
  pub only_prefix :
      (p : Text) (s : S) (ks : List Text) (s' : S) (j : Text)
      → store.list p s ≡ (ok ks, s')
      → contains ks j ≡ true
      → has_prefix p j ≡ true

-- The keys that `GC` must not delete under the manifest `m`: outside `snapshots/` or the current
-- snapshot, and outside `changesets/`, in the current epoch, or in the log.
pub record Needed (prefix : Text) (m : Manifest) (k : Text) : Type 0 where
  pub snapshot : (has_prefix (snapshots_prefix prefix) k ≡ false) ⊎ (k ≡ m.snapshot.key)
  pub changeset :
      (has_prefix (changesets_prefix prefix) k ≡ false)
      ⊎ (epoch_of (changesets_prefix prefix) k ≡ some (epoch m))
      ⊎ (contains (live_changesets m.log) k ≡ true)

has_live-false :
    (live ks : List Text) (k : Text)
    → has_live live ks ≡ false
    → contains ks k ≡ true
    → contains live k ≡ false
unfolding has_live contains
has_live-false live [] k h g = cc
has_live-false live (j ∷ ks) k h g = ground (arith, has_live-false live ks k)

-- Each group is one of `groups`.
abbrev pub AreGroups : Assoc (List Text) → List (Text × List Text) → Type 0
AreGroups groups [] = Unit
AreGroups groups ((e, ks) ∷ seen) = (Assoc.lookup e groups ≡ some ks) × AreGroups groups seen

AreGroups-cons :
    (groups seen : Assoc (List Text)) (e : Text) (ks : List Text)
    → Assoc.lookup e seen ≡ none
    → AreGroups groups seen
    → AreGroups ((e, ks) ∷ groups) seen
unfolding Assoc.lookup
AreGroups-cons groups [] e ks new h = tt
AreGroups-cons groups ((f, js) ∷ seen) e ks new h =
    (ground (arith, h.0), AreGroups-cons groups seen e ks (ground arith) h.1)

-- All groups in their own order.
pub AreGroups-NodupKeys :
    (groups : Assoc (List Text)) → Assoc.NodupKeys groups → AreGroups groups groups
unfolding Assoc.lookup
AreGroups-NodupKeys [] h = tt
AreGroups-NodupKeys ((e, ks) ∷ groups) h =
    (ground arith, AreGroups-cons groups groups e ks h.0 (AreGroups-NodupKeys groups h.1))

module _ {prefix : Text} {m : Manifest} {k : Text} (needed : Needed prefix m k) where
  abbrev cs_prefix : Text
  cs_prefix = changesets_prefix prefix

  -- a group that is swept does not cover `k`
  swept-spares :
      (keys ks : List Text) (e : Text)
      → (has_prefix cs_prefix k ≡ true → contains keys k ≡ true)
      → Assoc.lookup e (group_by_epoch keys cs_prefix) ≡ some ks
      → e ≢ epoch m
      → has_live (live_changesets m.log) ks ≡ false
      → has_prefix (epoch_prefix cs_prefix e) k ≡ true
      → ⊥
  unfolding in_group Assoc.lookup
  swept-spares keys ks e listed group other dead under =
      let is_epoch : IsEpoch e =
        group_from-IsEpoch cs_prefix e keys [] (λ f h. absurd (h refl)) (λ h. cc) in
      let mine : epoch_of cs_prefix k ≡ some e = epoch_of-under cs_prefix e k is_epoch under in
      let below = (has_prefix-append cs_prefix (e ++ slash ∷ []) k under).0 in
      let there = group_from_complete cs_prefix e k keys [] (listed below) mine in
      ground (arith, has_live-false (live_changesets m.log) ks k dead, needed.changeset)

module _ {S : Type 0} (env : Env S) (grace : ℕ) (order : Assoc (List Text) → Assoc (List Text))
    (orders : (keys : List Text) (cs_prefix : Text)
      → AreGroups (group_by_epoch keys cs_prefix) (order (group_by_epoch keys cs_prefix)))
    (prefix : Text) (m : Manifest) (k : Text) (Q : S → Type 0) (guards : Guards env.store k Q)
    (needed : Needed prefix m k) where
  is_old-Keeps : (now : ℕ) (key : Text) → Keeps Q (is_old env grace order now key)
  unfolding is_old
  is_old-Keeps now key = search (keeps_rules, guards.stat)

  sweep_epochs-Keeps :
      (keys : List Text) (seen : List (Text × List Text))
      → (has_prefix (changesets_prefix prefix) k ≡ true → contains keys k ≡ true)
      → AreGroups (group_by_epoch keys (changesets_prefix prefix)) seen
      → Keeps Q (sweep_epochs env grace order (changesets_prefix prefix) m seen)
  unfolding sweep_epochs
  sweep_epochs-Keeps keys [] listed groups = search keeps_rules
  sweep_epochs-Keeps keys ((e, ks) ∷ seen) listed (group, groups) =
      let rest = sweep_epochs-Keeps keys seen listed groups in
      Keeps-cases (e == epoch m) (λ _. rest)
        λ other.
          Keeps-cases (has_live (live_changesets m.log) ks) (λ _. rest)
            λ dead.
              let spared : has_prefix (epoch_prefix (changesets_prefix prefix) e) k ≡ false =
                ground
                  (arith, swept-spares needed keys ks e listed group (λ same. ground arith) dead) in
              Keeps-bind _ (λ _. rest) _ (guards.delete_prefix _ spared)

  sweep_changesets-Keeps : Keeps Q (sweep_changesets env grace order (changesets_prefix prefix) m)
  unfolding sweep_changesets
  sweep_changesets-Keeps =
      Keeps-bind_ran _ _ (guards.list _)
        λ s t keys h ran. sweep_epochs-Keeps keys _ (guards.listed _ s keys t h ran) (orders keys _)

  sweep_old-Keeps :
      (now : ℕ) (keys : List Text)
      → ((j : Text) → contains keys j ≡ true → has_prefix (snapshots_prefix prefix) j ≡ true)
      → Keeps Q (sweep_old env grace order now m keys)
  unfolding sweep_old contains
  sweep_old-Keeps now [] only = search keeps_rules
  sweep_old-Keeps now (j ∷ keys) only =
      let rest = sweep_old-Keeps now keys (λ i h. only i (ground arith)) in
      Keeps-cases (j == m.snapshot.key) (λ _. rest)
        λ other.
          Keeps-bind _
            (λ old.
              Keeps-cases old
                (λ _.
                  Keeps-bind _ (λ _. rest) _
                    (guards.delete j λ same. ground (arith, only j, needed.snapshot)))
                (λ _. rest))
            _ (is_old-Keeps now j)

  sweep_snapshots-Keeps :
      (now : ℕ) → Keeps Q (sweep_snapshots env grace order now (snapshots_prefix prefix) m)
  unfolding sweep_snapshots
  sweep_snapshots-Keeps now =
      Keeps-bind_ran _ _ (guards.list _)
        λ s t keys h ran. sweep_old-Keeps now keys (λ j. guards.only_prefix _ s keys t j ran)

  pub sweep-Keeps : Keeps Q (sweep env grace order prefix m)
  unfolding sweep
  sweep-Keeps = search (keeps_rules, is_old-Keeps, sweep_changesets-Keeps, sweep_snapshots-Keeps)

-- For every interleaving: if `GC` finds the manifest `m` and the object at `k` is there, then no
-- deletion by `GC` touches `k`, whether it succeeds or fails, where `k` is outside `snapshots/`
-- or is the current snapshot, and is outside `changesets/`, in the current epoch, or in the log.
-- What deletions, lists and stats of the store do to the object is `Guards`; the order in which
-- the epochs are visited is any that visits only them.
pub gc-spares :
    {S : Type 0} (env : Env S) (grace : ℕ) (order : Assoc (List Text) → Assoc (List Text))
    (lib : Sqlite) (cfg : CommitConfig) (k : Text) (Q : S → Type 0)
    → ((keys : List Text) (cs_prefix : Text)
        → AreGroups (group_by_epoch keys cs_prefix) (order (group_by_epoch keys cs_prefix)))
    → Guards env.store k Q
    → (c found : Client S lib.Conn) → refresh_manifest env lib cfg c ≡ (ok tt, found)
    → Q found.out
    → Needed cfg.prefix found.st.manifest k
    → Q (gc env grace order lib cfg c).1.out
unfolding gc current ◌>>=◌ outside
gc-spares env grace order lib cfg k Q orders guards c found refreshed held needed =
    subst
      (λ (r : Result (Unit {0}) × Client _ lib.Conn).
        Q
          (next {S = Client _ lib.Conn} r
            (λ _ d. outside (sweep env grace order cfg.prefix d.st.manifest) d)).1.out)
      (sym refreshed)
      ((sweep-Keeps env grace order orders cfg.prefix found.st.manifest k Q guards needed).at
        found.out held)
