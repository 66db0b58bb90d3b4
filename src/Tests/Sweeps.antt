-- ===== src/Tests/Sweeps.antt =====
-- Garbage collection in a store that is at rest.
use s3db.Base.{
  Text, codes, text_eq, ◌≡◌, refl, ap, inl, inr, true, Option, none, some, List, [], ◌∷◌, arith,
  has_prefix, false, not, ◌&&◌, if◌then◌else◌, ◌==◌,
}
use s3db.Base.Assoc
use s3db.Base.Assoc.{Assoc, contains}
use s3db.Result.{Result, ok}
use s3db.Errors.{Error}
use s3db.Blob.Mem.{MemBlobStore, list}
use s3db.Blob.Mem.Swap.{contents}
use s3db.Blob.Mem.Listing.{contents-delete, list_lem}
use s3db.Blob.Shared.{World, shared_store, take_turn, delete_in, delete_prefix_in}
use s3db.Gc.{group_by_epoch, gc, epoch_of, changesets_prefix, snapshots_prefix}
use s3db.Gc.Collects.{gc-collects}
use s3db.Gc.Sweeping.{Garbage}
use s3db.Gc.Shared.{shared_store-IsSweepable}
use s3db.Env.Quiet.Shared.{AtRest}
use s3db.Gc.Keys.{epoch_of-changeset_key}
use s3db.Gc.Spares.{Guards, AreGroups, Needed, AreGroups-NodupKeys, gc-spares}
use s3db.Gc.Groups.{group_from-NodupKeys, IsEpoch}
use s3db.Client.{Client}
use s3db.Sync.{refresh_manifest}
use s3db.Commit.{changeset_key}
use s3db.Blob.Shared.{act_all, holds}
use s3db.Tests.Codec.{hash}
use s3db.Tests.Outside.{Rows, sqlite, env}
use s3db.Tests.Worlds.{cfg, client, world, write, snap}
use s3db.Tests.Machinery.{sweeping}

-- Nobody else writes, and the object is there.
abbrev Resting : Text → Text × Text → World hash → Type 0
Resting k o w = (w.turns ≡ []) × (contents w.mem k ≡ some o)

listed-has :
    (k p : Text) (o : Text × Text) (ctx : Option Error) (m : MemBlobStore) (ks : List Text)
    → Assoc.NodupKeys m.objects
    → contents m k ≡ some o
    → list ctx p m ≡ ok ks
    → has_prefix p k ≡ true
    → contains ks k ≡ true
unfolding list
listed-has k p o (some e) m ks nodup held h under = cc
listed-has k p o none m ks nodup held h under =
    let (js, listed, _, has) = list_lem p k m nodup in ground (arith, has)

listed-only :
    (p j : Text) (ctx : Option Error) (m : MemBlobStore) (ks : List Text)
    → Assoc.NodupKeys m.objects
    → list ctx p m ≡ ok ks
    → contains ks j ≡ true
    → has_prefix p j ≡ true
unfolding list
listed-only p j (some e) m ks nodup h has = cc
listed-only p j none m ks nodup h has =
    let (js, listed, _, is) = list_lem p j m nodup in ground (arith, is)

shared_store-Guards : (k : Text) (o : Text × Text) → Guards (shared_store hash) k (Resting k o)
unfolding take_turn delete_in delete_prefix_in
shared_store-Guards k o = record {
  stat = λ j. record { at = λ w h. ground (arith, h) };
  list = λ p. record { at = λ w h. ground (arith, h) };
  delete = λ j ne. record { at = λ w h. ground (arith, h, contents-delete j j k w.mem) };
  delete_prefix = λ p ne. record { at = λ w h. ground (arith, h, contents-delete p p k w.mem) };
  listed = λ p w ks w' h ran under.
      listed-has k p o (take_turn hash w).0 (take_turn hash w).1.mem ks
        (take_turn hash w).1.well_formed.nodup (ground (arith, h)) (ap (λ r. r.0) ran) under;
  only_prefix = λ p w ks w' j ran has.
      listed-only p j (take_turn hash w).0 (take_turn hash w).1.mem ks
        (take_turn hash w).1.well_formed.nodup (ap (λ r. r.0) ran) has;
}

-- The groups in the order in which they are stored.
in_order-AreGroups :
    (keys : List Text) (cs_prefix : Text)
    → AreGroups (group_by_epoch keys cs_prefix) (group_by_epoch keys cs_prefix)
in_order-AreGroups keys cs_prefix =
    AreGroups-NodupKeys _ (group_from-NodupKeys cs_prefix keys [] tt)

-- The client of `m1`, with a changeset of the current epoch, one of an old epoch, and an old
-- snapshot.
abbrev key_now : Text
key_now = changeset_key (codes "db/") (codes "a") (codes "1")

abbrev key_old : Text
key_old = changeset_key (codes "db/") (codes "z") (codes "1")

abbrev snap_old : Text
snap_old = codes "db/snapshots/z.sqlite"

abbrev littered : Client (World hash) Rows
littered = record (client []) {
  out =
      let (m, good) =
        act_all hash 0
          (write snap_old (1 ∷ []) ∷ write key_old (2 ∷ []) ∷ write key_now (3 ∷ []) ∷ [])
          ((world []).mem, (world []).well_formed) in
      record (world []) { mem = m; well_formed = good };
}

abbrev in_order : Assoc (List Text) → Assoc (List Text)
in_order groups = groups

abbrev cleaned : Result (Unit {0}) × Client (World hash) Rows
cleaned = gc env 0 in_order sqlite cfg littered

-- The old changeset and the old snapshot are gone.
cleaned_keys :
    list none (codes "db/") cleaned.1.out.mem ≡ ok (key_now ∷ codes "db/manifest.json" ∷ snap ∷ [])
unfolding sweeping
cleaned_keys = refl

abbrev found : Result (Unit {0}) × Client (World hash) Rows
found = refresh_manifest env sqlite cfg littered

refreshed : found ≡ (ok tt, found.1)
unfolding sweeping
refreshed = refl

found-AtRest : AtRest hash found.1.out
unfolding sweeping
found-AtRest = refl

now-Resting : Resting key_now (3 ∷ [], hash (3 ∷ [])) found.1.out
unfolding sweeping contents
now-Resting = (refl, refl)

now-Needed : Needed (codes "db/") found.1.st.manifest key_now
unfolding sweeping
now-Needed = record { snapshot = inl refl; changeset = inr (inl refl) }

gc-spares_example : Resting key_now (3 ∷ [], hash (3 ∷ [])) cleaned.1.out
gc-spares_example =
    gc-spares env 0 in_order sqlite cfg key_now (Resting key_now (3 ∷ [], hash (3 ∷ [])))
      in_order-AreGroups (shared_store-Guards key_now (3 ∷ [], hash (3 ∷ []))) littered found.1
      refreshed now-Resting now-Needed

old-Garbage : Garbage (changesets_prefix (codes "db/")) found.1.st.manifest (codes "z") key_old
unfolding sweeping
old-Garbage = record {
  under = refl;
  mine = refl;
  other = λ h. let e : true ≡ false = ap (λ t. t == codes "z") h in absurd (cc e);
  unlogged = λ k live. absurd (ground (arith, live));
}

gc-collects_example :
    (end : World hash) × (cleaned ≡ (ok tt, record (found.1) { out = end }))
    × (holds hash end snap_old ≡ (
        if has_prefix (snapshots_prefix (codes "db/")) snap_old
          && not (snap_old == found.1.st.manifest.snapshot.key)
        then none
        else holds hash found.1.out snap_old))
    × (holds hash end key_old ≡ none)
unfolding sweeping
gc-collects_example =
    gc-collects env in_order sqlite (λ keys cs_prefix e. refl) cfg (holds hash) (AtRest hash)
      (shared_store-IsSweepable hash) littered found.1 snap_old (codes "z") key_old refreshed
      found-AtRest refl old-Garbage

a-IsEpoch : IsEpoch (codes "a")
unfolding sweeping
a-IsEpoch = (λ h. cc, refl)

epoch_of-changeset_key_example :
    epoch_of (changesets_prefix (codes "db/")) key_now ≡ some (codes "a")
epoch_of-changeset_key_example =
    epoch_of-changeset_key (codes "db/") (codes "a") (codes "1") a-IsEpoch
