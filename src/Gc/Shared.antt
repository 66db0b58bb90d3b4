-- ===== src/Gc/Shared.antt =====
-- `GC` on the in-memory store: listing and deleting when the other writers have had their turns.
use s3db.Base.{Text, ◌≡◌, refl, none, [], text_eq}
use s3db.Blob.Mem
use s3db.Blob.Mem.Listing.{IsWellFormed, list_lem, contents-delete}
use s3db.Blob.Shared.{delete_in, delete_prefix_in, shared_store, holds}
use s3db.Env.Quiet.Shared.{AtRest, ticked, take_turn_rest, reads}
use s3db.Gc.Sweeping.{IsSweepable}

module _ (hash : Text → Text) where
  pub shared_store-IsSweepable : IsSweepable (shared_store hash) (holds hash) (AtRest hash)
  unfolding delete_in delete_prefix_in
  shared_store-IsSweepable = record {
    list = λ prefix w r.
        let nodup = IsWellFormed.nodup w.well_formed in
        let (ks, listed, ascending, has) = list_lem prefix [] w.mem nodup in
        (
          ks,
          record {
            end = ticked hash w;
            rests = r;
            holds = λ j. refl;
            run = reads hash (λ ctx. Mem.list ctx prefix) w _ r listed;
          },
          λ k.
              let (ks', listed', ascending', has') = list_lem prefix k w.mem nodup in
              let same : ks ≡ ks' = cc (listed, listed') in rw same has',
        );
    delete = λ k w r. record {
      end = (delete_in hash none k (ticked hash w)).1;
      rests = r;
      holds = λ j. (contents-delete k [] j w.mem).1;
      run =
          rw (take_turn_rest hash w r)
            (λ i. ((contents-delete k [] k w.mem).0 i, (delete_in hash none k (ticked hash w)).1));
    };
    delete_prefix = λ p w r. record {
      end = (delete_prefix_in hash none p (ticked hash w)).1;
      rests = r;
      holds = λ j. (contents-delete [] p j w.mem).3;
      run = rw (take_turn_rest hash w r) (λ i.
          ((contents-delete [] p [] w.mem).2 i, (delete_prefix_in hash none p (ticked hash w)).1));
    };
  }
