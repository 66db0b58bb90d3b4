-- ===== src/Blob/Shared.antt =====
-- The in-memory store as one of several clients sees it: before each of its calls the others may
-- have written, and its context may have been cancelled.
use s3db.Base.{ℕ, ◌+◌, Text, ◌≡◌, ap, subst, Option, none, some, List, [], ◌∷◌}
use s3db.Errors.{Error}
use s3db.Result.{Result, ok}
use s3db.Result.Exec.{Exec}
use s3db.Blob.{BlobStore, PutCondition, no_condition, Contents, IsLawful, written}
use s3db.Blob.Mem
use s3db.Blob.Mem.{MemBlobStore, new_mem_blob_store}
use s3db.Blob.Mem.Swap.{contents, get_ok, put_ok}
use s3db.Blob.Mem.Listing.{IsWellFormed, writes-IsWellFormed, tag_of_contents}

-- A write of another client.
pub data Write : Type 0 where
  put : Text → Text → PutCondition → Write
  delete delete_prefix : Text → Write

-- What happens before a call.
pub record Turn : Type 0 where
  pub others : List Write
  pub ctx : Option Error

module _ (hash : Text → Text) where
  -- After the last turn nobody else writes.
  pub record World : Type 0 where
    pub mem : MemBlobStore
    pub well_formed : IsWellFormed hash mem
    pub turns : List Turn
    pub clock : ℕ

  -- the store with its proof of good form
  abbrev Good : Type 0
  Good = (m : MemBlobStore) × IsWellFormed hash m

  unfoldable pub act : ℕ → Write → Good → Good
  act now (put k b cond) (m, w) =
      ((Mem.put hash now none k (ok b) cond m).1, (writes-IsWellFormed w k none now (ok b) cond).0)
  act now (delete k) (m, w) =
      ((Mem.delete none k m).1, (writes-IsWellFormed w k none now (ok []) no_condition).1)
  act now (delete_prefix k) (m, w) =
      ((Mem.delete_prefix none k m).1, (writes-IsWellFormed w k none now (ok []) no_condition).2)

  unfoldable pub act_all : ℕ → List Write → Good → Good
  unfolding act
  act_all now [] g = g
  act_all now (w ∷ ws) g = act_all now ws (act now w g)

  abbrev pub play : List Turn → World → Option Error × World
  play [] w = (none, record w { clock = w.clock + 1 })
  play (t ∷ rest) w =
      let (m, good) = act_all w.clock t.others (w.mem, w.well_formed) in
      (t.ctx, record { mem = m; well_formed = good; turns = rest; clock = w.clock + 1 })

  -- The others' turn, and the state of the client's context after it.
  unfoldable pub take_turn : World → Option Error × World
  unfolding act_all
  take_turn w = play w.turns w

  abbrev pub reading : {A : Type 0} → (Option Error → MemBlobStore → Result A) → Exec World A
  reading f w = let (ctx, w') = take_turn w in (f ctx w'.mem, w')

  -- The client's own writes, after the others' turn.
  unfoldable pub put_in : Option Error → Text → Text → PutCondition → World → Result Text × World
  put_in ctx k body cond w =
      let (r, m) = Mem.put hash w.clock ctx k (ok body) cond w.mem in
      (
        r,
        record w {
          mem = m;
          well_formed = (writes-IsWellFormed w.well_formed k ctx w.clock (ok body) cond).0;
        },
      )

  unfoldable pub delete_in : Option Error → Text → World → Result (Unit {0}) × World
  delete_in ctx k w =
      let (r, m) = Mem.delete ctx k w.mem in
      (
        r,
        record w {
          mem = m;
          well_formed = (writes-IsWellFormed w.well_formed k ctx w.clock (ok []) no_condition).1;
        },
      )

  unfoldable pub delete_prefix_in : Option Error → Text → World → Result (Unit {0}) × World
  delete_prefix_in ctx k w =
      let (r, m) = Mem.delete_prefix ctx k w.mem in
      (
        r,
        record w {
          mem = m;
          well_formed = (writes-IsWellFormed w.well_formed k ctx w.clock (ok []) no_condition).2;
        },
      )

  -- What may become of a world: nothing, a turn of the others, a write of the client.
  pub data Later (start : World) : World → Type 0 where
    stay : Later start start
    turn : {w : World} → Later start w → Later start (take_turn w).1
    put :
        {w : World} (ctx : Option Error) (k body : Text) (cond : PutCondition)
        → Later start w
        → Later start (put_in ctx k body cond w).1
    delete :
        {w : World} (ctx : Option Error) (k : Text)
        → Later start w
        → Later start (delete_in ctx k w).1
    delete_prefix :
        {w : World} (ctx : Option Error) (k : Text)
        → Later start w
        → Later start (delete_prefix_in ctx k w).1

  Later_trans : {s t u : World} → Later s t → Later t u → Later s u
  Later_trans a stay = a
  Later_trans a (turn b) = turn (Later_trans a b)
  Later_trans a (put ctx k body cond b) = put ctx k body cond (Later_trans a b)
  Later_trans a (delete ctx k b) = delete ctx k (Later_trans a b)
  Later_trans a (delete_prefix ctx k b) = delete_prefix ctx k (Later_trans a b)

  -- `BlobStore` by the operations of `MemBlobStore`
  abbrev pub shared_store : BlobStore World
  shared_store = record {
    get = λ k. reading (λ ctx. Mem.get ctx k);
    get_range = λ k start end. reading (λ ctx. Mem.get_range ctx k start end);
    stat = λ k. reading (λ ctx. Mem.stat ctx k);
    put = λ k body cond w. let (ctx, w') = take_turn w in put_in ctx k body cond w';
    list = λ prefix. reading (λ ctx. Mem.list ctx prefix);
    delete = λ k w. let (ctx, w') = take_turn w in delete_in ctx k w';
    delete_prefix = λ k w. let (ctx, w') = take_turn w in delete_prefix_in ctx k w';
  }

  abbrev pub holds : World → Contents
  holds w = contents w.mem

  -- The in-memory store, shared with writers that act between its calls, is a lawful store.
  pub shared_store-IsLawful : IsLawful shared_store hash holds Later
  unfolding put_in
  shared_store-IsLawful = record {
    stay = λ s. stay;
    go_on = λ s t u. Later_trans;
    get_ok = λ k s body tag s' h.
        subst (λ (w : World). contents w.mem k ≡ some (body, tag)) (ap (λ q. q.1) h)
          (get_ok k (take_turn s).1.mem (take_turn s).0 body tag (ap (λ q. q.0) h));
    tag_hash = λ s k body tag h. tag_of_contents s.well_formed k body tag h;
    put_ok = λ k body cond s tag s' h.
        let w = (take_turn s).1 in
        let ctx = (take_turn s).0 in
        let done = Mem.put hash w.clock ctx k (ok body) cond w.mem in
        let now = put_ok hash w.clock k body cond w.mem ctx tag done.1 in
        (
          w,
          turn stay,
          (now k (λ i. ((h i).0, done.1))).0,
          λ j.
              subst (λ (v : World). contents v.mem j ≡ written (contents w.mem) k (body, tag) j)
                (ap (λ q. q.1) h) (now j (λ i. ((h i).0, done.1))).1,
        );
  }
