-- ===== src/Env/Quiet/Shared.antt =====
-- blob_mem.go: the in-memory store rests when the other writers have had their turns.
use s3db.Base.{
  ℕ, ◌+◌, pos, ◌≤◌, ◌<◌, Text, ◌≡◌, refl, ap, Option, none, some, List, [], ◌∷◌, true, false, not,
  ◌&&◌, is_empty, length, arith,
}
use s3db.Errors.{Error, not_found}
use s3db.Result.{Result, ok, err}
use s3db.Result.Exec.{Exec, attempt}
use s3db.Blob.{PutCondition, meets, written}
use s3db.Blob.Mem
use s3db.Blob.Mem.{MemBlobStore}
use s3db.Blob.Mem.Swap.{contents, put_lem}
use s3db.Blob.Mem.Listing.{tag_of_contents}
use s3db.Blob.Shared.{World, Turn, take_turn, put_in, play, reading, shared_store, holds}
use s3db.Sync.Parts.{part}
use s3db.Env.{Env, Codec, IsAscii}
use s3db.Env.Quiet.{Runs, IsQuiet}

-- What a body's key answers.
get_lem :
    (k body tag : Text) (m : MemBlobStore)
    → contents m k ≡ some (body, tag)
    → Mem.get none k m ≡ ok (body, tag)
unfolding Mem.get contents
get_lem k body tag m h = ground arith

get_range_lem :
    (k body tag : Text) (start end : ℕ) (m : MemBlobStore)
    → start ≤ end
    → end < length body
    → contents m k ≡ some (body, tag)
    → Mem.get_range none k (pos start) (pos end) m ≡ ok (part body start end)
unfolding Mem.get_range contents
get_range_lem k body tag start end m le lt h = ground arith

stat_lem : (k : Text) (m : MemBlobStore) → contents m k ≡ none → Mem.stat none k m ≡ err not_found
unfolding Mem.stat contents
stat_lem k m h = ground arith

module _ (hash : Text → Text) where
  -- No other writer has a turn left.
  abbrev pub AtRest : World hash → Type 0
  AtRest w = w.turns ≡ []

  abbrev pub ticked : World hash → World hash
  ticked w = record w { clock = w.clock + 1 }

  play_rest :
      (turns : List Turn) (w : World hash) → turns ≡ [] → play hash turns w ≡ (none, ticked w)
  play_rest [] w r = refl
  play_rest (t ∷ turns) w r = absurd (cc r)

  pub take_turn_rest : (w : World hash) → AtRest w → take_turn hash w ≡ (none, ticked w)
  unfolding take_turn
  take_turn_rest w r = play_rest w.turns w r

  -- A call that only reads.
  pub reads :
      {A : Type 0} (f : Option Error → MemBlobStore → Result A) (w : World hash) (a : Result A)
      → AtRest w
      → f none w.mem ≡ a
      → reading hash f w ≡ (a, ticked w)
  reads f w a r e = rw (take_turn_rest w r) (λ i. (e i, ticked w))

  put_done :
      (k body : Text) (cond : PutCondition) (w : World hash)
      → (not (is_empty cond.if_match) && cond.if_none_match) ≡ false
      → meets cond (holds hash w k) ≡ true
      → ((put_in hash none k body cond w).0 ≡ ok (hash body))
        × ((j : Text)
            → holds hash (put_in hash none k body cond w).1 j
              ≡ written (holds hash w) k (body, hash body) j)
  unfolding put_in
  put_done k body cond w one met = (
    ground (arith, (put_lem hash w.clock k body cond w.mem k).0),
    λ j. ground (arith, (put_lem hash w.clock k body cond w.mem j).1),
  )

  put_rest :
      (k body : Text) (cond : PutCondition) (w : World hash)
      → AtRest w
      → AtRest (put_in hash none k body cond w).1
  unfolding put_in
  put_rest k body cond w r = r

  module _ (codec : Codec) (uuid : Exec (World hash) Text)
      (pause : ℕ → Exec (World hash) (Unit {0})) (now : World hash → ℕ)
      (mints : (w : World hash)
        → AtRest w
        → (u : Text) × IsAscii u × Runs (holds hash) AtRest uuid w u (holds hash w)) where
    abbrev pub shared_env : Env (World hash)
    shared_env = record {
      store = shared_store hash;
      codec = codec;
      uuid = uuid;
      pause = pause;
      local_file = λ op w. ok tt;
      now = now;
    }

    pub shared_env-IsQuiet : IsQuiet shared_env hash (holds hash) AtRest
    unfolding attempt
    shared_env-IsQuiet = record {
      get = λ k body tag w r h. record {
        end = ticked w;
        rests = r;
        holds = λ j. refl;
        run = reads (λ ctx. Mem.get ctx k) w _ r (get_lem k body tag w.mem h);
      };
      get_range = λ k body tag start end w r le lt h. record {
        end = ticked w;
        rests = r;
        holds = λ j. refl;
        run =
            reads (λ ctx. Mem.get_range ctx k (pos start) (pos end)) w _ r
              (get_range_lem k body tag start end w.mem le lt h);
      };
      put = λ k body cond w r one met. record {
        end = (put_in hash none k body cond (ticked w)).1;
        rests = put_rest k body cond (ticked w) r;
        holds = (put_done k body cond (ticked w) one met).1;
        run = rw (take_turn_rest w r) (λ i. (
          (put_done k body cond (ticked w) one met).0 i,
          (put_in hash none k body cond (ticked w)).1,
        ));
      };
      stat_missing = λ k w r h. record {
        end = ticked w;
        rests = r;
        holds = λ j. refl;
        run = ap (λ q. (ok q.0, q.1)) (reads (λ ctx. Mem.stat ctx k) w _ r (stat_lem k w.mem h));
      };
      tag_hash = λ w k body tag r h. tag_of_contents w.well_formed k body tag h;
      local_file = λ op w r. refl;
      uuid = mints;
    }
