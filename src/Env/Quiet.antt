-- ===== src/Env/Quiet.antt =====
-- A store that nobody else writes to and whose calls succeed: what runs then return and leave.
pub mod Manifests
pub mod Shared
use s3db.Base.{
  ℕ, ℤ, pos, ◌≡◌, refl, sym, ◌∙◌, ap, Text, Option, some, none, Bool, true, false, ◌&&◌, not,
  is_empty, length, List, [], ◌∷◌, ◌≤◌, ◌<◌, arith,
}
use s3db.Errors.{not_found}
use s3db.Result.{Result, ok, err}
use s3db.Result.Exec.{Exec, pure, lift, attempt, ◌>>=◌}
use s3db.Blob.{PutCondition, Contents, meets, written}
use s3db.Env.{Env, IsAscii, FileCall, file_calls, first_failure}
use s3db.Sync.Parts.{part}

module _ {S : Type 0} (at : S → Contents) (rest : S → Type 0) where
  -- The run from `s` returns `a`; the store then rests again and holds `after`.
  pub record Runs {A : Type 0} (m : Exec S A) (s : S) (a : A) (after : Contents) : Type 0 where
    pub end : S
    pub rests : rest end
    pub holds : (j : Text) → at end j ≡ after j
    pub run : m s ≡ (ok a, end)

  module _ {A : Type 0} where
    pub runs_pure : (a : A) (s : S) → rest s → Runs (pure a) s a (at s)
    unfolding ◌>>=◌
    runs_pure a s r = record { end = s; rests = r; holds = λ j. refl; run = refl }

    pub runs_lift : (r : Result A) (a : A) (s : S) → rest s → r ≡ ok a → Runs (lift r) s a (at s)
    unfolding ◌>>=◌
    runs_lift r a s q e = record { end = s; rests = q; holds = λ j. refl; run = rw e }

    pub runs_attempt :
        (m : Exec S A) (s : S) (a : A) {c : Contents} → Runs m s a c → Runs (attempt m) s (ok a) c
    unfolding ◌>>=◌
    runs_attempt m s a r = record {
      end = r.end;
      rests = r.rests;
      holds = r.holds;
      run = λ i. (ok (r.run i).0, (r.run i).1);
    }

    -- the same contents, described otherwise
    pub runs_as :
        (m : Exec S A) (s : S) (a : A) {c d : Contents}
        → Runs m s a c
        → ((j : Text) → c j ≡ d j)
        → Runs m s a d
    runs_as m s a r same = record {
      end = r.end;
      rests = r.rests;
      holds = λ j. r.holds j ∙ same j;
      run = r.run;
    }

  pub runs_bind :
      {A B : Type 0} (m : Exec S A) (f : A → Exec S B) (s : S) (a : A) (b : B) {c d : Contents}
      → Runs m s a c
      → ((t : S) → rest t → ((j : Text) → at t j ≡ c j) → Runs (f a) t b d)
      → Runs (m >>= f) s b d
  unfolding ◌>>=◌
  runs_bind m f s a b first next =
      let then = next first.end first.rests first.holds in
      record {
        end = then.end;
        rests = then.rests;
        holds = then.holds;
        run = rw (first.run) then.run;
      }

  -- the same, from where the first step ended
  pub runs_then :
      {A B : Type 0} (m : Exec S A) (f : A → Exec S B) (s : S) (a : A) (b : B) {c d : Contents}
      (first : Runs m s a c)
      → Runs (f a) first.end b d
      → Runs (m >>= f) s b d
  unfolding ◌>>=◌
  runs_then m f s a b first then = record {
    end = then.end;
    rests = then.rests;
    holds = then.holds;
    run = rw (first.run) (then.run);
  }

  -- a first step that only reads
  pub runs_read :
      {A B : Type 0} (m : Exec S A) (f : A → Exec S B) (s : S) (a : A) (b : B)
      → Runs m s a (at s)
      → ((t : S) → rest t → ((j : Text) → at t j ≡ at s j) → Runs (f a) t b (at t))
      → Runs (m >>= f) s b (at s)
  runs_read m f s a b first next =
      runs_bind m f s a b first λ t r e. runs_as (f a) t b (next t r e) e

  -- a first step that does nothing outside
  pub runs_step :
      {A B : Type 0} (r : Result A) (f : A → Exec S B) (s : S) (a : A) (b : B) {d : Contents}
      → r ≡ ok a
      → Runs (f a) s b d
      → Runs (lift r >>= f) s b d
  unfolding ◌>>=◌
  runs_step r f s a b e then = record {
    end = then.end;
    rests = then.rests;
    holds = then.holds;
    run = rw e (then.run);
  }

-- Nobody else writes, no call fails for a reason of its own, and tags are hashes.
pub record IsQuiet {S : Type 0} (env : Env S) (hash : Text → Text) (at : S → Contents)
    (rest : S → Type 0) : Type 0 where
  pub get :
      (k body tag : Text) (s : S)
      → rest s
      → at s k ≡ some (body, tag)
      → Runs at rest (env.store.get k) s (body, tag) (at s)
  pub get_range :
      (k body tag : Text) (start end : ℕ) (s : S)
      → rest s
      → start ≤ end
      → end < length body
      → at s k ≡ some (body, tag)
      → Runs at rest (env.store.get_range k (pos start) (pos end)) s (part body start end) (at s)
  -- a put whose condition is met
  pub put :
      (k body : Text) (cond : PutCondition) (s : S)
      → rest s
      → (not (is_empty cond.if_match) && cond.if_none_match) ≡ false
      → meets cond (at s k) ≡ true
      → Runs at rest (env.store.put k body cond) s (hash body) (written (at s) k (body, hash body))
  -- what the key of no object answers
  pub stat_missing :
      (k : Text) (s : S)
      → rest s
      → at s k ≡ none
      → Runs at rest (attempt (env.store.stat k)) s (err not_found) (at s)
  pub tag_hash : (s : S) (k body tag : Text) → rest s → at s k ≡ some (body, tag) → tag ≡ hash body
  pub local_file : (op : FileCall) (s : S) → rest s → env.local_file op s ≡ ok tt
  pub uuid : (s : S) → rest s → (u : Text) × IsAscii u × Runs at rest env.uuid s u (at s)

module _ {S : Type 0} (env : Env S) (hash : Text → Text) (at : S → Contents) (rest : S → Type 0)
    (quiet : IsQuiet env hash at rest) where
  first_failure-none : (ops : List FileCall) (s : S) → rest s → first_failure env ops s ≡ ok tt
  first_failure-none [] s r = refl
  first_failure-none (op ∷ ops) s r =
      rw (quiet.local_file op s r, first_failure) (first_failure-none ops s r)

  pub file_calls-runs :
      (ops : List FileCall) (s : S) → rest s → Runs at rest (file_calls env ops) s tt (at s)
  unfolding file_calls
  file_calls-runs ops s r = record {
    end = s;
    rests = r;
    holds = λ j. refl;
    run = λ i. (first_failure-none ops s r i, s);
  }
