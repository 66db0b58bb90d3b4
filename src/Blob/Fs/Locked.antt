-- ===== src/Blob/Fs/Locked.antt =====
-- What `Put` does under the lock: a compare-and-swap of one file.
use s3db.Base.{
  text_eq, Text, ◌≡◌, ◌≢◌, refl, sym, ◌∙◌, ap, subst, is_empty, Bool, true, false, not, ◌&&◌,
  Option, none, some, arith, Bool-cases, inl, inr,
}
use s3db.Result.{Result, ok}
use s3db.Result.Exec.{pure, raise, by_bind, by_if, pure-eq-ok, lift-eq-ok}
use s3db.Result.Reply.{Reply, failed, got, call-ok}
use s3db.Etag.{normalize}
use s3db.Blob.{PutCondition, meets, held}
use s3db.Blob.FileKeys.{Unicode}
use s3db.Blob.Root.{FsError, not_exist, exist, other, Root, plain}
use s3db.Blob.Fs.{
  Target, absent, is_dir, is_file, target_exists, target_of, no_etag, compute_etag, check_match,
  store_at, replace,
}
use s3db.Blob.Fs.Documented.{IsFs}

module _ {S : Type 0} (root : Root S) (u : Unicode) (hash : Text → Text)
    (files : S → Text → Option Text) (reaches : S → S → Type 0) (mine : S → Type 0)
    (staged : S → Text → Text → Type 0) (os : IsFs root files reaches mine staged) where
  -- What is there, by what `Lstat` said.
  abbrev Found : Target → Option Text → Type 0
  Found absent o = o ≡ none
  Found is_dir o = Unit {0}
  Found is_file o = (b : Text) × (o ≡ some b)

  target_of-Found :
      (name : Text) (r : Reply FsError Bool) (s : S) (t t' : S) (target : Target)
      → mine s
      → (root.lstat name s).0 ≡ r
      → target_of root u hash r t ≡ (ok target, t')
      → Found target (files s name) × (t ≡ t')
  unfolding target_of pure raise
  target_of-Found name (got true) s t t' target m e h =
      let (same, stop) = pure-eq-ok is_dir t h in
      (subst (λ x. Found x (files s name)) same tt, stop)
  target_of-Found name (got false) s t t' target m e h =
      let (same, stop) = pure-eq-ok is_file t h in
      (subst (λ x. Found x (files s name)) same (os.lstat_file name s m e), stop)
  target_of-Found name (failed not_exist) s t t' target m e h =
      let (same, stop) = pure-eq-ok absent t h in
      (subst (λ x. Found x (files s name)) same (os.lstat_none name s m e), stop)
  target_of-Found name (failed exist) s t t' target m e h =
      cc (ap (λ (q : Result Target × S). q.0) h)
  target_of-Found name (failed (other x)) s t t' target m e h =
      cc (ap (λ (q : Result Target × S). q.0) h)

  -- The condition, once the target is known.
  Found-meets :
      (target : Target) (o : Option Text) (cond : PutCondition)
      → target ≢ is_dir
      → Found target o
      → (cond.if_none_match && target_exists target) ≡ false
      → ((is_empty cond.if_match ≡ false)
          → (target_exists target ≡ true)
            × ((b : Text) → o ≡ some b → hash b ≡ normalize cond.if_match))
      → meets cond (held o hash) ≡ true
  Found-meets is_dir o cond file found vacant same = absurd (file refl)
  Found-meets absent o cond file found vacant same = elim (Bool-cases (is_empty cond.if_match)) [
    | inl empty ↦ rw found empty
    | inr full ↦ cc ((same full).0)
  ]
  Found-meets is_file o cond file (b, e) vacant same =
      let any : cond.if_none_match ≡ false = ground (arith, vacant) in
      elim (Bool-cases (is_empty cond.if_match)) [
        | inl empty ↦ rw e (ground (arith, any, empty))
        | inr full ↦ rw e (ground (arith, any, (same full).1 b e))
      ]

  -- Looking, under the lock.
  record Same (s t : S) : Type 0 where
    held_on : mine t
    same_files : files t ≡ files s
    kept : (tmp b : Text) → staged s tmp b → staged t tmp b

  compute_etag-Same :
      (name : Text) (s t : S) (cur : Text)
      → mine s
      → compute_etag root u hash name s ≡ (ok cur, t)
      → Same s t × ((b : Text) → files s name ≡ some b → hash b ≡ cur)
  unfolding compute_etag
  compute_etag-Same name s t cur m h = by_bind _ _ s h λ f t1 found rest.
      by_bind _ _ t1 rest λ body t2 read rest1.
        let opened = call-ok (no_etag root u hash) (root.open_file name) s t1 f found in
        let (got_body, at_t2) = lift-eq-ok _ t1 read in
        let (same, stop) = pure-eq-ok _ t2 rest1 in
        let (mine1, files1) = os.open_same name s m in
        let t1_is : (root.open_file name s).1 ≡ t = ap (λ q. q.1) opened ∙ at_t2 ∙ stop in
        let here = os.read name s t1 f body opened got_body in
        let files_t : files t ≡ files s = subst (λ x. files x ≡ files s) t1_is files1 in
        let at_t : files t name ≡ some body =
          subst (λ x. files x name ≡ some body) (at_t2 ∙ stop) here in
        (
          record {
            held_on = subst mine t1_is mine1;
            same_files = files_t;
            kept = λ tmp b k. subst (λ x. staged x tmp b) t1_is (os.open_staged name tmp b s k);
          },
          λ b e.
              let both : some body ≡ some b = sym at_t ∙ ap (λ f. f name) files_t ∙ e in
              let equal : body ≡ b = cc both in ap hash (sym equal) ∙ same,
        )

  Same-refl : (s t : S) → mine s → s ≡ t → Same s t
  Same-refl s t m e =
      subst (Same s) e (record { held_on = m; same_files = refl; kept = λ tmp b k. k })

  check_match-Same :
      (name : Text) (cond : PutCondition) (target : Target) (s t : S)
      → mine s
      → check_match root u hash name cond target s ≡ (ok tt, t)
      → Same s t
        × (is_empty cond.if_match ≡ false
            → (target_exists target ≡ true)
              × ((b : Text) → files s name ≡ some b → hash b ≡ normalize cond.if_match))
  unfolding check_match raise
  check_match-Same name cond target s t m h =
      by_if (is_empty cond.if_match) _ _ s h
        (λ empty run. (Same-refl s t m (pure-eq-ok _ s run).1, λ full. cc (sym empty ∙ full)))
        (λ full run.
          by_if (not (target_exists target)) _ _ s run
            (λ gone run1. cc (ap (λ (q : Result (Unit {0}) × S). q.0) run1))
            (λ there run1. by_bind _ _ s run1 λ cur t1 computed rest.
              let (looked, tags) = compute_etag-Same name s t1 cur m computed in
              let (passed, stop) = lift-eq-ok _ t1 rest in
              let same : cur ≡ normalize cond.if_match = ground (arith, passed) in
              (subst (Same s) stop looked, λ _. (ground (arith, there), λ b e. tags b e ∙ same))))

  -- The file at the name was `old`, which met the condition, and is `b` now.
  pub record Replaced (tmp name b : Text) (cond : PutCondition) (s t : S) : Type 0 where
    pub met : meets cond (held (files s name) hash) ≡ true
    pub stored : files t name ≡ some b
    pub others : (j : Text) → j ≢ name → j ≢ tmp → files t j ≡ files s j

  store_at-ok :
      (tmp name b : Text) (target : Target) (s t : S)
      → mine s
      → staged s tmp b
      → store_at root u hash tmp name target s ≡ (ok tt, t)
      → (target ≢ is_dir)
        × (files t name ≡ some b)
        × ((j : Text) → j ≢ name → j ≢ tmp → files t j ≡ files s j)
  unfolding store_at raise
  store_at-ok tmp name b is_dir s t m k h = cc (ap (λ (q : Result (Unit {0}) × S). q.0) h)
  store_at-ok tmp name b is_file s t m k h =
      let (stored, others) =
        os.renamed tmp name b s t m k (call-ok plain (root.rename tmp name) s t tt h) in
      (λ e. cc e, stored, others)
  store_at-ok tmp name b absent s t m k h =
      let (stored, others) =
        os.renamed tmp name b s t m k (call-ok plain (root.rename tmp name) s t tt h) in
      (λ e. cc e, stored, others)

  pub replace-Replaced :
      (tmp name b : Text) (cond : PutCondition) (s t : S)
      → mine s
      → staged s tmp b
      → replace root u hash tmp name cond s ≡ (ok tt, t)
      → Replaced tmp name b cond s t
  unfolding replace
  replace-Replaced tmp name b cond s t m k h = by_bind _ _ s h λ target t1 found rest.
      by_bind _ _ t1 rest λ v t2 vacant rest1. by_bind _ _ t2 rest1 λ w t3 matched rest2.
        let l = (root.lstat name s).1 in
        let (is, at_t1) = target_of-Found name (root.lstat name s).0 s l t1 target m refl found in
        let (free, at_t2) = lift-eq-ok _ t1 vacant in
        let (mine_l, files_l) = os.lstat_same name s m in
        let to_t2 : l ≡ t2 = at_t1 ∙ at_t2 in
        let mine2 = subst mine to_t2 mine_l in
        let files2 : files t2 ≡ files s = subst (λ x. files x ≡ files s) to_t2 files_l in
        let (looked, tags) = check_match-Same name cond target t2 t3 mine2 matched in
        let kept =
          looked.kept tmp b (subst (λ x. staged x tmp b) to_t2 (os.lstat_staged name tmp b s k)) in
        let (file, stored, others) = store_at-ok tmp name b target t3 t looked.held_on kept rest2 in
        let files3 : files t3 ≡ files s = looked.same_files ∙ files2 in
        record {
          met =
              Found-meets target (files s name) cond file is (ground (arith, free))
                (λ full. ((tags full).0, λ x e. (tags full).1 x (ap (λ f. f name) files2 ∙ e)));
          stored = stored;
          others = λ j a c. others j a c ∙ ap (λ f. f j) files3;
        }
