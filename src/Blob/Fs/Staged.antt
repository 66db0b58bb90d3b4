-- ===== src/Blob/Fs/Staged.antt =====
-- What `Put` does before it takes the lock: a temporary file with the body.
use s3db.Base.{
  ℕ, zero, suc, Option, Text, text_eq, codes, ◌≡◌, refl, sym, ◌∙◌, ap, subst, ◌++◌, ◌==◌,
}
use s3db.Errors.{Error}
use s3db.Result.{Result, ok, err}
use s3db.Result.Exec.{Exec, raise, attempt, ◌>>=◌, by_bind, by_if, pure-eq-ok, attempt-ok}
use s3db.Result.Keeps.{Keeps, Keeps-bind, Keeps-if, Keeps-raise, keeps_rules}
use s3db.Result.Reply.{Reply, failed, got, call, asked, call-ok, call-Keeps, asked-Keeps}
use s3db.Blob.FileKeys.{Unicode, fs_tmp_prefix, join}
use s3db.Blob.Root.{FsError, not_exist, exist, other, Root, plain}
use s3db.Blob.Fs.{
  after_create, create_temp, cleanup, give_up, or_cleanup, or_give_up, stage, make_dir,
}
use s3db.Blob.Fs.Documented.{IsFs}

module _ {S : Type 0} (root : Root S) (u : Unicode) (hash : Text → Text)
    (files : S → Text → Option Text) (reaches : S → S → Type 0) (mine : S → Type 0)
    (staged : S → Text → Text → Type 0) (os : IsFs root files reaches mine staged) (begin : S) where
  -- a call that moves along keeps what has been reached
  moves :
      {E A : Type 0} (f : E → Error) (m : S → Reply E A × S)
      → ((s : S) → reaches s (m s).1)
      → Keeps (reaches begin) (call f m)
  moves f m k = call-Keeps f m (λ s h. os.go_on begin s (m s).1 h (k s))

  random_lem : Keeps (reaches begin) (call plain root.random)
  random_lem = moves plain root.random os.random

  mkdir_lem : (name : Text) → Keeps (reaches begin) (call plain (root.mkdir_all name))
  mkdir_lem name = moves plain (root.mkdir_all name) (os.mkdir_all name)

  write_lem : (name b : Text) → Keeps (reaches begin) (call plain (root.write name b))
  write_lem name b = moves plain (root.write name b) (os.write name b)

  sync_lem : (name : Text) → Keeps (reaches begin) (call plain (root.sync name))
  sync_lem name = moves plain (root.sync name) (os.sync name)

  close_lem : (name : Text) → Keeps (reaches begin) (call plain (root.close name))
  close_lem name = moves plain (root.close name) (os.close name)

  remove_lem : (name : Text) → Keeps (reaches begin) (call plain (root.remove name))
  remove_lem name = moves plain (root.remove name) (os.remove name)

  create_lem : (name : Text) → Keeps (reaches begin) (asked (root.create name))
  create_lem name =
      asked-Keeps (root.create name)
        (λ s h. os.go_on begin s (root.create name s).1 h (os.create name s))

  pub make_dir-Keeps : (dir : Text) → Keeps (reaches begin) (make_dir root u hash dir)
  unfolding make_dir
  make_dir-Keeps dir = search (keeps_rules, mkdir_lem)

  after_create-Keeps :
      (again : Exec S Text) (dir name : Text) (r : Reply FsError (Unit {0}))
      → Keeps (reaches begin) again
      → Keeps (reaches begin) (after_create root u hash again dir name r)
  unfolding after_create
  after_create-Keeps again dir name (got _) k = search keeps_rules
  after_create-Keeps again dir name (failed exist) k = k
  after_create-Keeps again dir name (failed not_exist) k =
      Keeps-if _ _ _ (Keeps-raise _) (Keeps-bind _ (λ v. k) _ (mkdir_lem dir))
  after_create-Keeps again dir name (failed (other e)) k = search keeps_rules

  pub create_temp-Keeps :
      (n : ℕ) (dir : Text) → Keeps (reaches begin) (create_temp root u hash n dir)
  unfolding create_temp
  create_temp-Keeps zero dir = search keeps_rules
  create_temp-Keeps (suc n) dir =
      let again = create_temp-Keeps n dir in
      Keeps-bind _ (λ hex. Keeps-bind _ (λ r. after_create-Keeps _ dir _ r again) _ (create_lem _))
        _ random_lem

  after_create-named :
      (again : Exec S Text) (dir name : Text) (r : Reply FsError (Unit {0})) (s t : S) (tmp : Text)
      → ((s t : S) → again s ≡ (ok tmp, t) → (hex : Text) × (tmp ≡ join dir (fs_tmp_prefix ++ hex)))
      → (hex : Text) × (name ≡ join dir (fs_tmp_prefix ++ hex))
      → after_create root u hash again dir name r s ≡ (ok tmp, t)
      → (hex : Text) × (tmp ≡ join dir (fs_tmp_prefix ++ hex))
  unfolding after_create raise
  after_create-named again dir name (got _) s t tmp ih (hex, e) h =
      (hex, sym (pure-eq-ok name s h).0 ∙ e)
  after_create-named again dir name (failed exist) s t tmp ih named h = ih s t h
  after_create-named again dir name (failed not_exist) s t tmp ih named h =
      by_if (dir == codes ".") _ _ s h (λ top run. cc (ap (λ (q : Result Text × S). q.0) run))
        (λ deep run. by_bind _ _ s run λ v t1 made rest. ih t1 t rest)
  after_create-named again dir name (failed (other x)) s t tmp ih named h =
      cc (ap (λ (q : Result Text × S). q.0) h)

  -- A temporary file has a reserved name in its directory.
  pub create_temp-named :
      (n : ℕ) (dir : Text) (s t : S) (tmp : Text)
      → create_temp root u hash n dir s ≡ (ok tmp, t)
      → (hex : Text) × (tmp ≡ join dir (fs_tmp_prefix ++ hex))
  unfolding create_temp raise
  create_temp-named zero dir s t tmp h = cc (ap (λ (q : Result Text × S). q.0) h)
  create_temp-named (suc n) dir s t tmp h = by_bind _ _ s h λ hex t1 made rest.
      by_bind _ _ t1 rest λ r t2 tried rest1.
        after_create-named (create_temp root u hash n dir) dir _ r t2 t tmp
          (λ a b run. create_temp-named n dir a b tmp run) (hex, refl) rest1

  cleanup-Keeps :
      (tmp : Text) (e : Error) → Keeps (reaches begin) (cleanup root u hash {A = Unit {0}} tmp e)
  unfolding cleanup give_up
  cleanup-Keeps tmp e = search (keeps_rules, close_lem, remove_lem)

  give_up-Keeps :
      (tmp : Text) (e : Error) → Keeps (reaches begin) (give_up root u hash {A = Unit {0}} tmp e)
  unfolding give_up
  give_up-Keeps tmp e = search (keeps_rules, remove_lem)

  or_cleanup-Keeps :
      (tmp : Text) (r : Result (Unit {0})) → Keeps (reaches begin) (or_cleanup root u hash tmp r)
  unfolding or_cleanup
  or_cleanup-Keeps tmp (ok _) = search keeps_rules
  or_cleanup-Keeps tmp (err e) = cleanup-Keeps tmp e

  or_give_up-Keeps :
      (tmp : Text) (r : Result (Unit {0})) → Keeps (reaches begin) (or_give_up root u hash tmp r)
  unfolding or_give_up
  or_give_up-Keeps tmp (ok _) = search keeps_rules
  or_give_up-Keeps tmp (err e) = give_up-Keeps tmp e

  pub stage-Keeps : (tmp body : Text) → Keeps (reaches begin) (stage root u hash tmp body)
  unfolding stage
  stage-Keeps tmp body =
      search (keeps_rules, write_lem, sync_lem, close_lem, or_cleanup-Keeps, or_give_up-Keeps) depth
        12

  pub or_give_up-ok :
      (tmp : Text) (r : Result (Unit {0})) (s t : S)
      → or_give_up root u hash tmp r s ≡ (ok tt, t)
      → (r ≡ ok tt) × (s ≡ t)
  unfolding or_give_up give_up raise attempt ◌>>=◌
  or_give_up-ok tmp (ok _) s t h = (refl, (pure-eq-ok tt s h).1)
  or_give_up-ok tmp (err e) s t h = cc (ap (λ (q : Result (Unit {0}) × S). q.0) h)

  or_cleanup-ok :
      (tmp : Text) (r : Result (Unit {0})) (s t : S)
      → or_cleanup root u hash tmp r s ≡ (ok tt, t)
      → (r ≡ ok tt) × (s ≡ t)
  unfolding or_cleanup cleanup give_up raise attempt ◌>>=◌
  or_cleanup-ok tmp (ok _) s t h = (refl, (pure-eq-ok tt s h).1)
  or_cleanup-ok tmp (err e) s t h = cc (ap (λ (q : Result (Unit {0}) × S). q.0) h)

  -- A call whose error would have ended the staging has succeeded.
  went :
      (m : S → Reply FsError (Unit {0}) × S) (s t t' : S) (r : Result (Unit {0}))
      → attempt (call plain m) s ≡ (ok r, t)
      → (r ≡ ok tt) × (t ≡ t')
      → m s ≡ (got tt, t')
  went m s t t' r h (e, stop) =
      call-ok plain m s t' tt (attempt-ok (call plain m) s t r tt h e ∙ ap (λ x. (ok tt, x)) stop)

  pub stage-staged :
      (tmp body : Text) (s t : S) → stage root u hash tmp body s ≡ (ok tt, t) → staged t tmp body
  unfolding stage
  stage-staged tmp body s t h = by_bind _ _ s h λ w t1 ran r1. by_bind _ _ t1 r1 λ _ t2 c1 r2.
      by_bind _ _ t2 r2 λ y t3 ran3 r3. by_bind _ _ t3 r3 λ _ t4 c2 r4.
        by_bind _ _ t4 r4 λ c t5 ran5 c3.
          let wrote = went (root.write tmp body) s t1 t2 w ran (or_cleanup-ok tmp w t1 t2 c1) in
          let synced = went (root.sync tmp) t2 t3 t4 y ran3 (or_cleanup-ok tmp y t3 t4 c2) in
          let shut = went (root.close tmp) t4 t5 t c ran5 (or_give_up-ok tmp c t5 t c3) in
          let at2 = os.written tmp body s t2 wrote in
          let at4 =
            subst (λ x. staged x tmp body) (ap (λ q. q.1) synced)
              (os.sync_staged tmp body t2 at2) in
          subst (λ x. staged x tmp body) (ap (λ q. q.1) shut) (os.close_staged tmp body t4 at4)
