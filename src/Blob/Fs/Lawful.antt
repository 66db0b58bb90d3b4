-- ===== src/Blob/Fs/Lawful.antt =====
-- The store in a directory is a lawful store, where the lock is reliable.
use s3db.Base.{
  Text, text_eq, ◌≡◌, refl, sym, ◌∙◌, ap, subst, Bool, true, false, ◌==◌, Option, none, some, arith,
  if◌then◌else◌,
}
use s3db.Result.{Result, ok, err}
use s3db.Result.Exec.{Exec, raise, by_bind, by_if, pure-eq-ok, lift-eq-ok, attempt-ok}
use s3db.Result.Keeps.{Keeps}
use s3db.Result.Reply.{got, call-ok}
use s3db.Blob.{IsLawful, Contents, PutCondition, meets, written, held}
use s3db.Blob.FileKeys.{Unicode, validate_key, dir_of}
use s3db.Blob.FileKeys.Reserved.{IsUnicode, validate_key-temp}
use s3db.Blob.Root.{File, Root, plain, map_fs_err}
use s3db.Blob.FileReads.{check_ctx, not_a_dir, open_blob, get}
use s3db.Blob.Fs.{make_dir, create_temp, stage, with_lock, replace, put, fs_store}
use s3db.Blob.Fs.Documented.{IsFs}
use s3db.Blob.Fs.Locked.{replace-Replaced}
use s3db.Blob.Fs.Staged.{
  make_dir-Keeps, create_temp-Keeps, create_temp-named, stage-Keeps, or_give_up-ok, stage-staged,
}

abbrev is_ok : Result (Unit {0}) → Bool
is_ok (ok _) = true
is_ok (err e) = false

abbrev seen : Bool → Option (Text × Text) → Option (Text × Text)
seen false o = none
seen true o = o

module _ {S : Type 0} (root : Root S) (u : Unicode) (hash : Text → Text)
    (files : S → Text → Option Text) (reaches : S → S → Type 0) (mine : S → Type 0)
    (staged : S → Text → Text → Type 0) (os : IsFs root files reaches mine staged) where
  -- What the store holds: the files whose names are keys.
  abbrev pub fs_at : S → Contents
  fs_at s j = seen (is_ok (validate_key u j)) (held (files s j) hash)

  check_ctx-ok : (s t : S) → check_ctx root u hash s ≡ (ok tt, t) → s ≡ t
  unfolding check_ctx
  check_ctx-ok s t h = ap (λ q. q.1) h

  -- What ran under the lock, between taking and giving it back.
  with_lock-ok :
      (fn : Exec S (Unit {0})) (s t : S)
      → with_lock root u hash fn s ≡ (ok tt, t)
      → (s1 s2 : S) × (root.try_lock s ≡ (got true, s1))
        × (fn s1 ≡ (ok tt, s2))
        × (root.unlock s2 ≡ t)
  unfolding with_lock
  with_lock-ok fn s t h = by_bind _ _ s h λ v t1 live rest. by_bind _ _ t1 rest λ b t2 took rest1.
      let from = check_ctx-ok s t1 live in
      let lock = call-ok plain root.try_lock t1 t2 b took in
      by_if b _ _ t2 rest1
        (λ taken run. by_bind _ _ t2 run λ r t3 ran end. (
          t2,
          t3,
          rw from (lock ∙ ap (λ x. (got x, t2)) taken),
          attempt-ok fn t2 t3 r tt ran (ap (λ q. q.0) end),
          ap (λ q. q.1) end,
        ))
        (λ missed run. cc (sym missed ∙ (os.locked t1 t2 b lock).0))

  held-tag :
      (o : Option Text) (visible : Bool) (body tag : Text)
      → seen visible (held o hash) ≡ some (body, tag)
      → tag ≡ hash body
  held-tag none false body tag h = cc h
  held-tag none true body tag h = cc h
  held-tag (some b) false body tag h = cc h
  held-tag (some b) true body tag h = ground (arith, h)

  not_a_dir-ok : (d : Bool) (s t : S) → not_a_dir root u hash d s ≡ (ok tt, t) → s ≡ t
  unfolding not_a_dir raise
  not_a_dir-ok true s t h = cc (ap (λ (q : Result (Unit {0}) × S). q.0) h)
  not_a_dir-ok false s t h = (pure-eq-ok tt s h).1

  open_blob-ok :
      (key : Text) (s t : S) (f : File)
      → open_blob root u hash key s ≡ (ok f, t)
      → root.open_file key s ≡ (got f, t)
  unfolding open_blob
  open_blob-ok key s t f h = by_bind _ _ s h λ g t1 opened rest.
      by_bind _ _ t1 rest λ d t2 asked rest1. by_bind _ _ t2 rest1 λ v t3 plain_file rest2.
        let first = call-ok map_fs_err (root.open_file key) s t1 g opened in
        let at_t2 : t1 ≡ t2 = ap (λ q. q.1) (call-ok plain (λ s. (g.is_dir, s)) t1 t2 d asked) in
        let (same, stop) = pure-eq-ok g t3 rest2 in
        let end = at_t2 ∙ not_a_dir-ok d t2 t3 plain_file ∙ stop in
        first ∙ λ i. (got (same i), end i)

  get-held :
      (key : Text) (s : S) (body tag : Text) (s' : S)
      → get root u hash key s ≡ (ok (body, tag), s')
      → fs_at s' key ≡ some (body, tag)
  unfolding get
  get-held key s body tag s' h = by_bind _ _ s h λ v t1 live r1. by_bind _ _ t1 r1 λ w t2 valid r2.
      by_bind _ _ t2 r2 λ f t3 opened r3. by_bind _ _ t3 r3 λ b t4 read r4.
        by_bind _ _ t4 r4 λ x t5 sought r5.
          let (is_key, _) = lift-eq-ok _ t1 valid in
          let (bytes, at_t4) = lift-eq-ok _ t3 read in
          let (_, at_t5) = lift-eq-ok _ t4 sought in
          let (same, stop) = pure-eq-ok _ t5 r5 in
          let there = os.read key t2 t3 f b (open_blob-ok key t2 t3 f opened) bytes in
          let now : fs_at t3 key ≡ some (b, hash b) = rw (is_key, there) refl in
          subst (λ x. fs_at x key ≡ some (body, tag)) (at_t4 ∙ at_t5 ∙ stop)
            (now ∙ ap (λ q. some q) same)

  -- One key after the put.
  put-at :
      (here : Bool) (r : Result (Unit {0})) (after before : Option Text) (body tag : Text)
      → hash body ≡ tag
      → (here ≡ true → (r ≡ ok tt) × (after ≡ some body))
      → (here ≡ false → r ≡ ok tt → after ≡ before)
      → seen (is_ok r) (held after hash)
        ≡ (if here then some (body, tag) else seen (is_ok r) (held before hash))
  put-at true r after before body tag e at_key elsewhere =
      let (valid, now) = at_key refl in rw (valid, now, e) refl
  put-at false (ok v) after before body tag e at_key elsewhere = rw (elsewhere refl refl) refl
  put-at false (err x) after before body tag e at_key elsewhere = refl

  step :
      {A : Type 0} {r : Result A} (s : S) (m : Exec S A) (a b : S)
      → Keeps (reaches s) m
      → m a ≡ (r, b)
      → reaches s a
      → reaches s b
  step s m a b k e g = subst (reaches s) (ap (λ q. q.1) e) (k.at a g)

  before_lock :
      (s t3 t4 t5 t6 : S) (key tmp body : Text)
      → reaches s t3
      → make_dir root u hash (dir_of key) t3 ≡ (ok tt, t4)
      → create_temp root u hash 10 (dir_of key) t4 ≡ (ok tmp, t5)
      → stage root u hash tmp body t5 ≡ (ok tt, t6)
      → reaches s t6
  before_lock s t3 t4 t5 t6 key tmp body h made temp filled =
      step s (stage root u hash tmp body) t5 t6
        (stage-Keeps root u hash files reaches mine staged os s tmp body) filled
        (step s (create_temp root u hash 10 (dir_of key)) t4 t5
          (create_temp-Keeps root u hash files reaches mine staged os s 10 (dir_of key)) temp
          (step s (make_dir root u hash (dir_of key)) t3 t4
            (make_dir-Keeps root u hash files reaches mine staged os s (dir_of key)) made h))

  module _ (low : IsUnicode u) where
    put-Written :
        (key body : Text) (cond : PutCondition) (s : S) (tag : Text) (s' : S)
        → put root u hash key body cond s ≡ (ok tag, s')
        → (p : S) × reaches s p
          × (meets cond (fs_at p key) ≡ true)
          × ((j : Text) → fs_at s' j ≡ written (fs_at p) key (body, tag) j)
    unfolding put
    put-Written key body cond s tag s' h = by_bind _ _ s h λ v t1 live r1.
        by_bind _ _ t1 r1 λ w t2 one r2. by_bind _ _ t2 r2 λ x t3 valid r3.
          by_bind _ _ t3 r3 λ y t4 made r4. by_bind _ _ t4 r4 λ tmp t5 temp r5.
            by_bind _ _ t5 r5 λ z t6 filled r6. by_bind _ _ t6 r6 λ r t7 swap r7.
              by_bind _ _ t7 r7 λ q t8 kept r8.
                let start =
                  check_ctx-ok s t1 live ∙ (lift-eq-ok _ t1 one).1 ∙ (lift-eq-ok _ t2 valid).1 in
                let is_key = (lift-eq-ok _ t2 valid).0 in
                let to_t3 = subst (reaches s) start (os.stay s) in
                let to_t6 = before_lock s t3 t4 t5 t6 key tmp body to_t3 made temp filled in
                let (no_error, at_t8) =
                  or_give_up-ok root u hash files reaches mine staged os s tmp r t7 t8 kept in
                let (s1, s2, lock, swapped, unlocked) =
                  with_lock-ok (replace root u hash tmp key cond) t6 t7 (
                    attempt-ok (with_lock root u hash (replace root u hash tmp key cond)) t6 t7 r tt
                      swap no_error) in
                let at_s1 = ap (λ q. q.1) lock in
                let ready =
                  subst (λ x. staged x tmp body) at_s1
                    (os.lock_staged tmp body t6 (
                      stage-staged root u hash files reaches mine staged os s tmp body t5 t6
                        filled)) in
                let k =
                  replace-Replaced root u hash files reaches mine staged os tmp key body cond s1 s2
                    (os.locked t6 s1 true lock).1 ready swapped in
                let (same, stop) = pure-eq-ok (hash body) t8 r8 in
                let files_end : files s' ≡ files s2 =
                  subst (λ x. files x ≡ files s2) (unlocked ∙ at_t8 ∙ stop) (os.unlocked s2) in
                let (hex, named) =
                  create_temp-named root u hash files reaches mine staged os s 10 (dir_of key) t4 t5
                    tmp temp in
                (
                  s1,
                  subst (reaches s) at_s1
                      (os.go_on s t6 (root.try_lock t6).1 to_t6 (os.try_lock t6)),
                  rw is_key k.met,
                  λ j.
                      put-at (key == j) (validate_key u j) (files s' j) (files s1 j) body tag same
                        (λ here.
                          let e : key ≡ j = ground (arith, here) in
                          (
                            sym (ap (validate_key u) e) ∙ is_key,
                            ap (λ f. f j) files_end ∙ sym (ap (files s2) e) ∙ k.stored,
                          ))
                        (λ other valid_j.
                          ap (λ f. f j) files_end
                          ∙ k.others j (λ e. ground (arith, other, e))
                              (λ e.
                                validate_key-temp u low (dir_of key) hex j valid_j (e ∙ named))),
                )

    -- Where the lock is reliable and the file system does what `os.Root` documents, the store in
    -- a directory is a lawful store, of the files whose names are keys: a get returns what is
    -- held, a tag is that of its body, a put that succeeds met its condition at the moment when
    -- it took the lock, after its call, and wrote its key alone.
    pub fs_store-IsLawful : IsLawful (fs_store root u hash) hash fs_at reaches
    unfolding fs_store
    fs_store-IsLawful = record {
      stay = os.stay;
      go_on = os.go_on;
      get_ok = get-held;
      tag_hash = λ s key body tag h. held-tag (files s key) (is_ok (validate_key u key)) body tag h;
      put_ok = put-Written;
    }
