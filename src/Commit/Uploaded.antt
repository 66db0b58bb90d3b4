-- ===== src/Commit/Uploaded.antt =====
-- What the capture of a changeset and its upload have shown when they succeed.
use s3db.Base.{Text, ◌≡◌, refl, sym, ◌∙◌, subst, Bool, true, false, Option, none, some, arith}
use s3db.Result.{ok}
use s3db.Result.Exec.{Exec, ◌>>=◌, by_bind, by_if, pure-eq-ok}
use s3db.Blob.{IsLawful, Contents, no_condition}
use s3db.Env.{Env}
use s3db.Sqlite.{Sqlite}
use s3db.Session.{capture}
use s3db.Client.{Client, CommitConfig, outside, on_conn, ConnRef, nil, closed, live}
use s3db.Manifest.{epoch}
use s3db.Commit.{
  changeset_key, Attempt, capture_phase, Phase, finished, going_on, upload_changeset, save,
}

module _ {S : Type 0} (env : Env S) (lib : Sqlite) (cfg : CommitConfig) (hash : Text → Text)
    (at : S → Contents) (reaches : S → S → Type 0) (law : IsLawful env.store hash at reaches)
    (fn : Exec lib.Conn (Unit {0})) where
  open lib use {Conn}

  -- The changeset `cs` was captured from the caller's function, and was stored at `key` at some
  -- moment between `begin` and `now`.
  pub record Uploaded (begin now : S) (cs key : Text) : Type 0 where
    pub start : Conn
    pub end : Conn
    pub captured : capture lib fn start ≡ (ok (some cs), end)
    pub moment : S
    pub since : reaches begin moment
    pub until : reaches moment now
    pub tag : Text
    pub stored : at moment key ≡ some (cs, tag)

  -- The client is that of the moment `before`, not before `begin`, but for its connection: there
  -- the caller's function ran in a savepoint and changed nothing that a changeset records, and
  -- then `leave` was done.
  pub record Unchanged (leave : Conn → Conn) (saved : Bool) (begin : S) (c : Client S Conn)
      : Type 0 where
    pub before : Client S Conn
    pub since : reaches begin before.out
    pub start : Conn
    pub end : Conn
    pub had : before.st.conn ≡ live start
    pub captured : capture lib fn (lib.savepoint start) ≡ (ok none, end)
    pub same :
        c ≡ record before { st = record before.st { conn = live (leave end) }; saved = saved }

  -- What a phase that succeeded has shown, at the client that it leaves.
  abbrev pub Shown : S → Client S Conn → Phase → Type 0
  Shown begin c finished = Unchanged (λ conn. conn) true begin c
  Shown begin c (going_on l) = Uploaded begin c.out l.cs l.cs_key

  capture-ran :
      (ref : ConnRef Conn) (c t t1 : Client S Conn) (o : Option Text) (u : Unit {0})
      → c.st.conn ≡ ref
      → save env lib cfg c ≡ (ok u, t)
      → on_conn (capture lib fn) t ≡ (ok o, t1)
      → (start end : Conn) × (c.st.conn ≡ live start)
        × (capture lib fn (lib.savepoint start) ≡ (ok o, end))
        × (t1 ≡ record c { st = record c.st { conn = live end }; saved = true })
  unfolding on_conn ◌>>=◌
  capture-ran nil c t t1 o u e h g = ground (arith, e, h)
  capture-ran closed c t t1 o u e h g = ground (arith, e, h)
  capture-ran (live x) c t t1 o u e h g =
      (x, (capture lib fn (lib.savepoint x)).1, e, ground (arith, e, h, g), ground (arith, e, h, g))

  pub Uploaded-later :
      (begin now next : S)
      → reaches now next
      → (cs key : Text) → Uploaded begin now cs key
      → Uploaded begin next cs key
  Uploaded-later begin now next r cs key up = record {
    start = up.start;
    end = up.end;
    captured = up.captured;
    moment = up.moment;
    since = up.since;
    until = law.go_on up.moment now next up.until r;
    tag = up.tag;
    stored = up.stored;
  }

  stored_after :
      (key cs : Text) (s : S) (tag : Text) (s' : S)
      → env.store.put key cs no_condition s ≡ (ok tag, s')
      → at s' key ≡ some (cs, tag)
  stored_after key cs s tag s' h =
      let (p, later, met, is) = law.put_ok key cs no_condition s tag s' h in ground (arith, is key)

  upload_changeset-Shown :
      (begin : S) (l : Attempt) (o : Option Text) (start end : Conn) (before c c' : Client S Conn)
      (r : Phase)
      → reaches begin c'.out
      → reaches begin before.out
      → before.st.conn ≡ live start
      → capture lib fn (lib.savepoint start) ≡ (ok o, end)
      → c ≡ record before { st = record before.st { conn = live end }; saved = true }
      → upload_changeset env lib cfg l o c ≡ (ok r, c')
      → Shown begin c' r
  unfolding upload_changeset outside
  upload_changeset-Shown begin l none start end before c c' finished since from had took same h =
      record {
        before = before;
        since = from;
        start = start;
        end = end;
        had = had;
        captured = took;
        same = sym (pure-eq-ok _ c h).1 ∙ same;
      }
  upload_changeset-Shown begin l none start end before c c' (going_on l') since from had took same
        h =
      cc (pure-eq-ok _ c h).0
  upload_changeset-Shown begin l (some cs) start end before c c' r since from had took same h =
      by_bind _ _ c h λ u t _ rest. by_bind _ _ t rest λ d t1 _ rest1.
        by_bind _ _ t1 rest1 λ uuid t2 _ rest2. by_bind _ _ t2 rest2 λ tag t3 put rest3.
          let (is, stop) = pure-eq-ok _ t3 rest3 in
          subst (Shown begin c') is (record {
            start = lib.savepoint start;
            end = end;
            captured = took;
            moment = c'.out;
            since = since;
            until = law.stay c'.out;
            tag = tag;
            stored =
                subst
                  (λ (x : Client S Conn).
                    at x.out (changeset_key cfg.prefix (epoch d.st.manifest) uuid) ≡ some (cs, tag))
                  stop (stored_after _ cs t2.out tag t3.out (λ i. ((put i).0, (put i).1.out)));
          })

  pub capture_phase-Shown :
      (begin : S) (l : Attempt) (c c' : Client S Conn) (r : Phase)
      → reaches begin c.out
      → reaches begin c'.out
      → (l.need_capture ≡ false → Uploaded begin c'.out l.cs l.cs_key)
      → capture_phase env lib cfg fn l c ≡ (ok r, c')
      → Shown begin c' r
  unfolding capture_phase
  capture_phase-Shown begin l c c' r from since known h =
      by_if l.need_capture _ _ c h
        (λ _ run. by_bind _ _ c run λ u t saved rest. by_bind _ _ t rest λ o t1 took rest1.
          let (start, end, had, e, same) = capture-ran c.st.conn c t t1 o u refl saved took in
          upload_changeset-Shown begin l o start end c t1 c' r since from had e same rest1)
        (λ kept run. subst (Shown begin c') (pure-eq-ok _ c run).0 (known kept))
