-- ===== src/Compact/Stored.antt =====
-- The upload of a file as a snapshot: when it succeeds, the blob was stored.
use s3db.Base.{ℤ, pos, Text, ◌≡◌, sym, ◌∙◌, ap, subst, some, arith, length}
use s3db.Result.{Result, ok, err}
use s3db.Result.Exec.{current, attempt, ◌>>=◌, by_bind, pure-eq-ok}
use s3db.Blob.{IsLawful, Contents, no_condition}
use s3db.Env.{Env}
use s3db.Sqlite.{Sqlite}
use s3db.Manifest.{BlobRef}
use s3db.Client.{Client, CommitConfig, outside}
use s3db.Sync.{reopen_conn}
use s3db.Env.Kept.{IsSteady}
use s3db.Commit.Moves.{ran}
use s3db.Compact.{upload_file, or_reopen, upload_local, upload_snapshot}
use s3db.Compact.Moves.{upload_snapshot-Keeps}

-- A blob of this size was stored at the key at some moment between `begin` and `now`.
pub record Stored {S : Type 0} (at : S → Contents) (reaches : S → S → Type 0) (begin now : S)
    (b : BlobRef) : Type 0 where
  pub moment : S
  pub since : reaches begin moment
  pub until : reaches moment now
  pub bytes : Text
  pub tag : Text
  pub stored : at moment b.key ≡ some (bytes, tag)
  pub sized : b.size ≡ pos (length bytes)

module _ {S : Type 0} (env : Env S) (hash : Text → Text) (at : S → Contents)
    (reaches : S → S → Type 0) (law : IsLawful env.store hash at reaches) where
  pub Stored-later :
      (begin now next : S) (b : BlobRef)
      → reaches now next
      → Stored at reaches begin now b
      → Stored at reaches begin next b
  Stored-later begin now next b r s = record {
    moment = s.moment;
    since = s.since;
    until = law.go_on s.moment now next s.until r;
    bytes = s.bytes;
    tag = s.tag;
    stored = s.stored;
    sized = s.sized;
  }

  pub upload_file-Stored :
      (key bytes : Text) (begin s s' : S) (size seq : ℤ)
      → reaches begin s'
      → upload_file env key bytes s ≡ (ok size, s')
      → Stored at reaches begin s' (record { key = key; seq = seq; size = size })
  unfolding upload_file
  upload_file-Stored key bytes begin s s' size seq since h = by_bind _ _ s h λ u s0 ready more.
      by_bind _ _ s0 more λ tag t wrote rest.
        let (p, later, met, is) = law.put_ok key bytes no_condition s0 tag t wrote in
        let (same, stop) = pure-eq-ok _ t rest in
        let here : at t key ≡ some (bytes, tag) = ground (arith, is key) in
        record {
          moment = s';
          since = since;
          until = law.stay s';
          bytes = bytes;
          tag = tag;
          stored = subst (λ x. at x key ≡ some (bytes, tag)) stop here;
          sized = sym same;
        }

  module _ (lib : Sqlite) where
    open lib use {Conn}

    or_reopen-ok :
        (r : Result ℤ) (size : ℤ) (c c' : Client S Conn)
        → or_reopen env lib r c ≡ (ok size, c')
        → (r ≡ ok size) × (c'.out ≡ c.out)
    unfolding or_reopen ◌>>=◌
    or_reopen-ok (ok n) size c c' h = ground (arith, h)
    or_reopen-ok (err e) size c c' h = ground (arith, h)

    reopen_conn-out :
        (c c' : Client S Conn) (r : Result (Unit {0}))
        → reopen_conn env lib c ≡ (r, c')
        → c'.out ≡ c.out
    unfolding reopen_conn
    reopen_conn-out c c' r h = ground (arith, h)

    pub upload_local-Stored :
        (key : Text) (begin : S) (c c' : Client S Conn) (size seq : ℤ)
        → reaches begin c'.out
        → upload_local env lib key c ≡ (ok size, c')
        → Stored at reaches begin c'.out (record { key = key; seq = seq; size = size })
    unfolding upload_local current attempt outside
    upload_local-Stored key begin c c' size seq since h = by_bind _ _ c h λ d t seen rest.
        by_bind _ _ t rest λ r t1 ran rest1. by_bind _ _ t1 rest1 λ n t2 got rest2.
          by_bind _ _ t2 rest2 λ u t3 opened end.
            let (same, stop) = pure-eq-ok _ t3 end in
            let (was, out) = or_reopen-ok r n t1 t2 got in
            let up : (upload_file env key d.disk t.out).0 ≡ r = cc (ap (λ q. q.0) ran) in
            let there : (upload_file env key d.disk t.out).1 ≡ c'.out =
              ap (λ q. q.1.out) ran
              ∙ sym out
              ∙ sym (reopen_conn-out t2 t3 _ opened)
              ∙ ap (λ (x : Client S Conn). x.out) stop in
            upload_file-Stored key d.disk begin t.out c'.out size seq since
              (λ i. ((up ∙ was ∙ ap ok same) i, there i))

    pub upload_snapshot-Stored :
        (cfg : CommitConfig) (steady : IsSteady env reaches) (begin : S) (c c' : Client S Conn)
        (key : Text) (size seq : ℤ)
        → reaches begin c.out
        → upload_snapshot env lib cfg c ≡ (ok (key, size), c')
        → Stored at reaches begin c'.out (record { key = key; seq = seq; size = size })
    unfolding upload_snapshot
    upload_snapshot-Stored cfg steady begin c c' key size seq since h =
        let moved =
          ran env lib reaches steady (upload_snapshot env lib cfg) c c'
            (λ Q kept. upload_snapshot-Keeps env lib Q kept cfg) h in
        by_bind _ _ c h λ u t _ rest. by_bind _ _ t rest λ d t1 _ rest1.
          by_bind _ _ t1 rest1 λ v t2 _ rest2. by_bind _ _ t2 rest2 λ uuid t3 _ rest3.
            by_bind _ _ t3 rest3 λ n t4 up rest4.
              let (same, stop) = pure-eq-ok _ t4 rest4 in
              let end : (upload_local env lib _ t3) ≡ (ok size, c') =
                up ∙ (λ i. (ok (same i).1, stop i)) in
              subst
                (λ k. Stored at reaches begin c'.out (record { key = k; seq = seq; size = size }))
                (ap (λ q. q.0) same)
                (upload_local-Stored _ begin t3 c' size seq
                  (law.go_on begin c.out c'.out since moved) end)
