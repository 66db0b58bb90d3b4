-- ===== src/Transfer/Kept.antt =====
-- A file that is uploaded is stored, byte for byte.
use s3db.Base.{ℤ, pos, Text, ◌≡◌, sym, ◌∙◌, ap, subst, some, length, arith}
use s3db.Result.{Result, ok}
use s3db.Result.Exec.{by_bind, pure-eq-ok, lift-eq-ok}
use s3db.Blob.{IsLawful, Contents, no_condition}
use s3db.Env.{Env}
use s3db.Env.Kept.{IsSteady, ran_out}
use s3db.Sqlite.{Sqlite}
use s3db.Compact.{upload_file}
use s3db.Transfer.{validate_sqlite_file}
use s3db.Transfer.Moves.{file_lem}

-- These bytes were stored at the key at some moment between `begin` and `now`.
pub record Kept {S : Type 0} (at : S → Contents) (reaches : S → S → Type 0) (begin now : S)
    (key bytes : Text) : Type 0 where
  pub moment : S
  pub since : reaches begin moment
  pub until : reaches moment now
  pub tag : Text
  pub stored : at moment key ≡ some (bytes, tag)

module _ {S : Type 0} (env : Env S) (lib : Sqlite) (hash : Text → Text) (at : S → Contents)
    (reaches : S → S → Type 0) (law : IsLawful env.store hash at reaches) where
  pub upload_file-Kept :
      (steady : IsSteady env reaches) (key bytes : Text) (s t : S) (size : ℤ)
      → upload_file env key bytes s ≡ (ok size, t)
      → Kept at reaches s t key bytes × (size ≡ pos (length bytes))
  unfolding upload_file
  upload_file-Kept steady key bytes s t size h =
      let moved =
        ran_out env reaches steady (upload_file env key bytes) s t
          (λ Q kept. file_lem env lib Q kept key bytes) h in
      by_bind _ _ s h λ v s0 ready more. by_bind _ _ s0 more λ tag u wrote rest.
        let (p, later, met, is) = law.put_ok key bytes no_condition s0 tag u wrote in
        let (same, stop) = pure-eq-ok _ u rest in
        let here : at u key ≡ some (bytes, tag) = ground (arith, is key) in
        (
          record {
            moment = t;
            since = moved;
            until = law.stay t;
            tag = tag;
            stored = subst (λ x. at x key ≡ some (bytes, tag)) stop here;
          },
          sym same,
        )

  pub Kept-between :
      (begin begin' now now' : S) (key bytes : Text)
      → reaches begin begin'
      → reaches now now'
      → Kept at reaches begin' now key bytes
      → Kept at reaches begin now' key bytes
  Kept-between begin begin' now now' key bytes b n k = record {
    moment = k.moment;
    since = law.go_on begin begin' k.moment b k.since;
    until = law.go_on k.moment now now' k.until n;
    tag = k.tag;
    stored = k.stored;
  }

  pub validate_sqlite_file-ok :
      (src : Result Text) (s t : S) (bytes : Text)
      → validate_sqlite_file env lib src s ≡ (ok bytes, t)
      → src ≡ ok bytes
  unfolding validate_sqlite_file
  validate_sqlite_file-ok src s t bytes h = by_bind _ _ s h λ b t1 read rest.
      by_bind _ _ t1 rest λ c t2 _ rest1. by_bind _ _ t2 rest1 λ r t3 _ rest2.
        by_bind _ _ t3 rest2
          λ u t4 _ rest3. (lift-eq-ok _ s read).0 ∙ ap ok (pure-eq-ok _ t4 rest3).0
