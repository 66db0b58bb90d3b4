-- ===== src/Opening/Ready.antt =====
-- A handle that `Open` returns has the schema version that its operations expect.
use s3db.Base.{
  ℕ, ℤ, pos, lt_int, Text, ◌≡◌, refl, sym, ◌∙◌, ap, subst, Bool, true, false, Option, none, some,
  List, [], ◌∷◌, arith, if◌then◌else◌,
}
use s3db.Result.{Result, ok, err}
use s3db.Result.Exec.{by_bind, lift-eq-ok}
use s3db.Blob.{IsLawful, Contents}
use s3db.Env.{Env}
use s3db.Sqlite.{Sqlite}
use s3db.Manifest.Io.Atomic.{Stands}
use s3db.Client.{CommitConfig, Client}
use s3db.Migrate.{Migration, check_versions, max_version, run_migrations}
use s3db.Migrate.Migrated.{run_migrations-IsUpToDate}
use s3db.Settings.{Options, highest, expected_schema}
use s3db.Opening.{config, fresh, migrated, migrate, open_db}

-- In versions that increase, the highest is the last.
highest-max_version :
    {C : Type 0} (last : ℤ) (migs : List (Migration C))
    → check_versions last migs ≡ ok tt
    → highest last migs ≡ max_version last migs
unfolding highest max_version check_versions
highest-max_version last [] h = refl
highest-max_version last (m ∷ migs) h =
    let above : lt_int last m.version ≡ true = ground (arith, h) in
    let rest : check_versions m.version migs ≡ ok tt = ground (arith, h) in
    rw above (highest-max_version m.version migs rest)

if_false : {A : Type 0} (b : Bool) (x y : A) → b ≡ false → (if b then x else y) ≡ y
if_false true x y h = cc h
if_false false x y h = refl

module _ {S : Type 0} (env : Env S) (lib : Sqlite) {H : Type 0} (o : Options lib.Conn H)
    (hash : Text → Text) (at : S → Contents) (reaches : S → S → Type 0)
    (law : IsLawful env.store hash at reaches) where
  open lib use {Conn}

  -- The client's manifest is one that its tag stands for, of the version that `cfg` expects.
  abbrev pub IsReady : CommitConfig → Client S Conn → Type 0
  IsReady cfg c =
      (c.st.manifest.schema_version ≡ cfg.schema_ver) × Stands env hash at c.st.manifest c.st.etag

  migrated-ok :
      (remove : S → S) (cfg cfg' : CommitConfig) (r : Result (Option (Unit {0})))
      (c c' : Client S Conn) (s' : S)
      → migrated env lib o remove cfg r c ≡ (ok (some (cfg', c')), s')
      → (r ≡ ok (some tt)) × (cfg ≡ cfg') × (c ≡ c') × (c.out ≡ s')
  unfolding migrated
  migrated-ok remove cfg cfg' (ok (some _)) c c' s' h =
      let both : ◌≡◌ {A = CommitConfig × Client S Conn} (cfg, c) (cfg', c') =
        cc (ap (λ (q : Result (Option (CommitConfig × Client S Conn)) × S). q.0) h) in
      (refl, ap (λ q. q.0) both, ap (λ q. q.1) both, ap (λ q. q.1) h)
  migrated-ok remove cfg cfg' (ok none) c c' s' h = cc (ap (λ q. q.0) h)
  migrated-ok remove cfg cfg' (err e) c c' s' h = cc (ap (λ q. q.0) h)

  versions-ok :
      (cfg : CommitConfig) (migs : List (Migration Conn)) (rounds : ℕ) (c c' : Client S Conn)
      → run_migrations env lib cfg migs rounds c ≡ (ok (some tt), c')
      → check_versions (pos 0) migs ≡ ok tt
  unfolding run_migrations
  versions-ok cfg migs rounds c c' h =
      by_bind _ _ c h λ u t checked rest. (lift-eq-ok _ c checked).0

  -- In a lawful store, a handle that `Open` returns without `WithSchemaUnchecked` has a manifest
  -- that its tag stands for, of the schema version that the operations of the handle expect.
  pub open_db-IsReady :
      (prefix : Text) (temp : Result Text) (remove : S → S) (empty : Result Text) (rounds : ℕ)
      (s s' : S) (cfg : CommitConfig) (c : Client S Conn)
      → o.schema_unchecked ≡ false
      → open_db env lib o prefix temp remove empty rounds s ≡ (ok (some (cfg, c)), s')
      → IsReady cfg c × (c.out ≡ s')
  unfolding open_db migrate expected_schema
  open_db-IsReady prefix temp remove empty rounds s s' cfg c checked h =
      by_bind _ _ s h λ (m, etag) t got r1. by_bind _ _ t r1 λ path t1 made r2.
        by_bind _ _ t1 r2 λ file t2 down r3. by_bind _ _ t2 r3 λ conn t3 opened r4.
          by_bind _ _ t3 r4 λ (seq, up) t4 applied r5.
            let cfg0 = config env lib o prefix m in
            let start = fresh env lib o m etag seq up t4 in
            let ran = run_migrations env lib cfg0 o.migrations rounds start in
            let end : migrated env lib o remove cfg0 ran.0 ran.1 ≡ (ok (some (cfg, c)), s') =
              sym (if_false o.schema_unchecked _ _ checked) ∙ r5 in
            let (done, same, is, out) = migrated-ok remove cfg0 cfg ran.0 ran.1 c s' end in
            let full : ran ≡ (ok (some tt), ran.1) = λ i. (done i, ran.1) in
            let ready =
              (run_migrations-IsUpToDate env lib cfg0 hash at reaches law o.migrations rounds start
                ran.1 full).0 in
            let versions = versions-ok cfg0 o.migrations rounds start ran.1 full in
            let expected : cfg0.schema_ver ≡ max_version (pos 0) o.migrations =
              if_false o.schema_unchecked m.schema_version (highest (pos 0) o.migrations) checked
              ∙ highest-max_version (pos 0) o.migrations versions in
            (
              subst (λ k. IsReady k c) same
                  (subst (IsReady cfg0) is (ready.0 ∙ sym expected, ready.1)),
              ap (λ (x : Client S Conn). x.out) (sym is) ∙ out,
            )
