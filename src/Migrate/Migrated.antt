-- ===== src/Migrate/Migrated.antt =====
-- A migration replaces the manifest that it started from, and a run of them ends at the newest
-- version.
use s3db.Base.{
  ℕ, zero, suc, ℤ, pos, negsuc, int_eq, get_elem?, ◌≤ℤ◌, Text, ◌≡◌, refl, sym, ◌∙◌, ap, subst, Bool,
  ◌==◌, lt_int, Option, none, some, List, [], ◌∷◌, arith,
}
use s3db.Result.{Result, ok}
use s3db.Result.Exec.{Exec, pure, raise, modify, by_bind, by_if, pure-eq-ok, lift-eq-ok}
use s3db.Blob.{IsLawful, IsTag, Contents}
use s3db.Env.{Env}
use s3db.Sqlite.{Sqlite}
use s3db.Manifest.{Manifest, BlobRef}
use s3db.Manifest.Io.Atomic.{Stands, Swapped, load_manifest-Stands, put_manifest-Swapped}
use s3db.Client.{Client, CommitConfig, manifest_key, outside}
use s3db.Sync.{sync_to_manifest}
use s3db.Sync.Frame.{sync_to_manifest-Keeps}
use s3db.Env.Kept.{IsSteady}
use s3db.Commit.Moves.{ran}
use s3db.Compact.Stored.{Stored, Stored-later, upload_local-Stored}
use s3db.Migrate.Moves.{prepare_migration-Keeps}
use s3db.Migrate.{
  Migration, migrated, swap_migrated, upload_migrated, prepare_migration, apply_migration, run_next,
  migrate_from, migrate_loop, run_migrations, max_version, check_versions,
}

module _ {S : Type 0} (env : Env S) (lib : Sqlite) (cfg : CommitConfig) (hash : Text → Text)
    (at : S → Contents) (reaches : S → S → Type 0) (law : IsLawful env.store hash at reaches) where
  open lib use {Conn}

  -- The store's manifest was `m` at some moment after `begin`; now it is the client's, which has
  -- the number of `m`, the new schema version, an empty log, and a snapshot that was stored in
  -- between.
  pub record Migrated (begin : S) (m : Manifest) (version : ℤ) (c : Client S Conn) : Type 0 where
    pub moment : S
    pub since : reaches begin moment
    pub swapped :
        Swapped env hash at (manifest_key cfg.prefix) m c.st.manifest c.st.etag moment c.out
    pub seq : c.st.manifest.seq ≡ m.seq
    pub schema : c.st.manifest.schema_version ≡ version
    pub log : c.st.manifest.log ≡ []
    pub snapshot_seq : c.st.manifest.snapshot.seq ≡ m.seq
    pub synced : c.st.local_seq ≡ m.seq
    pub recorded : c.st.snapshot_key ≡ c.st.manifest.snapshot.key
    pub stored : Stored at reaches begin moment c.st.manifest.snapshot

  module _ (tags : IsTag hash) (steady : IsSteady env reaches) (begin : S) where
    swap_migrated-Migrated :
        (m : Manifest) (etag : Text) (version : ℤ) (key : Text) (size : ℤ) (c c' : Client S Conn)
        → Stands env hash at m etag
        → reaches begin c.out
        → Stored at reaches begin c.out (record { key = key; seq = m.seq; size = size })
        → swap_migrated env lib cfg m etag version key size c ≡ (ok tt, c')
        → Migrated begin m version c'
    unfolding swap_migrated outside modify
    swap_migrated-Migrated m etag version key size c c' stands since stored h =
        by_bind _ _ c h λ (new, tag) t put rest.
          let (p, later, swapped, stamped) =
            put_manifest-Swapped env hash at reaches law tags (manifest_key cfg.prefix) m
              (migrated env lib cfg m version key size) etag c.out new tag t.out stands
              (λ i. ((put i).0, (put i).1.out)) in
          let end = ap (λ q. q.1) rest in
          let b : BlobRef = record { key = key; seq = m.seq; size = size } in
          let kept = Stored-later env hash at reaches law begin c.out p b later stored in
          subst (Migrated begin m version) end (record {
            moment = p;
            since = law.go_on begin c.out p since later;
            swapped = rw stamped swapped;
            seq = ap (λ n. n.seq) stamped;
            schema = ap (λ n. n.schema_version) stamped;
            log = ap (λ n. n.log) stamped;
            snapshot_seq = ap (λ n. n.snapshot.seq) stamped;
            synced = refl;
            recorded = ap (λ n. n.snapshot.key) (sym stamped);
            stored = rw stamped kept;
          })

    upload_migrated-Stored :
        (version : ℤ) (c c' : Client S Conn) (key : Text) (size seq : ℤ)
        → reaches begin c'.out
        → upload_migrated env lib cfg version c ≡ (ok (key, size), c')
        → Stored at reaches begin c'.out (record { key = key; seq = seq; size = size })
    unfolding upload_migrated
    upload_migrated-Stored version c c' key size seq since h = by_bind _ _ c h λ d t _ rest.
        by_bind _ _ t rest λ u t1 _ rest1. by_bind _ _ t1 rest1 λ uuid t2 _ rest2.
          by_bind _ _ t2 rest2 λ n t3 up rest3.
            let (same, stop) = pure-eq-ok _ t3 rest3 in
            subst (λ k. Stored at reaches begin c'.out (record { key = k; seq = seq; size = size }))
              (ap (λ q. q.0) same)
              (upload_local-Stored env hash at reaches law lib _ begin t2 c' size seq since
                (up ∙ (λ i. (ok (same i).1, stop i))))

    prepare_migration-Stored :
        (m : Manifest) (etag : Text) (mig : Migration Conn) (force_refresh : Bool)
        (c c' : Client S Conn) (key : Text) (size seq : ℤ)
        → reaches begin c'.out
        → prepare_migration env lib cfg m etag mig force_refresh c ≡ (ok (key, size), c')
        → Stored at reaches begin c'.out (record { key = key; seq = seq; size = size })
    unfolding prepare_migration
    prepare_migration-Stored m etag mig force_refresh c c' key size seq since h =
        by_bind _ _ c h λ u t _ rest. by_bind _ _ t rest λ u1 t1 _ rest1.
          by_bind _ _ t1 rest1 λ u2 t2 _ rest2. by_bind _ _ t2 rest2 λ u3 t3 _ rest3.
            by_bind _ _ t3 rest3
              λ u4 t4 _ rest4. upload_migrated-Stored mig.version t4 c' key size seq since rest4

  -- In a lawful store with usable tags, when a migration from a manifest with its tag returns
  -- nil, the store's manifest was that one at a moment after the call, and was replaced by one of
  -- the same number, with the migration's schema version, an empty log, and a snapshot of the
  -- same number that was stored between the call and that moment under its key with its size; the
  -- client's manifest, tag, snapshot key and local number are the new ones.
  pub apply_migration-Migrated :
      IsTag hash
      → IsSteady env reaches
      → (m : Manifest) (etag : Text) (mig : Migration Conn) (force_refresh : Bool)
        (c c' : Client S Conn)
      → Stands env hash at m etag
      → apply_migration env lib cfg m etag mig force_refresh c ≡ (ok tt, c')
      → Migrated c.out m mig.version c'
  unfolding apply_migration
  apply_migration-Migrated tags steady m etag mig force_refresh c c' stands h =
      by_bind _ _ c h λ (key, size) t up rest.
        let done : prepare_migration env lib cfg m etag mig force_refresh c ≡ (ok (key, size), t) =
          up in
        let since =
          ran env lib reaches steady (prepare_migration env lib cfg m etag mig force_refresh) c t
            (λ Q kept. prepare_migration-Keeps env lib cfg Q kept m etag mig force_refresh) done in
        swap_migrated-Migrated tags steady c.out m etag mig.version key size t c' stands since
          (prepare_migration-Stored tags steady c.out m etag mig force_refresh c t key size m.seq
            since done)
          rest

  -- The client's manifest has the newest schema version, and is one that its tag stands for.
  abbrev pub IsUpToDate : List (Migration Conn) → Client S Conn → Type 0
  IsUpToDate migs c =
      (c.st.manifest.schema_version ≡ max_version (pos 0) migs)
      × Stands env hash at c.st.manifest c.st.etag

  module _ (migs : List (Migration Conn)) where
    module _ (again : ℤ → Exec (Client S Conn) (Option (Unit {0})))
        (ih : (last : ℤ) (c c' : Client S Conn)
          → again last c ≡ (ok (some tt), c')
          → IsUpToDate migs c') where
      run_next-IsUpToDate :
          (last : ℤ) (m : Manifest) (etag : Text) (o : Option (Migration Conn))
          (c c' : Client S Conn)
          → run_next env lib cfg migs again last m etag o c ≡ (ok (some tt), c')
          → IsUpToDate migs c'
      unfolding run_next raise
      run_next-IsUpToDate last m etag none c c' h =
          cc (ap (λ (q : Result (Option (Unit {0})) × Client S Conn). q.0) h)
      run_next-IsUpToDate last m etag (some mig) c c' h =
          by_bind _ _ c h
            λ r t _ rest. by_bind _ _ t rest λ u t1 _ rest1. ih mig.version t1 c' rest1

      synced-IsUpToDate :
          (m : Manifest) (etag : Text) (c : Client S Conn)
          → m.schema_version ≡ max_version (pos 0) migs
          → Stands env hash at m etag
          → IsUpToDate migs
              (sync_to_manifest env lib
                (record c { st = record c.st { manifest = m; etag = etag } })).1
      synced-IsUpToDate m etag c newest stands =
          (sync_to_manifest-Keeps env lib (λ n tag.
              (n.schema_version ≡ max_version (pos 0) migs) × Stands env hash at n tag)).at
            _ (newest, stands)

      migrate_from-IsUpToDate :
          (last : ℤ) (m : Manifest) (etag : Text) (c c' : Client S Conn)
          → Stands env hash at m etag
          → migrate_from env lib cfg migs again last (m, etag) c ≡ (ok (some tt), c')
          → IsUpToDate migs c'
      unfolding migrate_from raise modify
      migrate_from-IsUpToDate last m etag c c' stands h =
          by_if (lt_int (max_version (pos 0) migs) m.schema_version) _ _ c h
            (λ ahead run. cc (ap (λ (q : Result (Option (Unit {0})) × Client S Conn). q.0) run))
            (λ known run.
              by_if (m.schema_version == max_version (pos 0) migs) _ _ c run
                (λ newest run1. by_bind _ _ c run1 λ u t set rest.
                  by_bind _ _ t rest λ v t1 synced rest1.
                    let there = synced-IsUpToDate m etag c (ground (arith, newest)) stands in
                    let end : (sync_to_manifest env lib t).1 ≡ c' =
                      ap (λ q. q.1) synced ∙ (pure-eq-ok _ t1 rest1).1 in
                    subst (IsUpToDate migs)
                      (ap (λ x. (sync_to_manifest env lib x).1) (ap (λ q. q.1) set) ∙ end) there)
                (λ older run1. run_next-IsUpToDate last m etag _ c c' run1))

    migrate_loop-IsUpToDate :
        (n : ℕ) (last : ℤ) (c c' : Client S Conn)
        → migrate_loop env lib cfg migs n last c ≡ (ok (some tt), c')
        → IsUpToDate migs c'
    unfolding migrate_loop outside pure
    migrate_loop-IsUpToDate zero last c c' h =
        cc (ap (λ (q : Result (Option (Unit {0})) × Client S Conn). q.0) h)
    migrate_loop-IsUpToDate (suc n) last c c' h = by_bind _ _ c h λ (m, etag) t got rest.
        migrate_from-IsUpToDate (migrate_loop env lib cfg migs n) (migrate_loop-IsUpToDate n) last m
          etag t c'
          (load_manifest-Stands env hash at reaches law (manifest_key cfg.prefix) c.out m etag t.out
            (λ i. ((got i).0, (got i).1.out))).0
          rest

    below_cons :
        (m : Migration Conn) (ms : List (Migration Conn)) (top : ℤ)
        → m.version ≤ℤ top
        → ((i : ℕ) (mig : Migration Conn) → get_elem? ms i ≡ some mig → mig.version ≤ℤ top)
        → (i : ℕ) (mig : Migration Conn) → get_elem? (m ∷ ms) i ≡ some mig
        → mig.version ≤ℤ top
    below_cons m ms top low all zero mig g =
        subst
          (λ (o : Option (Migration Conn)). elim o [ none ↦ Unit {0} | some x ↦ x.version ≤ℤ top ])
          g low
    below_cons m ms top low all (suc i) mig g = all i mig g

    max_version-bounds :
        (last : ℤ) (ms : List (Migration Conn))
        → check_versions last ms ≡ ok tt
        → (last ≤ℤ max_version last ms)
          × ((i : ℕ) (mig : Migration Conn)
              → get_elem? ms i ≡ some mig
              → mig.version ≤ℤ max_version last ms)
    unfolding check_versions max_version
    max_version-bounds last [] h = (ground arith, λ i mig g. cc)
    max_version-bounds last (m ∷ ms) h =
        let (low, all) = max_version-bounds m.version ms (ground arith) in
        (ground arith, below_cons m ms _ low all)

    -- In a lawful store, when `runMigrations` returns nil the client's manifest is one that its
    -- tag stands for, its schema version is that of the last migration, or 0 without any, and no
    -- migration has a higher version.
    pub run_migrations-IsUpToDate :
        (rounds : ℕ) (c c' : Client S Conn)
        → run_migrations env lib cfg migs rounds c ≡ (ok (some tt), c')
        → IsUpToDate migs c'
          × ((i : ℕ) (mig : Migration Conn)
              → get_elem? migs i ≡ some mig
              → mig.version ≤ℤ c'.st.manifest.schema_version)
    unfolding run_migrations
    run_migrations-IsUpToDate rounds c c' h = by_bind _ _ c h λ u t checked rest.
        let done = migrate_loop-IsUpToDate rounds (negsuc 0) t c' rest in
        let all = (max_version-bounds (pos 0) migs (lift-eq-ok _ c checked).0).1 in
        (done, λ i mig g. subst (λ v. mig.version ≤ℤ v) (sym done.0) (all i mig g))
