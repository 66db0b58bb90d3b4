-- ===== src/Compact/Compacted.antt =====
-- A compaction replaces the manifest by one that stands for the same number, with an empty log.
use s3db.Base.{
  ℕ, zero, suc, ℤ, Text, ◌≡◌, refl, sym, ◌∙◌, ap, subst, ◌⊎◌, inl, inr, true, false, [], arith,
}
use s3db.Result.{Result, ok, err}
use s3db.Result.Exec.{raise, current, ◌>>=◌, by_bind, by_if, pure-eq-ok}
use s3db.Blob.{IsLawful, IsTag, Contents, if_match}
use s3db.Env.{Env}
use s3db.Sqlite.{Sqlite}
use s3db.Manifest.{Manifest, BlobRef, with_snapshot}
use s3db.Manifest.Io.{load_manifest, put_manifest, stamp}
use s3db.Manifest.Io.Atomic.{Stands, Swapped, load_manifest-Stands, put_manifest-Swapped}
use s3db.Client.{Client, CommitConfig, manifest_key, outside}
use s3db.Env.Kept.{IsSteady}
use s3db.Commit.Moves.{ran}
use s3db.Sync.Reads.{refresh_manifest-Keeps}
use s3db.Sync.{refresh_manifest}
use s3db.Compact.Stored.{Stored, Stored-later, upload_snapshot-Stored}
use s3db.Compact.Moves.{upload_snapshot-Keeps, compact_once-Keeps}
use s3db.Compact.Found.{Found, Found-since, refresh_manifest-Found, Overtaken}
use s3db.Compact.Steps
use s3db.Compact.Steps.{refresh_manifest-sets}
use s3db.Compact.{
  after_swap, swap_snapshot, upload_snapshot, compact_once, compact_loop, compact, no_log,
}

module _ {S : Type 0} (env : Env S) (lib : Sqlite) (cfg : CommitConfig) (hash : Text → Text)
    (at : S → Contents) (reaches : S → S → Type 0) (law : IsLawful env.store hash at reaches) where
  open lib use {Conn}

  -- At some moment after `begin` the store's manifest was `before`; now it is the client's, which
  -- has the same number and an empty log, and whose snapshot was stored in between.
  pub record Compacted (begin out : S) (m : Manifest) (etag key : Text) : Type 0 where
    pub before : Manifest
    pub snapshot : BlobRef
    pub moment : S
    pub since : reaches begin moment
    pub swapped : Swapped env hash at (manifest_key cfg.prefix) before m etag moment out
    pub replaced : m ≡ stamp (with_snapshot snapshot before)
    pub at_seq : snapshot.seq ≡ before.seq
    pub recorded : key ≡ snapshot.key
    pub stored : Stored at reaches begin moment snapshot

  abbrev pub IsCompacted : S → Client S Conn → Type 0
  IsCompacted begin c = Compacted begin c.out c.st.manifest c.st.etag c.st.snapshot_key

  abbrev pub IsFound : S → Client S Conn → Type 0
  IsFound begin c = Found env lib cfg hash at reaches law begin c.out c.st.manifest c.st.etag

  -- The compaction that began at `c` ends with a refresh, after rounds that others overtook, and
  -- that refresh found the manifest of `c'` in the store.
  pub record FoundEmpty (begin : S) (c c' : Client S Conn) : Type 0 where
    pub last : Client S Conn
    pub overtaken : Overtaken env lib cfg c last
    pub refreshed : refresh_manifest env lib cfg last ≡ (ok tt, c')
    pub found : IsFound begin c'

  later_FoundEmpty :
      (begin : S) (c t u c' : Client S Conn)
      → refresh_manifest env lib cfg c ≡ (ok tt, t)
      → compact_once env lib cfg t ≡ (ok false, u)
      → FoundEmpty begin u c' ⊎ IsCompacted begin c'
      → FoundEmpty begin c c' ⊎ IsCompacted begin c'
  later_FoundEmpty begin c t u c' fresh once (inl n) = inl (record {
    last = n.last;
    overtaken = Overtaken.round c t u n.last fresh once n.overtaken;
    refreshed = n.refreshed;
    found = n.found;
  })
  later_FoundEmpty begin c t u c' fresh once (inr k) = inr k

  abbrev IsCoherent : Client S Conn → Type 0
  IsCoherent c = Stands env hash at c.st.manifest c.st.etag

  -- the put of the swap, and what follows it
  abbrev put_new : Text → ℤ → Client S Conn → Result (Manifest × Text) × S
  put_new key size c =
      put_manifest env (manifest_key cfg.prefix)
        (with_snapshot (record { key = key; seq = c.st.manifest.seq; size = size }) c.st.manifest)
        (if_match c.st.etag) c.out

  swap_snapshot-eq :
      (key : Text) (size : ℤ) (c : Client S Conn)
      → swap_snapshot env lib cfg key size c
        ≡ after_swap env lib cfg key
            (put_new key size c).0
            (record c { out = (put_new key size c).1 })
  unfolding swap_snapshot outside ◌>>=◌
  swap_snapshot-eq key size c = refl

  after_swap-ok :
      (key : Text) (r : Result (Manifest × Text)) (c c' : Client S Conn)
      → after_swap env lib cfg key r c ≡ (ok true, c')
      → (r ≡ ok (c'.st.manifest, c'.st.etag)) × (c'.out ≡ c.out) × (c'.st.snapshot_key ≡ key)
  unfolding after_swap ◌>>=◌
  after_swap-ok key (ok (m, etag)) c c' h = ground arith
  after_swap-ok key (err e) c c' h = ground arith

  module _ (tags : IsTag hash) (steady : IsSteady env reaches) (begin : S) where
    swap_snapshot-Compacted :
        (key : Text) (size : ℤ) (c c' : Client S Conn)
        → IsCoherent c
        → reaches begin c.out
        → Stored at reaches begin c.out (record { key = key; seq = c.st.manifest.seq; size = size })
        → swap_snapshot env lib cfg key size c ≡ (ok true, c')
        → IsCompacted begin c'
    swap_snapshot-Compacted key size c c' coherent since stored h =
        let (won, out, kept) =
          after_swap-ok key (put_new key size c).0 _ c' (sym (swap_snapshot-eq key size c) ∙ h) in
        let m = c.st.manifest in
        let b : BlobRef = record { key = key; seq = m.seq; size = size } in
        let (p, later, swapped, stamped) =
          put_manifest-Swapped env hash at reaches law tags (manifest_key cfg.prefix) m
            (with_snapshot b m) c.st.etag c.out c'.st.manifest c'.st.etag (put_new key size c).1
            coherent (λ i. (won i, (put_new key size c).1)) in
        record {
          before = m;
          snapshot = b;
          moment = p;
          since = law.go_on begin c.out p since later;
          swapped = rw (out, stamped) swapped;
          replaced = stamped;
          at_seq = refl;
          recorded = kept;
          stored = Stored-later env hash at reaches law begin c.out p b later stored;
        }

    compact_once-Compacted :
        (c c' : Client S Conn)
        → IsCoherent c
        → reaches begin c.out
        → compact_once env lib cfg c ≡ (ok true, c')
        → IsCompacted begin c'
    unfolding compact_once
    compact_once-Compacted c c' coh since h = by_bind _ _ c h λ (key, size) t up rest.
        let uploaded : upload_snapshot env lib cfg c ≡ (ok (key, size), t) = up in
        let moved =
          ran env lib reaches steady (upload_snapshot env lib cfg) c t
            (λ Q kept. upload_snapshot-Keeps env lib Q kept cfg) uploaded in
        swap_snapshot-Compacted key size t c'
          (subst IsCoherent (ap (λ q. q.1) uploaded)
            ((Steps.upload_snapshot-Keeps env lib cfg (Stands env hash at)).at c coh))
          (law.go_on begin c.out t.out since moved)
          (upload_snapshot-Stored env hash at reaches law lib cfg steady begin c t key size _ since
            uploaded)
          rest

    loaded :
        (s : S) (m : Manifest) (etag : Text) (s' : S)
        → load_manifest env (manifest_key cfg.prefix) s ≡ (ok (m, etag), s')
        → Stands env hash at m etag
    loaded s m etag s' h =
        (load_manifest-Stands env hash at reaches law (manifest_key cfg.prefix) s m etag s' h).0

    no_log-eq : (m : Manifest) → no_log env lib cfg m ≡ true → m.log ≡ []
    no_log-eq m h = ground (arith, h)

    emptied : (c : Client S Conn) → IsCompacted begin c → c.st.manifest.log ≡ []
    unfolding with_snapshot
    emptied c k = ap (λ m. m.log) k.replaced

    compact_loop-Compacted :
        (n : ℕ) (c c' : Client S Conn)
        → reaches begin c.out
        → compact_loop env lib cfg n c ≡ (ok tt, c')
        → (c'.st.manifest.log ≡ []) × (FoundEmpty begin c c' ⊎ IsCompacted begin c')
    unfolding compact_loop raise current
    compact_loop-Compacted zero c c' since h = cc (ap (λ q. q.0) h)
    compact_loop-Compacted (suc n) c c' since h = by_bind _ _ c h λ u t fresh rest.
        let coh = refresh_manifest-sets env lib cfg (Stands env hash at) loaded c t fresh in
        let at_t = law.go_on begin c.out t.out since (
          ran env lib reaches steady (refresh_manifest env lib cfg) c t
            (λ Q kept. refresh_manifest-Keeps env Q kept.get kept.get_range lib cfg) fresh) in
        by_bind _ _ t rest λ d t1 seen rest1.
          let same : t ≡ t1 = ap (λ q. q.1) seen in
          let found : t ≡ d = cc (ap (λ (q : Result (Client S Conn) × Client S Conn). q.0) seen) in
          by_if (no_log env lib cfg d.st.manifest) _ _ t1 rest1
            (λ empty run.
              let end : t ≡ c' = same ∙ (pure-eq-ok _ t1 run).1 in
              (
                subst (λ (x : Client S Conn). x.st.manifest.log ≡ []) end
                    (no_log-eq t.st.manifest (rw found empty)),
                inl (record {
                  last = c;
                  overtaken = Overtaken.so_far c;
                  refreshed = fresh ∙ ap (λ x. (ok tt, x)) end;
                  found = subst (IsFound begin) end (
                      Found-since env lib cfg hash at reaches law begin c.out t.out _ _ since
                        (refresh_manifest-Found env lib cfg hash at reaches law steady c t fresh));
                }),
              ))
            (λ full run. by_bind _ _ t1 run λ won t2 once rest2.
              let at_t1 = subst (λ (x : Client S Conn). reaches begin x.out) same at_t in
              by_if won _ _ t2 rest2
                (λ yes stop.
                  let k = subst (IsCompacted begin) (pure-eq-ok _ t2 stop).1 (
                    compact_once-Compacted t1 t2 (subst IsCoherent same coh) at_t1
                      (rw (sym yes) once)) in
                  (emptied c' k, inr k))
                (λ no more.
                  let step =
                    subst (λ (x : Client S Conn). compact_once env lib cfg x ≡ (ok false, t2))
                      (sym same) (subst (λ b. compact_once env lib cfg t1 ≡ (ok b, t2)) no once) in
                  let (empty, rest3) =
                    compact_loop-Compacted n t2 c'
                      (law.go_on begin t1.out t2.out at_t1 (
                        ran env lib reaches steady (compact_once env lib cfg) t1 t2
                          (λ Q kept. compact_once-Keeps env lib Q kept cfg) once))
                      more in
                  (empty, later_FoundEmpty begin c t t2 c' fresh step rest3)))

  -- In a lawful store with usable tags, whose state every call moves along, when `Compact`
  -- returns nil the client's manifest has an empty log. Either, after rounds that refreshed and
  -- lost the swap to others, `Compact` ended with a refresh, and the store held the client's
  -- manifest with its tag at a moment between the call and the return; or one conditional write
  -- replaced the manifest that the store held at a moment after the call by one of the same
  -- number with an empty log and a snapshot that was stored between the call and that moment
  -- under its key with its size, and wrote no other key.
  pub compact-Compacted :
      IsTag hash
      → IsSteady env reaches
      → (c c' : Client S Conn) → compact env lib cfg c ≡ (ok tt, c')
      → (c'.st.manifest.log ≡ []) × (FoundEmpty c.out c c' ⊎ IsCompacted c.out c')
  unfolding compact
  compact-Compacted tags steady c c' h =
      compact_loop-Compacted tags steady c.out cfg.max_retries c c' (steady.stay c.out) h
