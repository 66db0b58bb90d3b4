-- ===== src/Compact/Found.antt =====
-- The moment at which a refresh found the manifest that the client has after it.
use s3db.Base.{false, Text, ◌≡◌, ◌∙◌, sym, ap, subst}
use s3db.Result.{ok}
use s3db.Result.Exec.{modify, by_bind}
use s3db.Blob.{IsLawful, Contents}
use s3db.Env.{Env}
use s3db.Env.Kept.{IsSteady}
use s3db.Sqlite.{Sqlite}
use s3db.Manifest.{Manifest}
use s3db.Manifest.Io.{load_manifest}
use s3db.Manifest.Io.Atomic.{Held, load_manifest-Held}
use s3db.Client.{Client, CommitConfig, manifest_key, outside}
use s3db.Sync.{refresh_manifest, sync_to_manifest}
use s3db.Sync.Frame
use s3db.Sync.Frame.{OfManifest}
use s3db.Sync.Reads.{load_manifest-Keeps, outside-Keeps, sync_to_manifest-Keeps}
use s3db.Commit.Moves.{ran}
use s3db.Compact.{compact_once}

module _ {S : Type 0} (env : Env S) (lib : Sqlite) (cfg : CommitConfig) (hash : Text → Text)
    (at : S → Contents) (reaches : S → S → Type 0) (law : IsLawful env.store hash at reaches) where
  open lib use {Conn}

  -- At a moment between `begin` and `now` the store's manifest and its tag were these.
  pub record Found (begin now : S) (m : Manifest) (etag : Text) : Type 0 where
    pub moment : S
    pub since : reaches begin moment
    pub until : reaches moment now
    pub held : Held env hash at (manifest_key cfg.prefix) m etag moment

  pub refresh_manifest-Found :
      (steady : IsSteady env reaches) (c c' : Client S Conn)
      → refresh_manifest env lib cfg c ≡ (ok tt, c')
      → Found c.out c'.out c'.st.manifest c'.st.etag
  unfolding refresh_manifest modify outside s3db.Result.Exec.lift
  refresh_manifest-Found steady c c' h = by_bind _ _ c h λ (m, etag) t got rest.
      by_bind _ _ t rest λ u t1 checked rest1. by_bind _ _ t1 rest1 λ v t2 set rest2.
        let key = manifest_key cfg.prefix in
        let loaded : load_manifest env key c.out ≡ (ok (m, etag), t.out) =
          λ i. ((got i).0, (got i).1.out) in
        let P = λ (n : Manifest) (tag : Text). Held env hash at key n tag t.out in
        let there : OfManifest P t2 =
          subst (OfManifest P) (ap (λ q. q.1) set)
            (load_manifest-Held env hash at reaches law key c.out m etag t.out loaded).0 in
        let same : t.out ≡ t2.out = ap (λ q. q.1.out) checked ∙ ap (λ q. q.1.out) set in
        record {
          moment = t.out;
          since =
              ran env lib reaches steady (outside (load_manifest env key)) c t
                (λ Q kept.
                  outside-Keeps env Q kept.get kept.get_range lib _
                    (load_manifest-Keeps env Q kept.get kept.get_range key))
                got;
          until =
              subst (λ s. reaches s c'.out) (sym same)
                (ran env lib reaches steady (sync_to_manifest env lib) t2 c'
                  (λ Q kept. sync_to_manifest-Keeps env Q kept.get kept.get_range lib) rest2);
          held =
              subst (OfManifest P) (ap (λ q. q.1) rest2)
                ((Frame.sync_to_manifest-Keeps env lib P).at t2 there);
        }

  pub Found-since :
      (begin s now : S) (m : Manifest) (etag : Text)
      → reaches begin s
      → Found s now m etag
      → Found begin now m etag
  Found-since begin s now m etag r f = record {
    moment = f.moment;
    since = law.go_on begin s f.moment r f.since;
    until = f.until;
    held = f.held;
  }

-- The rounds of a compaction that others overtook: each refreshed, and lost the swap.
module _ {S : Type 0} (env : Env S) (lib : Sqlite) (cfg : CommitConfig) where
  open lib use {Conn}

  pub data Overtaken : Client S Conn → Client S Conn → Type 0 where
    so_far : (c : Client S Conn) → Overtaken c c
    round :
        (c t u d : Client S Conn)
        → refresh_manifest env lib cfg c ≡ (ok tt, t)
        → compact_once env lib cfg t ≡ (ok false, u)
        → Overtaken u d
        → Overtaken c d
