-- ===== src/Env/Quiet/Manifests.antt =====
-- The manifest and whole files in a store at rest.
use s3db.Base.{◌∷◌, []}
use s3db.Base.{
  pos, ◌≡◌, ◌≢◌, refl, ◌∙◌, Text, Option, some, none, true, false, ◌&&◌, not, is_empty, length,
  text_eq, arith,
}
use s3db.Result.{ok}
use s3db.Blob.{Contents, IsTag, PutCondition, if_match, no_condition, meets, written}
use s3db.Env.{Env}
use s3db.Env.{open_file, stat_file, create_temp, sync_file, close_file, rename_file}
use s3db.Env.Quiet.{
  runs_then, file_calls-runs, Runs, IsQuiet, runs_read, runs_step, runs_pure, runs_bind, runs_as,
}
use s3db.Manifest.{Manifest, validate}
use s3db.Manifest.Io.{load_manifest, put_manifest, stamp}
use s3db.Compact.{upload_file}
use s3db.Sync.{download_snapshot, fetch_snapshot}
use s3db.Sync.Whole.{Serves, fetch_snapshot-whole}

pub no_condition-meets : (o : Option (Text × Text)) → meets no_condition o ≡ true
no_condition-meets none = refl
no_condition-meets (some o) = refl

-- The tag of what is stored meets its own condition.
pub if_match-meets :
    {hash : Text → Text} (tags : IsTag hash) (body tag : Text)
    → tag ≡ hash body
    → meets (if_match tag) (some (body, tag)) ≡ true
if_match-meets tags body tag e = rw e (ground (arith, tags.plain body))

pub written-other : (c : Contents) (k j : Text) (o : Text × Text) → k ≢ j → written c k o j ≡ c j
written-other c k j o h = ground arith

pub written_self : (c : Contents) (k : Text) (o : Text × Text) → written c k o k ≡ some o
written_self c k o = ground arith

pub written-same :
    (c d : Contents) (k : Text) (o : Text × Text)
    → ((j : Text) → c j ≡ d j)
    → (j : Text) → written c k o j ≡ written d k o j
written-same c d k o same j = rw (same j) refl

module _ {S : Type 0} (env : Env S) (hash : Text → Text) (at : S → Contents) (rest : S → Type 0)
    (quiet : IsQuiet env hash at rest) where
  -- What `putManifest` writes can be read again.
  pub record Holds (key : Text) (m : Manifest) (tag : Text) (s : S) : Type 0 where
    pub body : Text
    pub stored : at s key ≡ some (body, tag)
    pub decodes : env.codec.decode body ≡ some m
    pub accepted : validate m ≡ ok tt

  pub Holds-as :
      (key : Text) (m : Manifest) (tag : Text) (s t : S)
      → at t key ≡ at s key
      → Holds key m tag s
      → Holds key m tag t
  Holds-as key m tag s t same h = record {
    body = h.body;
    stored = same ∙ h.stored;
    decodes = h.decodes;
    accepted = h.accepted;
  }

  pub load_manifest-runs :
      (key : Text) (m : Manifest) (tag : Text) (s : S)
      → rest s
      → Holds key m tag s
      → Runs at rest (load_manifest env key) s (m, tag) (at s)
  unfolding load_manifest
  load_manifest-runs key m tag s r h =
      runs_read at rest _ _ s (h.body, tag) (m, tag) (quiet.get key h.body tag s r h.stored)
        λ t rt at_t.
          runs_step at rest _ _ t m (m, tag) (rw (h.decodes))
            (runs_step at rest _ _ t tt (m, tag) h.accepted (runs_pure at rest (m, tag) t rt))

  -- A put whose condition is met makes the stamped manifest stand.
  pub put_manifest-runs :
      (key : Text) (m : Manifest) (body : Text) (cond : PutCondition) (s : S)
      → rest s
      → validate (stamp m) ≡ ok tt
      → env.codec.encode (stamp m) ≡ ok body
      → (not (is_empty cond.if_match) && cond.if_none_match) ≡ false
      → meets cond (at s key) ≡ true
      → Runs at rest
          (put_manifest env key m cond)
          s
          (stamp m, hash body)
          (written (at s) key (body, hash body))
  unfolding put_manifest
  put_manifest-runs key m body cond s r valid coded one met = runs_step at rest _ _ s tt _ valid (
      runs_step at rest _ _ s body _ coded (
        runs_bind at rest _ _ s (hash body) _ (quiet.put key body cond s r one met)
          λ t rt at_t. runs_as at rest _ t _ (runs_pure at rest (stamp m, hash body) t rt) at_t))

  -- A put under the tag of the manifest that stands there.
  pub put_manifest-matched :
      IsTag hash
      → (key : Text) (old m : Manifest) (body tag : Text) (s : S) → rest s
      → Holds key old tag s
      → validate (stamp m) ≡ ok tt
      → env.codec.encode (stamp m) ≡ ok body
      → Runs at rest
          (put_manifest env key m (if_match tag))
          s
          (stamp m, hash body)
          (written (at s) key (body, hash body))
  put_manifest-matched tags key old m body tag s r h valid coded =
      let tag_of = quiet.tag_hash s key h.body tag r h.stored in
      put_manifest-runs key m body (if_match tag) s r valid coded (ground arith)
        (rw (h.stored) (if_match-meets tags h.body tag tag_of))

  pub upload_file-runs :
      (key bytes : Text) (s : S)
      → rest s
      → Runs at rest
          (upload_file env key bytes)
          s
          (pos (length bytes))
          (written (at s) key (bytes, hash bytes))
  unfolding upload_file
  upload_file-runs key bytes s r =
      let ready = file_calls-runs env hash at rest quiet (open_file ∷ stat_file ∷ []) s r in
      let put =
        quiet.put key bytes no_condition ready.end ready.rests refl
          (no_condition-meets (at ready.end key)) in
      runs_then at rest _ _ s tt _ ready (
        runs_bind at rest _ _ ready.end (hash bytes) _ put λ t rt at_t.
          runs_as at rest _ t _ (runs_pure at rest (pos (length bytes)) t rt)
            λ j. at_t j ∙ written-same (at ready.end) (at s) key (bytes, hash bytes) ready.holds j)

  pub quiet-Serves :
      (key bytes tag : Text) (s : S)
      → at s key ≡ some (bytes, tag)
      → Serves env key bytes tag (λ u. rest u × ((j : Text) → at u j ≡ at s j))
  quiet-Serves key bytes tag s held = record {
    whole = λ u p.
        let r = quiet.get key bytes tag u p.0 (p.1 key ∙ held) in
        (r.end, (r.rests, λ j. r.holds j ∙ p.1 j), r.run);
    range = λ start end u le lt p.
        let r = quiet.get_range key bytes tag start end u p.0 le lt (p.1 key ∙ held) in
        (r.end, (r.rests, λ j. r.holds j ∙ p.1 j), r.run);
  }

  pub download_snapshot-runs :
      (key bytes tag : Text) (s : S)
      → rest s
      → at s key ≡ some (bytes, tag)
      → Runs at rest (download_snapshot env key (pos (length bytes))) s bytes (at s)
  unfolding download_snapshot
  download_snapshot-runs key bytes tag s r held =
      let ready = file_calls-runs env hash at rest quiet (create_temp ∷ []) s r in
      let (t, p, e) =
        fetch_snapshot-whole env key bytes tag (λ u. rest u × ((j : Text) → at u j ≡ at s j))
          (quiet-Serves key bytes tag s held) ready.end (ready.rests, ready.holds) in
      let fetched : Runs at rest (fetch_snapshot env key (pos (length bytes))) ready.end bytes
          (at s) =
        record { end = t; rests = p.0; holds = p.1; run = e } in
      let ends = sync_file ∷ close_file ∷ rename_file ∷ [] in
      runs_then at rest _ _ s tt _ ready (
        runs_then at rest _ _ ready.end bytes _ fetched (
          runs_bind at rest _ _ t tt _ (file_calls-runs env hash at rest quiet ends t p.0)
            λ u ru at_u. runs_as at rest _ u _ (runs_pure at rest bytes u ru) λ j. at_u j ∙ p.1 j))
