-- ===== src/Client.antt =====
-- The state of one client: `commitState` and `commitConfig` of commit.go, with the local file.
use s3db.Base.{ℕ, ℤ, Text, codes, ◌++◌, Bool, ◌≡◌, ap, sym}
use s3db.Errors.{panic}
use s3db.Result.{Result, ok, err}
use s3db.Result.Exec.{Exec}
use s3db.Manifest.{Manifest}

-- `*sqlite.Conn`: nil, open, or a connection that was closed and is still pointed at.
pub data ConnRef (C : Type 0) : Type 0 where
  nil closed : ConnRef C
  live : C → ConnRef C

-- `commitConfig`, without the store
pub record CommitConfig : Type 0 where
  pub prefix : Text
  pub max_retries : ℕ
  pub schema_ver : ℤ

-- `prefix + "manifest.json"`
abbrev pub manifest_key : Text → Text
manifest_key prefix = prefix ++ codes "manifest.json"

-- `commitState`
pub record CommitState (C : Type 0) : Type 0 where
  pub conn : ConnRef C
  pub local_seq : ℤ
  pub snapshot_key : Text
  pub manifest : Manifest
  pub etag : Text

-- `disk` is the file at `localPath` while no connection is open on it, and `saved` says that a
-- savepoint is open (`release != nil`).
pub record Client (S C : Type 0) : Type 0 where
  pub out : S
  pub st : CommitState C
  pub disk : Text
  pub saved : Bool

module _ {S C A : Type 0} where
  -- A call to the outside.
  unfoldable pub outside : Exec S A → Exec (Client S C) A
  outside m c = let (r, out) = m c.out in (r, record c { out = out })

  abbrev pub on_ref : ConnRef C → Exec C A → Client S C → Result A × Client S C
  on_ref nil m c = (err panic, c)
  on_ref closed m c = (err panic, c)
  on_ref (live conn) m c =
      let (r, conn') = m conn in (r, record c { st = record c.st { conn = live conn' } })

  -- A call on the connection; without an open one it panics.
  unfoldable pub on_conn : Exec C A → Exec (Client S C) A
  on_conn m c = on_ref c.st.conn m c

  on_ref-eq-ok :
      (ref : ConnRef C) (m : Exec C A) (c : Client S C) {a : A} {c' : Client S C}
      → on_ref ref m c ≡ (ok a, c')
      → (x : C) × (y : C) × (m x ≡ (ok a, y)) × (c'.out ≡ c.out)
  on_ref-eq-ok nil m c h = cc
  on_ref-eq-ok closed m c h = cc
  on_ref-eq-ok (live x) m c h = (x, (m x).1, λ i. ((h i).0, (m x).1), ap (λ q. q.1.out) (sym h))

  -- A call on the connection that succeeded ran on an open one.
  pub on_conn-eq-ok :
      (m : Exec C A) (c : Client S C) {a : A} {c' : Client S C}
      → on_conn m c ≡ (ok a, c')
      → (x : C) × (y : C) × (m x ≡ (ok a, y)) × (c'.out ≡ c.out)
  unfolding on_conn
  on_conn-eq-ok m c h = on_ref-eq-ok c.st.conn m c h
