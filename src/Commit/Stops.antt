-- ===== src/Commit/Stops.antt =====
-- `doUpdate` when a call of its first attempt fails, or when there is nothing to commit.
use s3db.Base.{ℕ, suc, ◌≡◌, refl, sym, subst, Text, some, Bool, true, false, []}
use s3db.Errors.{Error, is_precondition_failed}
use s3db.Result.{ok, err}
use s3db.Result.Exec.{Exec, ◌>>=◌}
use s3db.Blob.{if_match, no_condition}
use s3db.Env.{Env}
use s3db.Sqlite.{Sqlite}
use s3db.Session.{capture}
use s3db.Manifest.{append_log, epoch}
use s3db.Manifest.Io.{put_manifest}
use s3db.Client.{live, CommitConfig, CommitState, manifest_key, Client, outside, on_conn}
use s3db.Commit.{Attempt, first_attempt, changeset_key, new_entry, update_loop, do_update}

module _ {S : Type 0} (env : Env S) (lib : Sqlite) (cfg : CommitConfig) where
  open lib use {Conn}

  abbrev uploaded : Text → Text → Attempt
  uploaded cs key = record { need_capture = false; cs = cs; cs_key = key; orphan = [] }

  -- What is left of a client's state, but for the connection, the outside and the savepoint.
  abbrev pub client_with : S → Conn → Bool → CommitState Conn → Text → Client S Conn
  client_with s conn saved st disk = record {
    out = s;
    st = record st { conn = live conn };
    disk = disk;
    saved = saved;
  }

  module _ (fn : Exec Conn (Unit {0})) (s : S) (conn : Conn) (st : CommitState Conn) where
    abbrev key_of : Text → Text
    key_of uuid = changeset_key cfg.prefix (epoch st.manifest) uuid

    -- The first attempt ends with this error, having left the database and the outside so: the
    -- caller's function or its capture failed, no name was made, the upload failed, or the swap
    -- of the manifest did, otherwise than by a lost race.
    pub data Stops : Error → Conn → S → Type 0 where
      at_capture :
          (e : Error) (end : Conn)
          → capture lib fn (lib.savepoint conn) ≡ (err e, end)
          → Stops e end s
      at_name :
          (e : Error) (end : Conn) (cs : Text) (t : S)
          → capture lib fn (lib.savepoint conn) ≡ (ok (some cs), end)
          → env.uuid s ≡ (err e, t)
          → Stops e end t
      at_upload :
          (e : Error) (end : Conn) (cs uuid : Text) (t u : S)
          → capture lib fn (lib.savepoint conn) ≡ (ok (some cs), end)
          → env.uuid s ≡ (ok uuid, t)
          → env.store.put (key_of uuid) cs no_condition t ≡ (err e, u)
          → Stops e end u
      at_swap :
          (e : Error) (end : Conn) (cs uuid tag : Text) (t u v : S)
          → capture lib fn (lib.savepoint conn) ≡ (ok (some cs), end)
          → env.uuid s ≡ (ok uuid, t)
          → env.store.put (key_of uuid) cs no_condition t ≡ (ok tag, u)
          → put_manifest env
              (manifest_key cfg.prefix)
              (append_log
                (new_entry env lib cfg (uploaded cs (key_of uuid)) st.manifest)
                st.manifest)
              (if_match st.etag)
              u
            ≡ (err e, v)
          → is_precondition_failed e ≡ false
          → Stops e end v

    abbrev began : Text → Client S Conn
    began disk = client_with s conn false st disk

    attempt-Stops :
        (n : ℕ) (disk : Text) (e : Error) (end : Conn) (t : S)
        → Stops e end t
        → update_loop env lib cfg fn (suc n) 0 first_attempt (began disk)
          ≡ (err e, client_with t end true st disk)
    unfolding update_loop outside on_conn ◌>>=◌
    attempt-Stops n disk e end t (at_capture _ _ captured) = rw captured refl
    attempt-Stops n disk e end t (at_name _ _ cs _ captured unnamed) = rw (captured, unnamed) refl
    attempt-Stops n disk e end t (at_upload _ _ cs uuid u _ captured named lost) =
        rw (captured, named, lost) refl
    attempt-Stops n disk e end t (at_swap _ _ cs uuid tag u v _ captured named wrote lost other) =
        rw (captured, named, wrote, lost, other) refl

    -- When a call of the first attempt fails, otherwise than by a lost race, `doUpdate` returns
    -- its error, the database is rolled back, and the client's manifest, tag and numbers stay.
    pub do_update-rolls_back :
        (n : ℕ) (disk : Text) (e : Error) (end : Conn) (t : S)
        → cfg.max_retries ≡ suc n
        → Stops e end t
        → do_update env lib cfg fn (began disk)
          ≡ (err e, client_with t (lib.rollback end) false st disk)
    unfolding do_update on_conn ◌>>=◌
    do_update-rolls_back n disk e end t some_retries stops =
        let all : update_loop env lib cfg fn cfg.max_retries 0 first_attempt (began disk)
            ≡ (err e, client_with t end true st disk) =
          subst
            (λ k.
              update_loop env lib cfg fn k 0 first_attempt (began disk)
              ≡ (err e, client_with t end true st disk))
            (sym some_retries) (attempt-Stops n disk e end t stops) in
        rw all refl
