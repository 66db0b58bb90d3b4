-- ===== src/Env/Kept.antt =====
-- What every call of a client to the outside keeps, and so what its runs keep.
use s3db.Base.{ℕ, ℤ, Text, ◌≡◌, ap, subst}
use s3db.Result.{Result}
use s3db.Result.Exec.{Exec}
use s3db.Result.Keeps.{Keeps, keeps_rules}
use s3db.Blob.{PutCondition}
use s3db.Base.{List}
use s3db.Env.{Env, FileCall, file_calls}
use s3db.Manifest.{Manifest}
use s3db.Manifest.Io.{put_manifest}

-- `Q` holds on across each of these calls, whether it succeeds or fails.
pub record KeptBy {S : Type 0} (env : Env S) (Q : S → Type 0) : Type 0 where
  pub get : (k : Text) → Keeps Q (env.store.get k)
  pub get_range : (k : Text) (start end : ℤ) → Keeps Q (env.store.get_range k start end)
  pub stat : (k : Text) → Keeps Q (env.store.stat k)
  pub put : (k body : Text) (cond : PutCondition) → Keeps Q (env.store.put k body cond)
  pub delete : (k : Text) → Keeps Q (env.store.delete k)
  pub uuid : Keeps Q env.uuid
  pub pause : (n : ℕ) → Keeps Q (env.pause n)

-- The outside moves along `reaches` in each of these calls.
pub record IsSteady {S : Type 0} (env : Env S) (reaches : S → S → Type 0) : Type 0 where
  pub stay : (s : S) → reaches s s
  pub from : (s : S) → KeptBy env (reaches s)

pub file_calls-Keeps :
    {S : Type 0} (env : Env S) (Q : S → Type 0) (ops : List FileCall) → Keeps Q (file_calls env ops)
unfolding file_calls
file_calls-Keeps env Q ops = record { at = λ s h. h }

module _ {S : Type 0} (env : Env S) (Q : S → Type 0) (kept : KeptBy env Q) where
  pub put_manifest-Keeps :
      (key : Text) (m : Manifest) (cond : PutCondition) → Keeps Q (put_manifest env key m cond)
  unfolding put_manifest
  put_manifest-Keeps key m cond = search (keeps_rules, kept.put)

-- What keeps whatever the calls keep moves the outside along.
pub ran_out :
    {S A : Type 0} (env : Env S) (reaches : S → S → Type 0) (steady : IsSteady env reaches)
    (m : Exec S A) {r : Result A} (s t : S)
    → ((Q : S → Type 0) → KeptBy env Q → Keeps Q m)
    → m s ≡ (r, t)
    → reaches s t
ran_out env reaches steady m s t moves e =
    subst (reaches s) (ap (λ q. q.1) e) ((moves (reaches s) (steady.from s)).at s (steady.stay s))
