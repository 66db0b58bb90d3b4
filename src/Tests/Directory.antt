-- ===== src/Tests/Directory.antt =====
-- The directory of the tests does what is documented, so the store in it is lawful.
use s3db.Base.{
  ◌≤◌, ℕ_discrete, has_prefix, Text, text_eq, ◌≡◌, ◌≢◌, refl, ◌∙◌, ap, subst, false, Option, none,
  some, arith,
}
use s3db.Result.{ok}
use s3db.Result.Reply.{failed, got}
use s3db.Blob.{IsLawful}
use s3db.Blob.FileKeys.Reserved.{IsUnicode}
use s3db.Blob.Root.{not_exist, File}
use s3db.Blob.Fs.{fs_store}
use s3db.Blob.Fs.Documented.{IsFs}
use s3db.Blob.Fs.Lawful.{fs_store-IsLawful, fs_at}
use s3db.Tests.Codec.{hash}
use s3db.Tests.Files.{Disk, ascii, as_file, opened, stated, set, created, renamed, gone, disk_root}

-- A disk may follow another that has made no more random names.
abbrev Later : Disk → Disk → Type 0
Later d e = d.count ≤ e.count

-- One process alone always holds the lock.
abbrev Mine : Disk → Type 0
Mine d = Unit {0}

abbrev Staged : Disk → Text → Text → Type 0
Staged d tmp b = d.files tmp ≡ some b

created-Later : (name : Text) (o : Option Text) (d : Disk) → Later d (created name o d).1
created-Later name none d = omega arith
created-Later name (some b) d = omega arith

gone-Later : (name : Text) (o : Option Text) (d : Disk) → Later d (gone name o d).1
gone-Later name none d = omega arith
gone-Later name (some b) d = omega arith

opened-body :
    (o : Option Text) (f : File) (b : Text) → opened o ≡ got f → f.body ≡ ok b → o ≡ some b
opened-body none f b h e = cc h
opened-body (some x) f b h e =
    let same : as_file x ≡ f = cc h in
    let whole : ok x ≡ ok b = ap (λ (g : File). g.body) same ∙ e in ground (arith, whole)

stated-file : (o : Option Text) → stated o ≡ got false → (b : Text) × (o ≡ some b)
stated-file none h = cc h
stated-file (some b) h = (b, refl)

stated-none : (o : Option Text) → stated o ≡ failed not_exist → o ≡ none
stated-none none h = refl
stated-none (some b) h = cc h

renamed-files :
    (tmp name b : Text) (o : Option Text) (d e : Disk)
    → o ≡ some b
    → renamed tmp name o d ≡ (got tt, e)
    → (e.files name ≡ some b) × ((j : Text) → j ≢ name → j ≢ tmp → e.files j ≡ d.files j)
renamed-files tmp name b none d e h r = cc h
renamed-files tmp name b (some x) d e h r =
    let same : x ≡ b = ground (arith, h) in
    let end : set name (some x) (set tmp none d) ≡ e = ap (λ q. q.1) r in
    subst
      (λ (v : Disk).
        (v.files name ≡ some b) × ((j : Text) → j ≢ name → j ≢ tmp → v.files j ≡ d.files j))
      end (ground (arith, same), λ j a c. ground (arith, a, c))

disk-IsFs : IsFs disk_root (λ d. d.files) Later Mine Staged
disk-IsFs = record {
  stay = λ d. omega arith;
  go_on = λ d e f h k. omega (arith, h, k);
  mkdir_all = λ name d. omega arith;
  create = λ name d. created-Later name (d.files name) d;
  write = λ name b d. omega arith;
  sync = λ name d. omega arith;
  close = λ name d. omega arith;
  remove = λ name d. gone-Later name (d.files name) d;
  random = λ d. omega arith;
  try_lock = λ d. omega arith;
  read = λ name d e f b h g.
      subst (λ (v : Disk). v.files name ≡ some b) (ap (λ q. q.1) h)
        (opened-body (d.files name) f b (ap (λ q. q.0) h) g);
  written =
      λ tmp b d e h. subst (λ (v : Disk). v.files tmp ≡ some b) (ap (λ q. q.1) h) (ground arith);
  sync_staged = λ tmp b d h. h;
  close_staged = λ tmp b d h. h;
  lock_staged = λ tmp b d h. h;
  locked = λ d e b h. (cc (ap (λ q. q.0) h), tt);
  lstat_same = λ name d m. (tt, refl);
  lstat_staged = λ name tmp b d h. h;
  lstat_file = λ name d m h. stated-file (d.files name) h;
  lstat_none = λ name d m h. stated-none (d.files name) h;
  open_same = λ name d m. (tt, refl);
  open_staged = λ name tmp b d h. h;
  renamed = λ tmp name b d e m k h. renamed-files tmp name b (d.files tmp) d e k h;
  unlocked = λ d. refl;
}

ascii-IsUnicode : IsUnicode ascii
unfolding has_prefix ℕ_discrete
ascii-IsUnicode = record { low = λ y. refl }

fs_store-IsLawful_example :
    IsLawful
      (fs_store disk_root ascii hash)
      hash
      (fs_at disk_root ascii hash (λ d. d.files) Later Mine Staged disk-IsFs)
      Later
fs_store-IsLawful_example =
    fs_store-IsLawful disk_root ascii hash (λ d. d.files) Later Mine Staged disk-IsFs
      ascii-IsUnicode
