-- ===== src/Result/Reply.antt =====
-- What calls of other libraries give back, with errors of their own kind.
use s3db.Base.{◌≡◌, arith}
use s3db.Errors.{Error}
use s3db.Result.{Result, ok, err}
use s3db.Result.Exec.{Exec}
use s3db.Result.Keeps.{Keeps}

pub data Reply (E A : Type 0) : Type 0 where
  failed : E → Reply E A
  got : A → Reply E A

-- A call, with the error that the program makes of the library's.
abbrev pub answer : {S E A : Type 0} → (E → Error) → Reply E A → S → Result A × S
answer f (failed e) s = (err (f e), s)
answer f (got a) s = (ok a, s)

abbrev pub call : {S E A : Type 0} → (E → Error) → (S → Reply E A × S) → Exec S A
call f m s = answer f (m s).0 (m s).1

-- The reply as a value, for code that looks at it and goes on.
abbrev pub asked : {S E A : Type 0} → (S → Reply E A × S) → Exec S (Reply E A)
asked m s = (ok (m s).0, (m s).1)

-- A call that succeeded.
pub answer-ok :
    {S E A : Type 0} (f : E → Error) (r : Reply E A) (s t : S) (a : A)
    → answer f r s ≡ (ok a, t)
    → (r ≡ got a) × (s ≡ t)
answer-ok f (failed e) s t a h = ground (arith, h)
answer-ok f (got b) s t a h = ground (arith, h)

pub call-ok :
    {S E A : Type 0} (f : E → Error) (m : S → Reply E A × S) (s t : S) (a : A)
    → call f m s ≡ (ok a, t)
    → m s ≡ (got a, t)
call-ok f m s t a h = let (r, stop) = answer-ok f (m s).0 (m s).1 t a h in λ i. (r i, stop i)

answer-Keeps :
    {S E A : Type 0} (P : S → Type 0) (f : E → Error) (r : Reply E A) (s : S)
    → P s
    → P (answer f r s).1
answer-Keeps P f (failed e) s h = h
answer-Keeps P f (got a) s h = h

pub call-Keeps :
    {S E A : Type 0} {P : S → Type 0} (f : E → Error) (m : S → Reply E A × S)
    → ((s : S) → P s → P (m s).1)
    → Keeps P (call f m)
call-Keeps {P = P} f m k = record { at = λ s h. answer-Keeps P f (m s).0 (m s).1 (k s h) }

pub asked-Keeps :
    {S E A : Type 0} {P : S → Type 0} (m : S → Reply E A × S)
    → ((s : S) → P s → P (m s).1)
    → Keeps P (asked m)
asked-Keeps m k = record { at = k }
