-- ===== src/Result/Keeps.antt =====
-- Invariants of state-changing code, one rule for each way to build it.
use s3db.Base.{◌≡◌, refl, Bool, true, false, if◌then◌else◌}
use s3db.Errors.{Error}
use s3db.Result.{Result, ok, err}
use s3db.Result.Exec.{Exec, pure, raise, lift, current, modify, next, attempt, ◌>>=◌}

-- `m` keeps `P`, whether it succeeds or fails.
pub record Keeps {ℓ κ} {S A : Type ℓ} (P : S → Type κ) (m : Exec S A) : Type (ℓ ⊔ κ) where
  pub at : (s : S) → P s → P (m s).1

module _ {ℓ κ} {S A : Type ℓ} {P : S → Type κ} where
  pub Keeps-pure : (a : A) → Keeps P (pure {S = S} a)
  unfolding pure
  Keeps-pure a = record { at = λ s h. h }

  pub Keeps-raise : (e : Error) → Keeps P (raise {S = S} {A = A} e)
  unfolding raise
  Keeps-raise e = record { at = λ s h. h }

  pub Keeps-lift : (r : Result A) → Keeps P (lift {S = S} r)
  unfolding lift
  Keeps-lift r = record { at = λ s h. h }

  pub Keeps-attempt : (m : Exec S A) → Keeps P m → Keeps P (attempt m)
  unfolding attempt
  Keeps-attempt m k = record { at = λ s h. k.at s h }

  pub Keeps-if : (b : Bool) (m n : Exec S A) → Keeps P m → Keeps P n → Keeps P (if b then m else n)
  Keeps-if true m n km kn = km
  Keeps-if false m n km kn = kn

  -- each branch may use how the test went
  pub Keeps-cases :
      (b : Bool) {m n : Exec S A}
      → (b ≡ true → Keeps P m)
      → (b ≡ false → Keeps P n)
      → Keeps P (if b then m else n)
  Keeps-cases true on_true on_false = on_true refl
  Keeps-cases false on_true on_false = on_false refl

module _ {κ} {S : Type 0} {P : S → Type κ} where
  pub Keeps-current : Keeps P current
  unfolding current
  Keeps-current = record { at = λ s h. h }

  pub Keeps-modify : (f : S → S) → ((s : S) → P s → P (f s)) → Keeps P (modify f)
  unfolding modify
  Keeps-modify f k = record { at = k }

module _ {ℓ κ} {S A B : Type ℓ} {P : S → Type κ} (rest : A → Exec S B)
    (keeps : (a : A) → Keeps P (rest a)) where
  Keeps-next : (r : Result A) (t : S) → P t → P (next (r, t) rest).1
  Keeps-next (err e) t h = h
  Keeps-next (ok a) t h = (keeps a).at t h

  pub Keeps-bind : (first : Exec S A) → Keeps P first → Keeps P (first >>= rest)
  unfolding ◌>>=◌
  Keeps-bind first k = record { at = λ s h. Keeps-next (first s).0 (first s).1 (k.at s h) }

-- The rest of the code may use what the first part returned, and where it was run.
module _ {ℓ κ} {S A B : Type ℓ} {P : S → Type κ} (first : Exec S A) (rest : A → Exec S B) where
  Keeps-next_ran :
      (r : Result A) (s t : S)
      → first s ≡ (r, t)
      → P t
      → ((a : A) → first s ≡ (ok a, t) → Keeps P (rest a))
      → P (next (r, t) rest).1
  Keeps-next_ran (err e) s t ran h keeps = h
  Keeps-next_ran (ok a) s t ran h keeps = (keeps a ran).at t h

  pub Keeps-bind_ran :
      Keeps P first
      → ((s t : S) (a : A) → P s → first s ≡ (ok a, t) → Keeps P (rest a))
      → Keeps P (first >>= rest)
  unfolding ◌>>=◌
  Keeps-bind_ran k keeps = record {
    at = λ s h. Keeps-next_ran (first s).0 s (first s).1 refl (k.at s h) (λ a. keeps s _ a h);
  }

pub ruleset keeps_rules =
    (Keeps-pure, Keeps-raise, Keeps-lift, Keeps-attempt, Keeps-current, Keeps-if, Keeps-bind)
