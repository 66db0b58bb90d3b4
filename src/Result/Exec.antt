-- ===== src/Result/Exec.antt =====
-- Code that changes a state of type `S` and may fail; what was done before a failure stays done.
use s3db.Base.{◌≡◌, refl, ap, Bool, true, false, if◌then◌else◌, ◌∙◌}
use s3db.Errors.{Error}
use s3db.Result.{Result, ok, err}

abbrev pub Exec {ℓ} : Type ℓ → Type ℓ → Type ℓ
Exec S A = S → Result A × S

module _ {ℓ} {S A : Type ℓ} where
  unfoldable pub pure : A → Exec S A
  pure a s = (ok a, s)

  unfoldable pub raise : Error → Exec S A
  raise e s = (err e, s)

  unfoldable pub lift : Result A → Exec S A
  lift r s = (r, s)

  -- The result as a value, for code that looks at the error and goes on.
  unfoldable pub attempt : Exec S A → Exec S (Result A)
  attempt m s = let (r, s') = m s in (ok r, s')

-- The state itself, and a change of it.
module _ {S : Type 0} where
  unfoldable pub current : Exec S S
  current s = (ok s, s)

  unfoldable pub modify : (S → S) → Exec S (Unit {0})
  modify f s = (ok tt, f s)

module _ {ℓ} {S A B : Type ℓ} where
  abbrev pub next : Result A × S → (A → Exec S B) → Result B × S
  next (ok a, s) f = f a s
  next (err e, s) f = (err e, s)

  -- Opening this opens all of the above.
  infixl 10 ◌>>=◌
  unfoldable pub ◌>>=◌ : Exec S A → (A → Exec S B) → Exec S B
  unfolding pure raise lift attempt current modify
  ◌>>=◌ m f s = next (m s) f

  infixl 10 ◌>>◌
  abbrev pub ◌>>◌ : Exec S A → Exec S B → Exec S B
  m >> n = m >>= λ _. n

module _ {ℓ} {S A B : Type ℓ} where
  next-eq-ok :
      (r : Result A) (t : S) (f : A → Exec S B) {b : B} {s' : S}
      → next (r, t) f ≡ (ok b, s')
      → (a : A) × (r ≡ ok a) × (f a t ≡ (ok b, s'))
  next-eq-ok (ok a) t f h = (a, refl, h)
  next-eq-ok (err e) t f h = cc

  -- Inversion of a successful bind.
  pub bind-eq-ok :
      (m : Exec S A) (f : A → Exec S B) (s : S) {b : B} {s' : S}
      → (m >>= f) s ≡ (ok b, s')
      → (a : A) × (t : S) × (m s ≡ (ok a, t)) × (f a t ≡ (ok b, s'))
  unfolding ◌>>=◌
  bind-eq-ok m f s h =
      let (a, e, g) = next-eq-ok (m s).0 (m s).1 f h in (a, (m s).1, λ i. (e i, (m s).1), g)

module _ {ℓ} {S A : Type ℓ} where
  pub lift-eq-ok :
      (r : Result A) (s : S) {a : A} {s' : S} → lift r s ≡ (ok a, s') → (r ≡ ok a) × (s ≡ s')
  unfolding lift
  lift-eq-ok r s h = (ap (λ p. p.0) h, ap (λ p. p.1) h)

  pub attempt-ok :
      (m : Exec S A) (s t : S) (r : Result A) (a : A)
      → attempt m s ≡ (ok r, t)
      → r ≡ ok a
      → m s ≡ (ok a, t)
  unfolding attempt
  attempt-ok m s t r a h e =
      let first : (m s).0 ≡ r = cc (ap (λ q. q.0) h) in λ i. ((first ∙ e) i, (ap (λ q. q.1) h) i)

  pub pure-eq-ok : (x : A) (s : S) {a : A} {s' : S} → pure x s ≡ (ok a, s') → (x ≡ a) × (s ≡ s')
  unfolding pure
  pure-eq-ok x s h = (cc (ap (λ (p : Result A × S). p.0) h), ap (λ p. p.1) h)

-- The same inversion, for a goal `G`, with the intermediate value and state as variables.
pub by_bind {ℓ κ} :
    {S A B : Type ℓ} {G : Type κ} (m : Exec S A) (f : A → Exec S B) (s : S) {b : B} {s' : S}
    → (m >>= f) s ≡ (ok b, s')
    → ((a : A) (t : S) → m s ≡ (ok a, t) → f a t ≡ (ok b, s') → G)
    → G
by_bind m f s h g = let (a, t, first, rest) = bind-eq-ok m f s h in g a t first rest

-- A split on the test of a conditional that has run.
pub by_if {ℓ κ} :
    {S A : Type ℓ} {G : Type κ} (b : Bool) (m n : Exec S A) (s : S) {r : Result A × S}
    → (if b then m else n) s ≡ r
    → (b ≡ true → m s ≡ r → G)
    → (b ≡ false → n s ≡ r → G)
    → G
by_if true m n s h on_true on_false = on_true refl h
by_if false m n s h on_true on_false = on_false refl h
