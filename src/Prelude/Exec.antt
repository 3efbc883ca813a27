-- ===== src/Prelude/Exec.antt =====
-- Calls that change a state and may return early with an error. What was written before the error
-- stays written, so the state comes back beside the error too.
use mathlib.Core.Bool.{Bool, true, false}
use mathlib.Core.Path.{◌≡◌, refl, ap}

pub data Result {ℓ} (E A : Type ℓ) : Type ℓ where
  ok : A → Result E A
  err : E → Result E A

abbrev pub Exec {ℓ} : Type ℓ → Type ℓ → Type ℓ → Type ℓ
Exec S E A = S → Result E A × S

module _ {ℓ} {S E A : Type ℓ} where
  abbrev pub pure : A → Exec S E A
  pure a s = (ok a, s)

  abbrev pub raise : E → Exec S E A
  raise e s = (err e, s)

  abbrev pub gets : (S → A) → Exec S E A
  gets f s = (ok (f s), s)

module _ {ℓ} {S E A B : Type ℓ} where
  abbrev pub continue : Result E A → (A → Exec S E B) → Exec S E B
  continue (ok a) f s = f a s
  continue (err e) f s = (err e, s)

  infixl 10 ◌>>=◌ ◌>>◌
  abbrev pub ◌>>=◌ : Exec S E A → (A → Exec S E B) → Exec S E B
  ◌>>=◌ m f s = let (r, s') = m s in continue r f s'

  abbrev pub ◌>>◌ : Exec S E A → Exec S E B → Exec S E B
  m >> n = m >>= λ _. n

abbrev pub modify : {S E : Type 0} → (S → S) → Exec S E (Unit {0})
modify f s = (ok tt, f s)

-- `if !b { return e }`
abbrev pub guard : {S E : Type 0} → Bool → E → Exec S E (Unit {0})
guard true e s = (ok tt, s)
guard false e s = (err e, s)

-- To drop the value of a call leaves its state.
pub state-continue-pure {ℓ} :
    {S E A B : Type ℓ} (r : Result E A) (b : B) (s : S) → (continue r (λ _. pure b) s).1 ≡ s
state-continue-pure (ok a) b s = refl
state-continue-pure (err e) b s = refl

-- A sequence that succeeds: so does its first call, and the second goes on from where that ends.
pub continue-eq-ok {ℓ} :
    {S E A B : Type ℓ} (r : Result E A) (f : A → Exec S E B) (s : S) {b : B}
    → (continue r f s).0 ≡ ok b
    → (a : A) × (r ≡ ok a) × (continue r f s ≡ f a s)
continue-eq-ok (ok a) f s h = (a, refl, refl)
continue-eq-ok (err e) f s h = cc

pub bind-eq-ok {ℓ} :
    {S E A B : Type ℓ} (m : Exec S E A) (f : A → Exec S E B) (s : S) {b : B}
    → ((m >>= f) s).0 ≡ ok b
    → (a : A) × ((m s).0 ≡ ok a) × ((m >>= f) s ≡ f a (m s).1)
bind-eq-ok m f s h = continue-eq-ok (m s).0 f (m s).1 h

-- To go on from a call that is known to succeed.
pub bind_of_ok {ℓ} :
    {S E A B : Type ℓ} (m : Exec S E A) (f : A → Exec S E B) (s s' : S) (a : A)
    → m s ≡ (ok a, s')
    → (m >>= f) s ≡ f a s'
bind_of_ok m f s s' a h = ap (λ p. continue p.0 f p.1) h

continue_err {ℓ} :
    {S E A B : Type ℓ} (r : Result E A) (f : A → Exec S E B) (s : S) (e : E)
    → r ≡ err e
    → (continue r f s).0 ≡ err e
continue_err (ok a) f s e h = cc
continue_err (err x) f s e h = cc

-- A sequence whose first call fails.
pub bind_of_err {ℓ} :
    {S E A B : Type ℓ} (m : Exec S E A) (f : A → Exec S E B) (s : S) (e : E)
    → (m s).0 ≡ err e
    → ((m >>= f) s).0 ≡ err e
bind_of_err m f s e h = continue_err (m s).0 f (m s).1 e h
