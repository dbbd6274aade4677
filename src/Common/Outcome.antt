-- ===== src/Common/Outcome.antt =====
-- The outcome of code that may panic (a `str` slice off a character boundary) or that a loop on
-- fuel has not finished.
use mathlib.Core.Logic.{◌⊎◌, inl, inr}
use mathlib.Core.Path.{◌≡◌, refl}

pub data Run {ℓ} (A : Type ℓ) : Type ℓ where
  ok : A → Run A
  panicked : Run A
  diverged : Run A

infixl 5 ◌>>=◌
abbrev pub ◌>>=◌ {ℓ κ} : {A : Type ℓ} {B : Type κ} → Run A → (A → Run B) → Run B
ok a >>= f = f a
panicked >>= f = panicked
diverged >>= f = diverged

-- Inversion of a bind that returned.
module _ {ℓ κ} {A : Type ℓ} {B : Type κ} where
  pub >>=-eq-ok :
      (r : Run A) (next : A → Run B) {b : B}
      → (r >>= next) ≡ ok b
      → (a : A) × (r ≡ ok a) × (next a ≡ ok b)
  >>=-eq-ok (ok a) next done = (a, refl, done)
  >>=-eq-ok panicked next done = cc
  >>=-eq-ok diverged next done = cc

  pub >>=-eq-diverged :
      (r : Run A) (next : A → Run B)
      → (r >>= next) ≡ diverged
      → (r ≡ diverged) ⊎ ((a : A) × (r ≡ ok a) × (next a ≡ diverged))
  >>=-eq-diverged (ok a) next stuck = inr (a, refl, stuck)
  >>=-eq-diverged panicked next stuck = absurd cc
  >>=-eq-diverged diverged next stuck = inl refl
