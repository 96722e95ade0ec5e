-- ===== src/Common/Outcome.antt =====
-- What a function returns that may throw: a value, or the error that is thrown.
use mathlib.Core.Path.{◌≡◌, refl}
use mathlib.Core.Logic.{◌⊎◌, inl, inr}
use mathlib.Core.Bool.{Bool, true, false}

pub data Result {ℓ} (E A : Type ℓ) : Type ℓ where
  ok : A → Result E A
  err : E → Result E A

module _ {ℓ} {E A B : Type ℓ} where
  infixl 10 ◌>>=◌
  abbrev pub ◌>>=◌ : Result E A → (A → Result E B) → Result E B
  ok a >>= f = f a
  err e >>= f = err e

module _ {ℓ} {E B : Type ℓ} where
  infixl 10 ◌>>◌
  abbrev pub ◌>>◌ : Result E (Unit {ℓ}) → Result E B → Result E B
  ok a >> k = k
  err e >> k = err e

-- `if (bad) throw e;`
abbrev pub throw_if {ℓ} : {E : Type ℓ} → Bool → E → Result E (Unit {ℓ})
throw_if true e = err e
throw_if false e = ok tt

abbrev pub is_ok {ℓ} : {E A : Type ℓ} → Result E A → Bool
is_ok (ok a) = true
is_ok (err e) = false

pub Result-cases {ℓ} :
    {E A : Type ℓ} (r : Result E A) → ((a : A) × (r ≡ ok a)) ⊎ ((e : E) × (r ≡ err e))
Result-cases (ok a) = inl (a, refl)
Result-cases (err e) = inr (e, refl)
