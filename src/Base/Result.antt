-- ===== src/Base/Result.antt =====
-- What a Python function that may raise returns: its value, or the error.
use mathlib.Core.Path.{◌≡◌, refl}
use mathlib.Core.Logic.{◌⊎◌, inl, inr}
use mathlib.Core.Bool.{Bool, true, false}

pub data Result {ℓ} (E A : Type ℓ) : Type ℓ where
  err : E → Result E A
  ok : A → Result E A

module _ {ℓ} {E : Type ℓ} where
  -- `if test: raise error`
  abbrev pub raise_if : Bool → E → Result E (Unit {ℓ})
  raise_if false e = ok tt
  raise_if true e = err e

  infixl 5 ◌>>=◌ ◌>>◌
  -- The rest of the function, unless an error was raised.
  abbrev pub ◌>>=◌ : {A B : Type ℓ} → Result E A → (A → Result E B) → Result E B
  err e >>= rest = err e
  ok a >>= rest = rest a

  abbrev pub ◌>>◌ : {B : Type ℓ} → Result E (Unit {ℓ}) → Result E B → Result E B
  check >> rest = check >>= (λ done. rest)

-- A block that returned `y` returned a value from its first part.
pub >>=-eq-ok {ℓ} :
    {E A B : Type ℓ} (first : Result E A) (rest : A → Result E B) {y : B}
    → (first >>= rest) ≡ ok y
    → (x : A) × (first ≡ ok x) × (rest x ≡ ok y)
>>=-eq-ok (err e) rest returned = cc
>>=-eq-ok (ok x) rest returned = (x, refl, returned)

pub Result-cases {ℓ} :
    {E A : Type ℓ} (r : Result E A) → ((a : A) × (r ≡ ok a)) ⊎ ((e : E) × (r ≡ err e))
Result-cases (ok a) = inl (a, refl)
Result-cases (err e) = inr (e, refl)
