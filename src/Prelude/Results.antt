-- ===== src/Prelude/Results.antt =====
-- A value or an error of a component's own error type, with `do`.
use mathlib.Core.Path.{◌≡◌, refl}
use mathlib.Core.Bool.{Bool, true, false}
use mathlib.Core.Logic.{◌⊎◌, inl, inr}

-- `E` is the component's error type.
pub data Result {ℓ κ} (E : Type κ) (A : Type ℓ) : Type (ℓ ⊔ κ) where
  err : E → Result E A
  ok : A → Result E A

module _ {κ} {E : Type κ} where
  -- `if !test { return e }`
  abbrev pub guard : Bool → E → Result E (Unit {0})
  guard false e = err e
  guard true e = ok tt

  -- What follows a call whose error is returned.
  infixl 5 ◌>>=◌ ◌>>◌
  abbrev pub ◌>>=◌ {ℓ μ} : {A : Type ℓ} {B : Type μ} → Result E A → (A → Result E B) → Result E B
  err e >>= next = err e
  ok value >>= next = next value

  abbrev pub ◌>>◌ {ℓ} : {B : Type ℓ} → Result E (Unit {0}) → Result E B → Result E B
  done >> rest = done >>= λ _. rest

  module _ {ℓ} {A : Type ℓ} where
    pub Result-cases : (r : Result E A) → ((a : A) × (r ≡ ok a)) ⊎ ((e : E) × (r ≡ err e))
    Result-cases (err e) = inr (e, refl)
    Result-cases (ok a) = inl (a, refl)

    -- Both calls of a chain that returns a value do so.
    pub >>=-eq-ok {μ} :
        {B : Type μ} {result : B} (r : Result E A) (next : A → Result E B)
        → r >>= next ≡ ok result
        → (value : A) × (r ≡ ok value) × (next value ≡ ok result)
    >>=-eq-ok (err e) next failed = cc
    >>=-eq-ok (ok value) next same = (value, refl, same)
