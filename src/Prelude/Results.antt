-- ===== src/Prelude/Results.antt =====
-- `Result<A, E>` of the source, errors first.
use mathlib.Core.Path.{◌≡◌, refl}
use mathlib.Core.Logic.{◌⊎◌, inl, inr}

pub data Result {ℓ} (E A : Type ℓ) : Type ℓ where
  ok : A → Result E A
  err : E → Result E A

pub Result-cases {ℓ} :
    {E A : Type ℓ} (r : Result E A) → ((e : E) × (r ≡ err e)) ⊎ ((a : A) × (r ≡ ok a))
Result-cases (err e) = inl (e, refl)
Result-cases (ok a) = inr (a, refl)

pub ok_injective {ℓ} : {E A : Type ℓ} (x y : A) {r : Result E A} → r ≡ ok x → r ≡ ok y → x ≡ y
ok_injective x y p q = cc
