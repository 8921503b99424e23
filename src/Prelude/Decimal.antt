-- ===== src/Prelude/Decimal.antt =====
-- Decimal digits as the standard library writes an unsigned integer of 64 bits or fewer.
use Prim.Native.Nat.{ℕ, zero, suc, ◌+◌, ◌-◌, ◌*◌, ◌/◌, ◌%◌, ◌^◌, ◌<◌}
use mathlib.Core.Path.{◌≡◌, refl, ap, sym, ◌∙◌}
use mathlib.Core.Bool.{true, false}
use mathlib.Core.List.{[], ◌∷◌, ◌++◌}
use mathlib.Core.Logic.{inl, inr}
use native.Mathlib.Omega.{arith}
use native.Mathlib.Nat.{pow-suc}
use provework.Prelude.Tests.{ltb, Bool-cases}
use provework.Prelude.ByteStrings.{Bytes}

-- At most as many digits as the first argument says.
unfoldable pub digits : ℕ → ℕ → Bytes
digits zero n = []
digits (suc k) n = elim (ltb n 10) [
  | true ↦ (n + 48) ∷ []
  | false ↦ digits k (n / 10) ++ (n % 10 + 48) ∷ []
]

-- A `u64` has at most twenty.
unfoldable pub decimal : ℕ → Bytes
unfolding digits
decimal n = digits 20 n

-- The number that digits are read as.
value_from : Bytes → ℕ → ℕ
value_from [] acc = acc
value_from (d ∷ ds) acc = value_from ds (acc * 10 + d - 48)

value_from-snoc :
    (ds : Bytes) (d acc : ℕ) → value_from (ds ++ d ∷ []) acc ≡ value_from ds acc * 10 + d - 48
unfolding value_from
value_from-snoc [] d acc = refl
value_from-snoc (e ∷ ds) d acc = value_from-snoc ds d (acc * 10 + e - 48)

digits-zero : (n : ℕ) → digits zero n ≡ []
unfolding digits
digits-zero n = refl

digits-one : (k n : ℕ) → ltb n 10 ≡ true → digits (suc k) n ≡ (n + 48) ∷ []
unfolding digits
digits-one k n e = rw (digits, e) refl

digits-more :
    (k n : ℕ) → ltb n 10 ≡ false → digits (suc k) n ≡ digits k (n / 10) ++ (n % 10 + 48) ∷ []
unfolding digits
digits-more k n e = rw (digits, e) refl

value_from-digits : (k n : ℕ) → n < 10 ^ k → value_from (digits k n) 0 ≡ n
unfolding value_from
value_from-digits zero n h = rw (digits-zero n) (omega arith)
value_from-digits (suc k) n h = elim (Bool-cases (ltb n 10)) [
  | inl one ↦ rw (digits-one k n one) (omega arith)
  | inr more ↦
      rw
        (
          digits-more k n more,
          value_from-snoc (digits k (n / 10)) (n % 10 + 48) 0,
          value_from-digits k (n / 10) (omega (arith, pow-suc 10 k)),
        )
        (omega arith)
]

-- Two numbers below 10 ^ 20 with the same digits are the same.
pub decimal_injective : (m n : ℕ) → m < 10 ^ 20 → n < 10 ^ 20 → decimal m ≡ decimal n → m ≡ n
unfolding decimal
decimal_injective m n h k e =
    sym (value_from-digits 20 m h)
    ∙ ap (λ (ds : Bytes). value_from ds 0) e
    ∙ value_from-digits 20 n k
