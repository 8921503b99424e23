-- ===== src/Prelude/Bits.antt =====
-- Laws of `&`, `|` and `^` on words: the digit recursion, bounds, and disjoint fields.
use Prim.Native.Nat.{ℕ, zero, suc, ◌+◌, ◌*◌, ◌/◌, ◌%◌, ◌^◌, ◌≤◌, ◌<◌, min, max, differ}
use Prim.Native.Nat.{bit_and, bit_or, bit_xor, bit_and-bitwise, bit_or-bitwise, bit_xor-bitwise}
use Prim.Native.Nat.{digits, bitwise}
use mathlib.Core.Path.{◌≡◌, refl, sym, ap, ◌∙◌}
use native.Mathlib.Nat.{pow-suc, le_refl}
use native.Mathlib.Omega.{arith}

-- The library's definition of the three operations runs on fuel, which any enough amount replaces.
module _ (alone : ℕ → ℕ) (join : ℕ → ℕ → ℕ) where
  fuel_free : (n m a b : ℕ) → a ≤ n → a ≤ m → digits alone join n a b ≡ digits alone join m a b
  fuel_free n m zero b p q = empty n ∙ sym (empty m)
    where
      empty : (k : ℕ) → digits alone join k zero b ≡ alone b
      empty zero = refl
      empty (suc k) = refl
  fuel_free zero m (suc a) b p q = absurd (omega arith)
  fuel_free (suc n) zero (suc a) b p q = absurd (omega arith)
  fuel_free (suc n) (suc m) (suc a) b p q =
      rw (fuel_free n m (suc a / 2) (b / 2) (omega arith) (omega arith))

  one_digit :
      (a b : ℕ)
      → bitwise alone join (suc a) b
        ≡ bitwise alone join (suc a / 2) (b / 2) * 2 + join (suc a % 2) (b % 2)
  one_digit a b =
      omega (arith, fuel_free a (suc a / 2) (suc a / 2) (b / 2) (omega arith) (le_refl _))

pub bit_and-digit : (a b : ℕ) → bit_and a b ≡ bit_and (a / 2) (b / 2) * 2 + min (a % 2) (b % 2)
bit_and-digit zero b = simp bit_and-bitwise (omega arith)
bit_and-digit (suc a) b = simp bit_and-bitwise (one_digit (λ y. 0) min a b)

pub bit_or-digit : (a b : ℕ) → bit_or a b ≡ bit_or (a / 2) (b / 2) * 2 + max (a % 2) (b % 2)
bit_or-digit zero b = simp bit_or-bitwise (omega arith)
bit_or-digit (suc a) b = simp bit_or-bitwise (one_digit (λ y. y) max a b)

differ-le_one : (a b : ℕ) → a < 2 → b < 2 → differ a b ≤ 1
differ-le_one zero b h g = omega arith
differ-le_one (suc a) zero h g = omega arith
differ-le_one (suc zero) (suc b) h g = omega arith
differ-le_one (suc (suc a)) (suc b) h g = absurd (omega arith)

bit_xor-digit :
    (a b : ℕ) → bit_xor (suc a) b ≡ bit_xor (suc a / 2) (b / 2) * 2 + differ (suc a % 2) (b % 2)
bit_xor-digit a b = simp bit_xor-bitwise (one_digit (λ y. y) differ a b)

zero-bit_xor : (b : ℕ) → bit_xor 0 b ≡ b
zero-bit_xor b = bit_xor-bitwise 0 b

pub bit_and-lt : (k a b : ℕ) → a < 2 ^ k → bit_and a b < 2 ^ k
bit_and-lt zero zero b h = omega (arith, bit_and-bitwise 0 b)
bit_and-lt zero (suc a) b h = absurd (omega arith)
bit_and-lt (suc k) a b h = omega (
  arith,
  pow-suc 2 k,
  bit_and-digit a b,
  bit_and-lt k (a / 2) (b / 2) (omega (arith, pow-suc 2 k)),
)

pub bit_or-lt : (k a b : ℕ) → a < 2 ^ k → b < 2 ^ k → bit_or a b < 2 ^ k
bit_or-lt zero zero b h g = omega (arith, bit_or-bitwise 0 b)
bit_or-lt zero (suc a) b h g = absurd (omega arith)
bit_or-lt (suc k) a b h g = omega (
  arith,
  pow-suc 2 k,
  bit_or-digit a b,
  bit_or-lt k (a / 2) (b / 2) (omega (arith, pow-suc 2 k)) (omega (arith, pow-suc 2 k)),
)

pub bit_xor-lt : (k a b : ℕ) → a < 2 ^ k → b < 2 ^ k → bit_xor a b < 2 ^ k
bit_xor-lt k zero b h g = omega (arith, zero-bit_xor b)
bit_xor-lt zero (suc a) b h g = absurd (omega arith)
bit_xor-lt (suc k) (suc a) b h g = omega (
  arith,
  pow-suc 2 k,
  bit_xor-digit a b,
  differ-le_one (suc a % 2) (b % 2) (omega arith) (omega arith),
  bit_xor-lt k (suc a / 2) (b / 2) (omega (arith, pow-suc 2 k)) (omega (arith, pow-suc 2 k)),
)

-- `r | (q << k)` is a sum where `r` fits `k` bits.
pub bit_or_fields : (k r q : ℕ) → r < 2 ^ k → bit_or r (q * 2 ^ k) ≡ r + q * 2 ^ k
bit_or_fields zero zero q h = omega (arith, bit_or-bitwise 0 (q * 2 ^ 0))
bit_or_fields zero (suc r) q h = absurd (omega arith)
bit_or_fields (suc k) r q h = ground (
  arith,
  twice,
  pow-suc 2 k,
  bit_or-digit r (q * 2 ^ suc k),
  bit_or_fields k (r / 2) q (omega (arith, pow-suc 2 k)),
)
  where
    twice : q * 2 ^ suc k ≡ 2 * (q * 2 ^ k)
    twice = omega (arith, ap (λ (t : ℕ). q * t) (pow-suc 2 k))
