-- ===== src/Rvcore/Alu/Bounds.antt =====
-- Every value that an arithmetic instruction computes is a 64-bit word.
use provework.Prelude.{
  ℕ, ◌-◌, ◌*◌, ◌/◌, ◌%◌, ◌^◌, ◌<◌, ◌≤◌, none, some, Bool, true, false, arith, if◌then◌else◌, ◌==◌,
  bit_and, bit_or, bit_xor, bit_and-lt, bit_or-lt, bit_xor-lt,
}
use provework.Rvcore.Words.{
  u64_mod, u32_mod, sext, sext32, wadd, wsub, from_bool, shl, shr, sra, magnitude, negate,
  checked_div, checked_rem, mulh, mulhsu, mulhu,
}
use provework.Rvcore.Alu.{
  Value, value, illegal, panics, imm_i, op_imm_value, op_imm_32_value, op_muldiv, op_value,
  op_32_muldiv, op_32_value,
}

abbrev pub Fits : Value → Type 0
Fits (value v) = v < 2 ^ 64
Fits illegal = Unit
Fits panics = Unit

pub Fits-if : (b : Bool) (v w : Value) → Fits v → Fits w → Fits (if b then v else w)
Fits-if true v w p q = p
Fits-if false v w p q = q

div-le : (a b : ℕ) → a / b ≤ a
div-le a b = grind arith

pub sext32-lt : (v : ℕ) → sext32 v < 2 ^ 64
sext32-lt v = ground arith

pub imm_i-lt : (inst : ℕ) → imm_i inst < 2 ^ 64
imm_i-lt inst = ground arith

pub from_bool-lt : (b : Bool) → from_bool b < 2 ^ 64
from_bool-lt true = omega arith
from_bool-lt false = omega arith

pub wadd-lt : (a b : ℕ) → wadd a b < 2 ^ 64
wadd-lt a b = omega arith

pub shr-lt : (a n : ℕ) → a < 2 ^ 64 → shr a n < 2 ^ 64
shr-lt a n h = omega (arith, div-le a (2 ^ n))

pub sra-lt : (a n : ℕ) → a < 2 ^ 64 → sra 64 a n < 2 ^ 64
sra-lt a n h = ground (arith, div-le a (2 ^ n))

pub shl-lt : (a n : ℕ) → shl a n < 2 ^ 64
shl-lt a n = omega arith

pub wsub-lt : (a b : ℕ) → wsub a b < 2 ^ 64
wsub-lt a b = omega arith

pub word_and-lt : (a b : ℕ) → a < 2 ^ 64 → bit_and a b < 2 ^ 64
word_and-lt = bit_and-lt 64

pub word_or-lt : (a b : ℕ) → a < 2 ^ 64 → b < 2 ^ 64 → bit_or a b < 2 ^ 64
word_or-lt = bit_or-lt 64

pub word_xor-lt : (a b : ℕ) → a < 2 ^ 64 → b < 2 ^ 64 → bit_xor a b < 2 ^ 64
word_xor-lt = bit_xor-lt 64

pub ruleset word_bounds = (
  wadd-lt, wsub-lt, shl-lt, shr-lt, sra-lt, sext32-lt, imm_i-lt, from_bool-lt, word_and-lt,
  word_or-lt, word_xor-lt,
)

pub op_imm_value-Fits : (inst f3 a : ℕ) → a < 2 ^ 64 → Fits (op_imm_value inst f3 a)
unfolding op_imm_value
op_imm_value-Fits inst f3 a h = search (Fits-if, tt, word_bounds) depth 12

pub op_imm_32_value-Fits : (inst f7 f3 a : ℕ) → Fits (op_imm_32_value inst f7 f3 a)
unfolding op_imm_32_value
op_imm_32_value-Fits inst f7 f3 a = search (Fits-if, tt, sext32-lt) depth 12

pub pick-lt : (b : Bool) (v w : ℕ) → v < 2 ^ 64 → w < 2 ^ 64 → (if b then v else w) < 2 ^ 64
pick-lt true v w p q = p
pick-lt false v w p q = q

max_word : u64_mod - 1 < 2 ^ 64
max_word = omega arith

min_signed : 2 ^ 63 < 2 ^ 64
min_signed = omega arith

mulh-lt : (a b : ℕ) → mulh a b < 2 ^ 64
unfolding mulh
mulh-lt a b = omega arith

mulhsu-lt : (a b : ℕ) → mulhsu a b < 2 ^ 64
unfolding mulhsu
mulhsu-lt a b = omega arith

mulhu-lt : (a b : ℕ) → mulhu a b < 2 ^ 64
unfolding mulhu
mulhu-lt a b = omega arith

mul_low-lt : (a b : ℕ) → a * b % u64_mod < 2 ^ 64
mul_low-lt a b = omega arith

magnitude-lt : (a : ℕ) → a < 2 ^ 64 → magnitude 64 a < 2 ^ 64
magnitude-lt a h = ground arith

-- A quotient and a remainder of 64-bit words are 64-bit words.
div_word : (a b : ℕ) → a < 2 ^ 64 → a / b < 2 ^ 64
div_word a b h = omega (arith, div-le a b)

mod-le : (a b : ℕ) → a % b ≤ a
mod-le a b = grind arith

mod_word : (a b : ℕ) → a < 2 ^ 64 → a % b < 2 ^ 64
mod_word a b h = omega (arith, mod-le a b)

negate-lt : (v : ℕ) → negate 64 v < 2 ^ 64
negate-lt v = omega arith

checked_div_or-lt :
    (a b d : ℕ)
    → a < 2 ^ 64
    → d < 2 ^ 64
    → (elim (checked_div 64 a b) [ some q ↦ q | none ↦ d ]) < 2 ^ 64
unfolding checked_div
checked_div_or-lt a b d h g = ground (
  arith,
  magnitude-lt a,
  div_word (magnitude 64 a) (magnitude 64 b),
  negate-lt (magnitude 64 a / magnitude 64 b),
)

checked_rem_or-lt :
    (a b d : ℕ)
    → a < 2 ^ 64
    → d < 2 ^ 64
    → (elim (checked_rem 64 a b) [ some r ↦ r | none ↦ d ]) < 2 ^ 64
unfolding checked_rem
checked_rem_or-lt a b d h g = ground (
  arith,
  magnitude-lt a,
  mod_word (magnitude 64 a) (magnitude 64 b),
  negate-lt (magnitude 64 a % magnitude 64 b),
)

op_muldiv-lt : (f3 a b : ℕ) → a < 2 ^ 64 → b < 2 ^ 64 → op_muldiv f3 a b < 2 ^ 64
unfolding op_muldiv
op_muldiv-lt f3 a b h g = pick-lt (f3 == 0) _ _ (mul_low-lt a b) (
    pick-lt (f3 == 1) _ _ (mulh-lt a b) (
      pick-lt (f3 == 2) _ _ (mulhsu-lt a b) (
        pick-lt (f3 == 3) _ _ (mulhu-lt a b) (
          pick-lt (f3 == 4) _ _
            (checked_div_or-lt a b _ h (pick-lt (b == 0) _ _ max_word min_signed))
            (pick-lt (f3 == 5) _ _ (pick-lt (b == 0) _ _ max_word (div_word a b h)) (
              pick-lt (f3 == 6) _ _
                (checked_rem_or-lt a b _ h (pick-lt (b == 0) _ _ h (omega arith)))
                (pick-lt (b == 0) _ _ h (mod_word a b h))))))))

pub op_value-Fits : (f7 f3 a b : ℕ) → a < 2 ^ 64 → b < 2 ^ 64 → Fits (op_value f7 f3 a b)
unfolding op_value
op_value-Fits f7 f3 a b h g = search (Fits-if, tt, word_bounds, op_muldiv-lt) depth 14

pub sext-lt : (v : ℕ) → v < 2 ^ 32 → sext 32 v < 2 ^ 64
sext-lt v h = ground arith

div_half-lt :
    (a b d : ℕ)
    → a < 2 ^ 32
    → d < 2 ^ 64
    → (elim (checked_div 32 a b) [ some q ↦ sext 32 q | none ↦ d ]) < 2 ^ 64
unfolding checked_div
div_half-lt a b d h g = ground (arith, div-le (magnitude 32 a) (magnitude 32 b))

rem_half-lt :
    (a b d : ℕ)
    → a < 2 ^ 32
    → d < 2 ^ 64
    → (elim (checked_rem 32 a b) [ some r ↦ sext 32 r | none ↦ d ]) < 2 ^ 64
unfolding checked_rem
rem_half-lt a b d h g = ground (arith, mod-le (magnitude 32 a) (magnitude 32 b))

op_32_muldiv-Fits : (f3 a b : ℕ) → Fits (op_32_muldiv f3 a b)
unfolding op_32_muldiv
op_32_muldiv-Fits f3 a b = Fits-if (f3 == 0) _ _ (sext32-lt _) (
    Fits-if (f3 == 4) _ _
      (div_half-lt (a % u32_mod) _ _ (omega arith) (pick-lt (b == 0) _ _ max_word (omega arith)))
      (Fits-if (f3 == 5) _ _
        (Fits-if (b == 0) _ _ max_word (Fits-if (b % u32_mod == 0) _ _ tt (sext32-lt _)))
        (Fits-if (f3 == 6) _ _
          (rem_half-lt (a % u32_mod) _ _ (omega arith)
            (pick-lt (b == 0) _ _ (sext32-lt a) (omega arith)))
          (Fits-if (f3 == 7) _ _
            (Fits-if (b == 0) _ _ (sext32-lt a) (Fits-if (b % u32_mod == 0) _ _ tt (sext32-lt _)))
            tt))))

pub op_32_value-Fits : (f7 f3 a b : ℕ) → Fits (op_32_value f7 f3 a b)
unfolding op_32_value
op_32_value-Fits f7 f3 a b = search (Fits-if, tt, sext32-lt, op_32_muldiv-Fits) depth 12
