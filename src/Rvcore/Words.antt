-- ===== src/Rvcore/Words.antt =====
-- The machine arithmetic of crates/rvcore/src/interp.rs: a `u64`, or an `i64` by its bit pattern, is
-- a native number below 2 ^ 64; `as` casts, shifts and the wrapping and checked operations.
use provework.Prelude.{
  ℕ, ◌+◌, ◌-◌, ◌*◌, ◌/◌, ◌%◌, ◌^◌, Option, none, some, Bool, true, false, if◌then◌else◌, ltb, ◌==◌,
  ◌&&◌, ◌||◌,
}

abbrev pub u64_mod : ℕ
u64_mod = 2 ^ 64

abbrev pub u32_mod : ℕ
u32_mod = 2 ^ 32

-- `(v >> lo) & ((1 << n) - 1)`
abbrev pub bits : ℕ → ℕ → ℕ → ℕ
bits v lo n = v / 2 ^ lo % 2 ^ n

-- Sign extension to 64 bits of a number of `w` bits.
abbrev pub sext : ℕ → ℕ → ℕ
sext w v = if ltb v (2 ^ (w - 1)) then v else v + (u64_mod - 2 ^ w)

-- `(v as u32) as i32 as i64 as u64`
abbrev pub sext32 : ℕ → ℕ
sext32 v = sext 32 (v % u32_mod)

abbrev pub wadd : ℕ → ℕ → ℕ
wadd a b = (a + b) % u64_mod

abbrev pub wsub : ℕ → ℕ → ℕ
wsub a b = (a + (u64_mod - b)) % u64_mod

abbrev pub complement : ℕ → ℕ
complement v = u64_mod - 1 - v

abbrev pub from_bool : Bool → ℕ
from_bool true = 1
from_bool false = 0

abbrev pub sign_bit : ℕ → ℕ → Bool
sign_bit w a = if ltb a (2 ^ (w - 1)) then false else true

-- `(a as i64) < (b as i64)`: the order with the sign bit flipped.
abbrev pub slt : ℕ → ℕ → Bool
slt a b = ltb ((a + 2 ^ 63) % u64_mod) ((b + 2 ^ 63) % u64_mod)

-- `a.wrapping_shl(n)` for a shift amount that is masked already.
abbrev pub shl : ℕ → ℕ → ℕ
shl a n = a * 2 ^ n % u64_mod

abbrev pub shr : ℕ → ℕ → ℕ
shr a n = a / 2 ^ n

-- `>>` on a signed `w`-bit pattern.
abbrev pub sra : ℕ → ℕ → ℕ → ℕ
sra w a n = if sign_bit w a then 2 ^ w - 1 - (2 ^ w - 1 - a) / 2 ^ n else a / 2 ^ n

-- The magnitude and the negation of a signed `w`-bit pattern.
abbrev pub magnitude : ℕ → ℕ → ℕ
magnitude w a = if sign_bit w a then 2 ^ w - a else a

abbrev pub negate : ℕ → ℕ → ℕ
negate w v = (2 ^ w - v) % 2 ^ w

abbrev pub differs : Bool → Bool → Bool
differs true true = false
differs true false = true
differs false b = b

-- The two inputs on which `checked_div` and `checked_rem` answer `None`.
abbrev pub division_faults : ℕ → ℕ → ℕ → Bool
division_faults w a b = b == 0 || (a == 2 ^ (w - 1) && b == 2 ^ w - 1)

-- `checked_div`: the quotient is rounded towards zero.
unfoldable pub checked_div : ℕ → ℕ → ℕ → Option ℕ
checked_div w a b =
    let q = magnitude w a / magnitude w b in
    if division_faults w a b
    then none
    else some (if differs (sign_bit w a) (sign_bit w b) then negate w q else q)

-- `checked_rem`: the remainder has the sign of the dividend.
unfoldable pub checked_rem : ℕ → ℕ → ℕ → Option ℕ
checked_rem w a b =
    let r = magnitude w a % magnitude w b in
    if division_faults w a b then none else some (if sign_bit w a then negate w r else r)

-- The high halves of the 128-bit products; a signed operand is sign extended to 128 bits.
abbrev pub sext128 : ℕ → ℕ
sext128 a = if sign_bit 64 a then a + (2 ^ 128 - u64_mod) else a

unfoldable pub mulh : ℕ → ℕ → ℕ
mulh a b = sext128 a * sext128 b % 2 ^ 128 / u64_mod

unfoldable pub mulhsu : ℕ → ℕ → ℕ
mulhsu a b = sext128 a * b % 2 ^ 128 / u64_mod

unfoldable pub mulhu : ℕ → ℕ → ℕ
mulhu a b = a * b / u64_mod % u64_mod
