-- ===== src/Prelude/Hex.antt =====
-- Hex digits as the standard library reads and writes them.
use Prim.Native.Nat.{ℕ, ◌+◌, ◌-◌, ◌*◌, ◌/◌, ◌%◌, ◌<◌}
use mathlib.Core.Path.{◌≡◌, refl, ap}
use mathlib.Core.Bool.{Bool, true, not, ◌&&◌}
use mathlib.Core.List.{[], ◌∷◌}
use mathlib.Core.Option.{Option, none, some}
use native.Mathlib.Omega.{arith}
use provework.Prelude.Tests.{if◌then◌else◌, leb, ltb, ◌==◌}
use provework.Prelude.Lists.{length}
use provework.Prelude.ByteStrings.{Bytes}

-- `char::to_digit(16)`
unfoldable pub hex_digit : ℕ → Option ℕ
hex_digit c =
    if leb 48 c && leb c 57
    then some (c - 48)
    else if leb 97 c && leb c 102
    then some (c - 87)
    else if leb 65 c && leb c 70
    then some (c - 55)
    else none

-- `u8::from_str_radix` on two bytes, which takes a leading plus sign.
unfoldable pub hex_pair : ℕ → ℕ → Option ℕ
unfolding hex_digit
hex_pair c d = if c == 43 then hex_digit d else elim (hex_digit c) [
  | none ↦ none
  | some high ↦ elim (hex_digit d) [ none ↦ none | some low ↦ some (16 * high + low) ]
]

-- A text may be cut before a byte that does not continue a character, and at its end.
unfoldable pub cuts_before : Bytes → Bool
cuts_before [] = true
cuts_before (c ∷ _) = not (leb 128 c && leb c 191)

-- One lower-case digit, and the two of each byte (`{b:02x}`).
unfoldable pub hex_char : ℕ → ℕ
hex_char n = if ltb n 10 then n + 48 else n + 87

unfoldable pub lower_hex : Bytes → Bytes
unfolding hex_char
lower_hex [] = []
lower_hex (b ∷ bs) = hex_char (b / 16) ∷ hex_char (b % 16) ∷ lower_hex bs

pub length-lower_hex : (bs : Bytes) → length (lower_hex bs) ≡ 2 * length bs
unfolding lower_hex
length-lower_hex [] = refl
length-lower_hex (b ∷ bs) = omega (arith, length-lower_hex bs)

pub hex_digit-hex_char : (n : ℕ) → n < 16 → hex_digit (hex_char n) ≡ some n
unfolding hex_digit hex_char
hex_digit-hex_char n h = ground arith

pub hex_char-ne_plus : (n : ℕ) → (hex_char n == 43) ≡ Bool.false
unfolding hex_char
hex_char-ne_plus n = ground arith

-- The digits that a byte is written with are read back as that byte.
pub hex_pair-hex_char :
    (b : ℕ) → b < 256 → hex_pair (hex_char (b / 16)) (hex_char (b % 16)) ≡ some b
unfolding hex_pair
hex_pair-hex_char b h =
    rw
      (
        hex_pair,
        hex_char-ne_plus (b / 16),
        hex_digit-hex_char (b / 16) (omega arith),
        hex_digit-hex_char (b % 16) (omega arith),
      )
      (ap some (omega arith))

-- `{b:02X}`
unfoldable pub upper_char : ℕ → ℕ
upper_char n = if ltb n 10 then n + 48 else n + 55

unfoldable pub upper_hex : Bytes → Bytes
unfolding upper_char
upper_hex [] = []
upper_hex (b ∷ bs) = upper_char (b / 16) ∷ upper_char (b % 16) ∷ upper_hex bs
