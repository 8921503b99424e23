-- ===== src/Prelude.antt =====
-- The names that the other modules share: the libraries', passed on, and those of the children.
mod Tests
mod Lists
mod ByteStrings
mod Results
mod Bits
mod Hex
mod Decimal
pub use Tests.*
pub use Lists.*
pub use Results.*
pub use ByteStrings.{Bytes, IsByte, text, bytes_eq, bytes_eq_refl, bytes_eq→≡, bytes_eq_iff}
pub use ByteStrings.{++-split, le_split}
pub use ByteStrings.{length-to_le_bytes, to_le_bytes-IsByte}
pub use ByteStrings.{from_le_bytes-to_le_bytes, from_le_bytes-lt, to_le_bytes-from_le_bytes}
unfoldable pub use ByteStrings.{to_le_bytes, from_le_bytes}
unfoldable pub use Hex.{hex_digit, hex_pair, cuts_before, hex_char, lower_hex, upper_hex}
unfoldable pub use Decimal.{decimal, digits}
pub use Decimal.{decimal_injective}
pub use Hex.{length-lower_hex, hex_pair-hex_char}
pub use Bits.{bit_and-lt, bit_or-lt, bit_xor-lt, bit_or_fields}
pub use Prim.Native.Nat.{ℕ, zero, suc, ◌+◌, ◌-◌, ◌*◌, ◌/◌, ◌%◌, ◌^◌, ◌≤◌, ◌<◌, min, max}
pub use Prim.Native.Nat.{bit_and, bit_or, bit_xor}
pub use mathlib.Core.Path.{◌≡◌, refl, sym, ap, ◌∙◌}
pub use mathlib.Core.Logic.{◌≢◌, ◌↔◌, ◌⊎◌, inl, inr}
pub use mathlib.Core.Bool.{Bool, true, false, not, ◌&&◌, ◌||◌}
pub use mathlib.Core.Option.{Option, none, some}
pub use mathlib.Core.List.{List, [], ◌∷◌, ◌++◌, map, append_assoc}
pub use native.Mathlib.Omega.{arith}
