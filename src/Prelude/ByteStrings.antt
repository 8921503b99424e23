-- ===== src/Prelude/ByteStrings.antt =====
-- Byte strings. A text of the program is the list of its UTF-8 bytes, and a hash or a key is a list
-- of bytes too, so one Boolean equality serves them all.
use Prim.Native.Nat.{ℕ, zero, suc, ◌+◌, ◌*◌, ◌/◌, ◌%◌, ◌^◌, ◌<◌}
use Prim.Native.Char.{code}
use Prim.Native.String.{String}
use mathlib.Core.Path.{◌≡◌, refl, ap, sym, ◌∙◌}
use mathlib.Core.Logic.{◌↔◌}
use mathlib.Core.Bool.{Bool, true, false, ◌&&◌}
use mathlib.Core.List.{List, [], ◌∷◌, ◌++◌}
use native.Mathlib.Omega.{arith}
use native.Mathlib.Nat.{pow-suc}
use provework.Prelude.Tests.{◌==◌}
use provework.Prelude.Lists.{length, All}

abbrev pub Bytes : Type 0
Bytes = List ℕ

abbrev pub IsByte : ℕ → Type 0
IsByte b = b < 256

-- The bytes of a literal of the source, which are ASCII.
abbrev pub text : String → Bytes
text String.[] = []
text (String.◌∷◌ c s) = code c ∷ text s

abbrev pub bytes_eq : Bytes → Bytes → Bool
bytes_eq [] [] = true
bytes_eq (x ∷ xs) (y ∷ ys) = x == y && bytes_eq xs ys
bytes_eq _ _ = false

pub bytes_eq_refl : (xs : Bytes) → bytes_eq xs xs ≡ true
bytes_eq_refl [] = refl
bytes_eq_refl (x ∷ xs) = ground (arith, bytes_eq_refl xs)

pub bytes_eq→≡ : (xs ys : Bytes) → bytes_eq xs ys ≡ true → xs ≡ ys
bytes_eq→≡ [] [] h = refl
bytes_eq→≡ [] (y ∷ ys) h = cc
bytes_eq→≡ (x ∷ xs) [] h = cc
bytes_eq→≡ (x ∷ xs) (y ∷ ys) h = ground (arith, bytes_eq→≡ xs ys)

pub bytes_eq_iff : (xs ys : Bytes) → (bytes_eq xs ys ≡ true) ↔ (xs ≡ ys)
bytes_eq_iff xs ys = (bytes_eq→≡ xs ys, λ e. rw (← e) (bytes_eq_refl xs))

-- `to_le_bytes` of a `w`-byte integer, and `from_le_bytes`.
unfoldable pub to_le_bytes : ℕ → ℕ → Bytes
to_le_bytes zero v = []
to_le_bytes (suc w) v = (v % 256) ∷ to_le_bytes w (v / 256)

unfoldable pub from_le_bytes : Bytes → ℕ
from_le_bytes [] = 0
from_le_bytes (b ∷ bs) = b + 256 * from_le_bytes bs

pub length-to_le_bytes : (w v : ℕ) → length (to_le_bytes w v) ≡ w
unfolding to_le_bytes
length-to_le_bytes zero v = refl
length-to_le_bytes (suc w) v = ap suc (length-to_le_bytes w (v / 256))

pub to_le_bytes-IsByte : (w v : ℕ) → All IsByte (to_le_bytes w v)
unfolding to_le_bytes
to_le_bytes-IsByte zero v = tt
to_le_bytes-IsByte (suc w) v = (omega arith, to_le_bytes-IsByte w (v / 256))

-- The round trip of a value that fits, the modulus written as a product.
pub from_le_bytes-to_le_bytes : (w v : ℕ) → v < 256 ^ w → from_le_bytes (to_le_bytes w v) ≡ v
unfolding to_le_bytes from_le_bytes
from_le_bytes-to_le_bytes zero v h = omega arith
from_le_bytes-to_le_bytes (suc w) v h =
    omega
      (arith, pow-suc 256 w, from_le_bytes-to_le_bytes w (v / 256) (omega (arith, pow-suc 256 w)))

pub from_le_bytes-lt : (bs : Bytes) → All IsByte bs → from_le_bytes bs < 256 ^ length bs
unfolding from_le_bytes
from_le_bytes-lt [] h = omega arith
from_le_bytes-lt (b ∷ bs) h = omega (arith, pow-suc 256 (length bs), from_le_bytes-lt bs h.1)

pub to_le_bytes-from_le_bytes :
    (bs : Bytes) → All IsByte bs → to_le_bytes (length bs) (from_le_bytes bs) ≡ bs
unfolding to_le_bytes from_le_bytes
to_le_bytes-from_le_bytes [] h = refl
to_le_bytes-from_le_bytes (b ∷ bs) h =
    ground (arith, to_le_bytes-from_le_bytes bs h.1, split_low b (from_le_bytes bs))
  where
    split_low : (x y : ℕ) → x < 256 → ((x + 256 * y) % 256 ≡ x) × ((x + 256 * y) / 256 ≡ y)
    split_low x y lt = omega arith

-- Two byte strings that agree with parts of equal length agree part by part.
pub ++-split :
    (us vs xs ys : Bytes) → length us ≡ length vs → us ++ xs ≡ vs ++ ys → (us ≡ vs) × (xs ≡ ys)
++-split [] [] xs ys h e = (refl, e)
++-split [] (v ∷ vs) xs ys h e = absurd (omega arith)
++-split (u ∷ us) [] xs ys h e = absurd (omega arith)
++-split (u ∷ us) (v ∷ vs) xs ys h e =
    let (p, q) = ++-split us vs xs ys (omega arith) cc in
    let head : u ≡ v = cc in (rw (head, p) refl, q)

to_le_bytes-injective :
    (w x y : ℕ) → x < 256 ^ w → y < 256 ^ w → to_le_bytes w x ≡ to_le_bytes w y → x ≡ y
to_le_bytes-injective w x y h g e =
    sym (from_le_bytes-to_le_bytes w x h) ∙ (ap from_le_bytes e ∙ from_le_bytes-to_le_bytes w y g)

-- A fixed-width number and what follows it.
pub le_split :
    (w x y : ℕ) (xs ys : Bytes)
    → x < 256 ^ w
    → y < 256 ^ w
    → to_le_bytes w x ++ xs ≡ to_le_bytes w y ++ ys
    → (x ≡ y) × (xs ≡ ys)
le_split w x y xs ys h g e =
    let (p, q) =
      ++-split (to_le_bytes w x) (to_le_bytes w y) xs ys
        (length-to_le_bytes w x ∙ sym (length-to_le_bytes w y)) e in
    (to_le_bytes-injective w x y h g p, q)
