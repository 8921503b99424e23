-- ===== src/Jobfmt/Encodings/Decoding.antt =====
-- The journal is read back, and the hex decoder gives bytes of the length that was asked for.
use provework.Prelude.{
  ℕ, zero, suc, ◌+◌, ◌-◌, ◌≢◌, leb, ◌&&◌, Bool, ◌*◌, ◌^◌, ◌<◌, Bytes, [], ◌∷◌, ◌≡◌, refl, ap, arith,
  ◌++◌, ◌==◌, length, drop, All, IsByte, le_split, to_le_bytes, length-to_le_bytes, true, false,
  if◌then◌else◌, Result, ok, err,
}
use provework.Jobfmt.Encodings.{
  journal, journal_output, HexError, digit, decode_digits, from_hex, bad_length, invalid_byte,
}

drop-prefix : (us vs : Bytes) (n : ℕ) → length us ≡ n → drop n (us ++ vs) ≡ vs
drop-prefix [] vs zero e = refl
drop-prefix [] vs (suc n) e = absurd (omega arith)
drop-prefix (u ∷ us) vs zero e = absurd (omega arith)
drop-prefix (u ∷ us) vs (suc n) e = drop-prefix us vs n (omega arith)

-- The output is read back from a journal, and a journal determines the instruction count, where it
-- fits 64 bits, and the output.
pub journal_lem :
    (n k : ℕ) (output other : Bytes)
    → n < 2 ^ 64
    → k < 2 ^ 64
    → (journal_output (journal n output) ≡ output)
      × (journal n output ≡ journal k other → (n ≡ k) × (output ≡ other))
unfolding journal journal_output
journal_lem n k output other h g = (
  drop-prefix (to_le_bytes 8 n) output 8 (length-to_le_bytes 8 n),
  λ e. le_split 8 n k output other h g e,
)

abbrev DigitOf : Result HexError ℕ → Type 0
DigitOf (ok v) = v < 16
DigitOf (err e) = (c : ℕ) × (e ≡ invalid_byte c)

DigitOf-if :
    (b : Bool) (v w : Result HexError ℕ)
    → (b ≡ true → DigitOf v)
    → DigitOf w
    → DigitOf (if b then v else w)
DigitOf-if true v w p q = p refl
DigitOf-if false v w p q = q

digit-DigitOf : (c : ℕ) → DigitOf (digit c)
unfolding digit
digit-DigitOf c =
    DigitOf-if (leb 48 c && leb c 57) (ok (c - 48)) _ (λ e. ground arith)
      (DigitOf-if (leb 97 c && leb c 102) (ok (c - 87)) _ (λ e. ground arith)
        (DigitOf-if (leb 65 c && leb c 70) (ok (c - 55)) _ (λ e. ground arith) (c, refl)))

abbrev pub DecodedOf : ℕ → Result HexError Bytes → Type 0
DecodedOf n (ok bs) = (length bs ≡ n) × All IsByte bs
DecodedOf n (err e) = (c : ℕ) × (e ≡ invalid_byte c)

decode_digits-DecodedOf : (n : ℕ) (cs : Bytes) → length cs ≡ n * 2 → DecodedOf n (decode_digits cs)
unfolding decode_digits
decode_digits-DecodedOf zero [] e = (refl, tt)
decode_digits-DecodedOf (suc n) [] e = absurd (omega arith)
decode_digits-DecodedOf n (c ∷ []) e = absurd (omega arith)
decode_digits-DecodedOf zero (c ∷ d ∷ cs) e = absurd (omega arith)
decode_digits-DecodedOf (suc n) (c ∷ d ∷ cs) e =
    joined (digit c) (digit d) (decode_digits cs) (digit-DigitOf c) (digit-DigitOf d)
      (decode_digits-DecodedOf n cs (omega arith))
  where
    joined :
        (x y : Result HexError ℕ) (r : Result HexError Bytes)
        → DigitOf x
        → DigitOf y
        → DecodedOf n r
        → DecodedOf (suc n) (elim x [
          | err e ↦ err e
          | ok high ↦ elim y [
            | err e ↦ err e
            | ok low ↦ elim r [ err e ↦ err e | ok bs ↦ ok ((high * 16 + low) ∷ bs) ]
          ]
        ])
    joined (err e) y r p q h = p
    joined (ok a) (err e) r p q h = q
    joined (ok a) (ok b) (err e) p q h = h
    joined (ok a) (ok b) (ok bs) p q h = (ap suc h.0, (omega arith, h.1))

-- The hex decoder refuses a text of the wrong length with that length, and on the right length it
-- gives exactly the bytes that were asked for, each below 256, or names a byte that is no digit.
pub from_hex_lem :
    (s : Bytes) (expect : ℕ)
    → (length s ≢ expect * 2 → from_hex s expect ≡ err (bad_length (length s) (expect * 2)))
      × (length s ≡ expect * 2 → DecodedOf expect (from_hex s expect))
unfolding from_hex
from_hex_lem s expect = (
  λ h. rw (wrong (length s) (expect * 2) h) refl,
  λ h. rw (right (length s) (expect * 2) h) (decode_digits-DecodedOf expect s h),
)
  where
    wrong : (a b : ℕ) → a ≢ b → (a == b) ≡ false
    wrong a b h = ground arith

    right : (a b : ℕ) → a ≡ b → (a == b) ≡ true
    right a b h = ground arith
