-- ===== src/Contentstore/Ids.antt =====
-- crates/contentstore/src/lib.rs: content ids in hex.
use provework.Prelude.{
  ℕ, ◌/◌, ◌%◌, ◌<◌, Bytes, IsByte, All, some, [], ◌∷◌, true, ◌≡◌, refl, arith, length, ok, hex_char,
  lower_hex, hex_pair, cuts_before, length-lower_hex, hex_pair-hex_char,
}
use provework.Contentstore.{ContentId, content_id, id_bytes}

hex_char-lt : (n : ℕ) → n < 16 → hex_char n < 128
unfolding hex_char
hex_char-lt n h = ground arith

cuts_before-ascii : (c : ℕ) (cs : Bytes) → c < 128 → cuts_before (c ∷ cs) ≡ true
unfolding cuts_before
cuts_before-ascii c cs h = ground arith

cuts_before-nil : cuts_before [] ≡ true
unfolding cuts_before
cuts_before-nil = refl

id_bytes-nil : id_bytes [] ≡ ok []
unfolding id_bytes
id_bytes-nil = refl

cuts_before-lower_hex : (bs : Bytes) → All IsByte bs → cuts_before (lower_hex bs) ≡ true
unfolding lower_hex
cuts_before-lower_hex [] h = cuts_before-nil
cuts_before-lower_hex (b ∷ bs) h =
    cuts_before-ascii (hex_char (b / 16)) _ (hex_char-lt (b / 16) (omega arith))

id_bytes-step :
    (c d : ℕ) (cs : Bytes) (b : ℕ) (bs : Bytes)
    → cuts_before (c ∷ d ∷ cs) ≡ true
    → cuts_before cs ≡ true
    → hex_pair c d ≡ some b
    → id_bytes cs ≡ ok bs
    → id_bytes (c ∷ d ∷ cs) ≡ ok (b ∷ bs)
unfolding id_bytes
id_bytes-step c d cs b bs p q e r = rw (id_bytes, p, q, e, r) refl

id_bytes-lower_hex : (bs : Bytes) → All IsByte bs → id_bytes (lower_hex bs) ≡ ok bs
unfolding lower_hex
id_bytes-lower_hex [] h = id_bytes-nil
id_bytes-lower_hex (b ∷ bs) h =
    id_bytes-step (hex_char (b / 16)) (hex_char (b % 16)) (lower_hex bs) b bs
      (cuts_before-ascii _ _ (hex_char-lt (b / 16) (omega arith))) (cuts_before-lower_hex bs h.1)
      (hex_pair-hex_char b h.0) (id_bytes-lower_hex bs h.1)

-- An id written in hex is read back as itself, for every id of 32 bytes.
pub content_id-lower_hex :
    (id : ContentId) → All IsByte id → length id ≡ 32 → content_id (lower_hex id) ≡ ok id
unfolding content_id
content_id-lower_hex id h l = rw (content_id, length-lower_hex id, l) (id_bytes-lower_hex id h)
