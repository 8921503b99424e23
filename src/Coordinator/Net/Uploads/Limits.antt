-- ===== src/Coordinator/Net/Uploads/Limits.antt =====
-- What an upload may leave behind.
use provework.Prelude.{
  ℕ, ◌*◌, ◌/◌, ◌≤◌, Bytes, some, false, ◌≡◌, ◌⊎◌, refl, ap, ◌∙◌, arith, ltb, length, All, bytes_eq,
  bytes_eq→≡, Bool-cases, inl, inr, Result, ok, err,
}
use provework.Jobfmt.Encodings.{HexError, from_hex}
use provework.Coordinator.Net.{Crypto, Conns, Server}
use provework.Coordinator.Net.Uploads.{max_blob_bytes, max_uploads_per_conn, uploaded}

Hex-cases :
    (r : Result HexError Bytes) → ((e : HexError) × (r ≡ err e)) ⊎ ((bs : Bytes) × (r ≡ ok bs))
Hex-cases (err e) = inl (e, refl)
Hex-cases (ok bs) = inr (bs, refl)

-- The bytes that an upload is taken for are at most sixteen megabytes in hex, decode from it, and
-- hash to the id that it claims.
pub uploaded_sound :
    (crypto : Crypto) (id_hex bytes_hex : Bytes) {content : Bytes}
    → uploaded crypto id_hex bytes_hex ≡ some content
    → (length bytes_hex ≤ 2 * max_blob_bytes)
      × (from_hex bytes_hex (length bytes_hex / 2) ≡ ok content)
      × (from_hex id_hex 32 ≡ ok (crypto.blake3 content))
unfolding uploaded
uploaded_sound crypto id_hex bytes_hex {content} h =
    elim (Bool-cases (ltb (2 * max_blob_bytes) (length bytes_hex))) [
      | inl big ↦ absurd (cc (rw (uploaded, big) at h))
      | inr fits ↦ elim (Hex-cases (from_hex bytes_hex (length bytes_hex / 2))) [
        | inl (e, bad) ↦ absurd (cc (rw (uploaded, fits, bad) at h))
        | inr (bs, good) ↦ elim (Hex-cases (from_hex id_hex 32)) [
          | inl (e, bad) ↦ absurd (cc (rw (uploaded, fits, good, bad) at h))
          | inr (id, claimed) ↦ elim (Bool-cases (bytes_eq id (crypto.blake3 bs))) [
            | inl same ↦
                let e : some bs ≡ some content = rw (uploaded, fits, good, claimed, same) at h in
                let is : bs ≡ content = cc in
                (
                  small _ _ fits,
                  good ∙ ap ok is,
                  claimed ∙ ap ok (bytes_eq→≡ _ _ same ∙ ap crypto.blake3 is),
                )
            | inr other ↦ absurd (cc (rw (uploaded, fits, good, claimed, other) at h))
          ]
        ]
      ]
    ]
  where
    small : (a b : ℕ) → ltb a b ≡ false → b ≤ a
    small a b e = ground arith

-- No connection has more than the limit's uploads.
abbrev pub Bounded : Conns → Type 0
Bounded conns = All (λ p. p.1.uploads ≤ max_uploads_per_conn) conns

abbrev IsBounded : Server → Type 0
IsBounded s = Bounded s.conns
