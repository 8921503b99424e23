-- ===== src/Coordinator/Net/Auth/Admission.antt =====
-- Who is authenticated after a nonce signature.
use provework.Prelude.{
  ℕ, Bytes, Option, none, some, [], ◌∷◌, Bool, true, false, ◌&&◌, ◌≡◌, ◌⊎◌, refl, ap, sym, ◌∙◌,
  arith, if◌then◌else◌, ◌≤◌, ◌++◌, not, min, leb→le, to_le_bytes, ok, Option-cases, Result-cases,
  ◌==◌, ==_iff, &&_split, Bool-cases, inl, inr,
}
use provework.Jobfmt.Encodings.{from_hex}
use provework.Wire.{leading_zero_bits, verify_pow}
use provework.Coordinator.Net.{
  Crypto, ServeConfig, Conn, Conns, Server, map_or-elim, if-elim, find_conn, update_conn, send,
}
use provework.Coordinator.Net.Auth.{verify_nonce, pow_ok, key_ok, on_nonce_sig, admit}

-- The entry of a key after a change.
abbrev pub changed : (Conn → Conn) → Bool → Option Conn → Option Conn
changed f b none = none
changed f b (some c) = some (if b then f c else c)

pub find_conn-update_conn :
    (f : Conn → Conn) (conns : Conns) (k id : ℕ)
    → find_conn (update_conn f conns k) id ≡ changed f (k == id) (find_conn conns id)
unfolding find_conn update_conn
find_conn-update_conn f [] k id = refl
find_conn-update_conn f ((j, c) ∷ conns) k id = elim (Bool-cases (j == k)) [
  | inl at_k ↦ elim (Bool-cases (j == id)) [
    | inl at_id ↦ rw (at_k, at_id, same_test j k id at_k ∙ at_id) refl
    | inr off ↦
        rw (at_k, off)
          (unchanged (find_conn conns id)
            ∙ ap (λ (b : Bool). changed f b (find_conn conns id))
                (sym (same_test j k id at_k ∙ off)))
  ]
  | inr off_k ↦ elim (Bool-cases (j == id)) [
    | inl at_id ↦ rw (off_k, at_id, other_test j k id off_k at_id) refl
    | inr off ↦ rw (off_k, off) (find_conn-update_conn f conns k id)
  ]
]
  where
    same_test : (j k id : ℕ) → (j == k) ≡ true → (k == id) ≡ (j == id)
    same_test j k id h = rw ((==_iff j k).0 h) refl

    other_test : (j k id : ℕ) → (j == k) ≡ false → (j == id) ≡ true → (k == id) ≡ false
    other_test j k id h e = ground arith

    unchanged : (o : Option Conn) → o ≡ changed f false o
    unchanged none = refl
    unchanged (some c) = refl

-- The authenticated entry of an id.
abbrev pub IsAuthed : Conns → ℕ → Type 0
IsAuthed conns id = (c : Conn) × (find_conn conns id ≡ some c) × (c.authed ≡ true)

-- The signature of a connection's nonce by the key of its Hello, both in hex.
abbrev pub IsSigned : Crypto → Bytes → (key_hex : Bytes) → Option Bytes → Type 0
IsSigned crypto n key_hex sig =
    (key : Bytes) × (sig_hex : Bytes) × (sig_bytes : Bytes) × (sig ≡ some sig_hex)
    × (from_hex key_hex 32 ≡ ok key)
    × (from_hex sig_hex 64 ≡ ok sig_bytes)
    × (crypto.key_valid key ≡ true)
    × (crypto.verifies key n sig_bytes ≡ true)

-- An entry is admitted for its nonce: the hash of the nonce and the counter begins with the zero bits
-- asked for, and the key of its Hello signed the nonce, or it gave no key where none is required.
abbrev pub IsAdmitted : Crypto → ServeConfig → Conn → Option Bytes → ℕ → Type 0
IsAdmitted crypto cfg c sig counter =
    (n : Bytes) × (c.nonce ≡ some n)
    × (min cfg.identity_pow_bits 256
        ≤ leading_zero_bits (crypto.blake3 (n ++ to_le_bytes 8 counter)))
    × (((key_hex : Bytes) × (c.pubkey ≡ some key_hex) × IsSigned crypto n key_hex sig)
        ⊎ ((c.pubkey ≡ none) × (cfg.require_identity ≡ false)))

-- The entry of an id is admitted.
abbrev pub Passes : Crypto → ServeConfig → Conns → ℕ → Option Bytes → ℕ → Type 0
Passes crypto cfg conns id sig counter =
    (c : Conn) × (find_conn conns id ≡ some c) × IsAdmitted crypto cfg c sig counter

verify_nonce-IsSigned :
    (crypto : Crypto) (n key_hex sig_hex : Bytes)
    → verify_nonce crypto key_hex n sig_hex ≡ true
    → IsSigned crypto n key_hex (some sig_hex)
unfolding verify_nonce
verify_nonce-IsSigned crypto n key_hex sig_hex h = elim (Result-cases (from_hex key_hex 32)) [
  | inl (e, p) ↦ absurd (cc (rw (verify_nonce, p) at h))
  | inr (key, p) ↦ elim (Result-cases (from_hex sig_hex 64)) [
    | inl (e, q) ↦ absurd (cc (rw (verify_nonce, p, q) at h))
    | inr (sig_bytes, q) ↦
        let (valid, verified) =
          &&_split (crypto.key_valid key) (crypto.verifies key n sig_bytes)
            (rw (verify_nonce, p, q) at h) in
        (key, sig_hex, sig_bytes, refl, p, q, valid, verified)
  ]
]

required : (b : Bool) → not b ≡ true → b ≡ false
required true h = cc
required false h = refl

pow_ok-zeros :
    (crypto : Crypto) (cfg : ServeConfig) (c : Conn) (counter : ℕ)
    → pow_ok crypto cfg c counter ≡ true
    → (n : Bytes) × (c.nonce ≡ some n)
      × (min cfg.identity_pow_bits 256
          ≤ leading_zero_bits (crypto.blake3 (n ++ to_le_bytes 8 counter)))
unfolding pow_ok verify_pow
pow_ok-zeros crypto cfg c counter h = elim (Option-cases c.nonce) [
  | inl e ↦ absurd (cc (rw (pow_ok, e) at h))
  | inr (n, e) ↦ (n, e, leb→le _ _ (rw (pow_ok, e, verify_pow) at h))
]

key_ok-IsSigned :
    (crypto : Crypto) (cfg : ServeConfig) (c : Conn) (sig : Option Bytes) (n : Bytes)
    → c.nonce ≡ some n
    → key_ok crypto cfg c sig ≡ true
    → ((key_hex : Bytes) × (c.pubkey ≡ some key_hex) × IsSigned crypto n key_hex sig)
      ⊎ ((c.pubkey ≡ none) × (cfg.require_identity ≡ false))
unfolding key_ok
key_ok-IsSigned crypto cfg c sig n e h = elim (Option-cases c.pubkey) [
  | inl p ↦ inr (p, required _ (rw (key_ok, e, p) at h))
  | inr (key_hex, p) ↦ inl (key_hex, p, signed sig (key_hex) (rw (key_ok, e, p) at h))
]
  where
    signed :
        (o : Option Bytes) (key_hex : Bytes)
        → elim o [ none ↦ false | some sg ↦ verify_nonce crypto key_hex n sg ] ≡ true
        → IsSigned crypto n key_hex o
    signed none key_hex g = absurd cc
    signed (some sg) key_hex g = verify_nonce-IsSigned crypto n key_hex sg g

admitted :
    (crypto : Crypto) (cfg : ServeConfig) (c : Conn) (sig : Option Bytes) (counter : ℕ)
    → (pow_ok crypto cfg c counter && key_ok crypto cfg c sig) ≡ true
    → IsAdmitted crypto cfg c sig counter
admitted crypto cfg c sig counter h =
    let (n, e, zeros) = pow_ok-zeros crypto cfg c counter (&&_split _ _ h).0 in
    (n, e, zeros, key_ok-IsSigned crypto cfg c sig n e (&&_split _ _ h).1)

module _ (crypto : Crypto) (cfg : ServeConfig) (conn : ℕ) (sig : Option Bytes) (counter : ℕ)
    (s : Server) where
  from_before :
      (id : ℕ) (o : Option Conn) (b : Bool) {c : Conn}
      → changed admit b o ≡ some c
      → c.authed ≡ true
      → (b ≡ true) ⊎ ((d : Conn) × (o ≡ some d) × (d.authed ≡ true))
  from_before id none b e a = absurd cc
  from_before id (some d) true e a = inl refl
  from_before id (some d) false {c} e a = inr (d, refl, rw (same d c e) a)
    where
      same : (d c : Conn) → some d ≡ some c → d ≡ c
      same d c e = cc

  admitted-IsAuthed :
      (id : ℕ) (k : Conn)
      → find_conn s.conns conn ≡ some k
      → (pow_ok crypto cfg k counter && key_ok crypto cfg k sig) ≡ true
      → IsAuthed (update_conn admit s.conns conn) id
      → IsAuthed s.conns id ⊎ ((id ≡ conn) × Passes crypto cfg s.conns conn sig counter)
  admitted-IsAuthed id k e b (c, found, a) =
      let there : changed admit (conn == id) (find_conn s.conns id) ≡ some c =
        sym (find_conn-update_conn admit s.conns conn id) ∙ found in
      elim (from_before id (find_conn s.conns id) (conn == id) there a) [
        | inl here ↦
            inr (sym ((==_iff conn id).0 here), (k, e, admitted crypto cfg k sig counter b))
        | inr old ↦ inl old
      ]

  -- A connection that is authenticated after a nonce signature was so before, or it is the one that sent
  -- it, and the hash of its nonce and the counter begins with as many zero bits as are asked for, 256 at
  -- most; if its Hello gave a key, that is a valid key, in hex, and the signature, in hex, verifies for it
  -- and the nonce, and if its Hello gave none, the server does not require an identity.
  pub on_nonce_sig-IsAuthed :
      (id : ℕ)
      → IsAuthed (on_nonce_sig crypto cfg conn sig counter s).conns id
      → IsAuthed s.conns id ⊎ ((id ≡ conn) × Passes crypto cfg s.conns conn sig counter)
  unfolding on_nonce_sig send
  on_nonce_sig-IsAuthed id authed =
      map_or-elim Goal (find_conn s.conns conn) s _ (λ a. inl a)
        (λ k e.
          if-elim Goal (pow_ok crypto cfg k counter && key_ok crypto cfg k sig) _ _
            (λ b a. admitted-IsAuthed id k e b a) (λ b a. inl a))
        authed
    where
      Goal : Server → Type 0
      Goal t =
          IsAuthed t.conns id
          → IsAuthed s.conns id ⊎ ((id ≡ conn) × Passes crypto cfg s.conns conn sig counter)
