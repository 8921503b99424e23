-- ===== src/Wire/Pow.antt =====
-- The admission proof of work: the test as a bound on the digest.
use provework.Prelude.{
  ℕ, zero, suc, ◌+◌, ◌-◌, ◌*◌, ◌^◌, ◌≤◌, ◌<◌, min, Bytes, IsByte, All, [], ◌∷◌, ◌++◌, true, false,
  ◌≡◌, refl, ap, ◌∙◌, arith, leb, ◌==◌, length, to_le_bytes, Bool-cases, inl, inr, leb→le, ◌↔◌,
}
use native.Mathlib.Nat.{pow-suc, mul_comm, mul_assoc}
use provework.Wire.{leading_zeros, leading_zero_bits, verify_pow}

-- The number that the bytes spell, the most significant first.
abbrev pub be_value : Bytes → ℕ
be_value [] = 0
be_value (b ∷ bs) = b * 256 ^ length bs + be_value bs

pow_pair : (n : ℕ) → n ≤ 8 → 2 ^ (8 - n) * 2 ^ n ≡ 256
pow_pair zero h = refl
pow_pair (suc zero) h = refl
pow_pair (suc (suc zero)) h = refl
pow_pair (suc (suc (suc zero))) h = refl
pow_pair (suc (suc (suc (suc zero)))) h = refl
pow_pair (suc (suc (suc (suc (suc zero))))) h = refl
pow_pair (suc (suc (suc (suc (suc (suc zero)))))) h = refl
pow_pair (suc (suc (suc (suc (suc (suc (suc zero))))))) h = refl
pow_pair (suc (suc (suc (suc (suc (suc (suc (suc zero)))))))) h = refl
pow_pair (suc (suc (suc (suc (suc (suc (suc (suc (suc n))))))))) h = absurd (omega arith)

leading_zeros-ge : (b n : ℕ) → b < 256 → n ≤ 8 → n ≤ leading_zeros b → b < 2 ^ (8 - n)
unfolding leading_zeros
leading_zeros-ge b zero lt h le = lt
leading_zeros-ge b (suc zero) lt h le = ground arith
leading_zeros-ge b (suc (suc zero)) lt h le = ground arith
leading_zeros-ge b (suc (suc (suc zero))) lt h le = ground arith
leading_zeros-ge b (suc (suc (suc (suc zero)))) lt h le = ground arith
leading_zeros-ge b (suc (suc (suc (suc (suc zero))))) lt h le = ground arith
leading_zeros-ge b (suc (suc (suc (suc (suc (suc zero)))))) lt h le = ground arith
leading_zeros-ge b (suc (suc (suc (suc (suc (suc (suc zero))))))) lt h le = ground arith
leading_zeros-ge b (suc (suc (suc (suc (suc (suc (suc (suc zero)))))))) lt h le = ground arith
leading_zeros-ge b (suc (suc (suc (suc (suc (suc (suc (suc (suc n))))))))) lt h le =
    absurd (omega arith)

leading_zeros-lt : (b n : ℕ) → n ≤ 8 → leading_zeros b < n → 2 ^ (8 - n) ≤ b
unfolding leading_zeros
leading_zeros-lt b zero h le = ground arith
leading_zeros-lt b (suc zero) h le = ground arith
leading_zeros-lt b (suc (suc zero)) h le = ground arith
leading_zeros-lt b (suc (suc (suc zero))) h le = ground arith
leading_zeros-lt b (suc (suc (suc (suc zero)))) h le = ground arith
leading_zeros-lt b (suc (suc (suc (suc (suc zero))))) h le = ground arith
leading_zeros-lt b (suc (suc (suc (suc (suc (suc zero)))))) h le = ground arith
leading_zeros-lt b (suc (suc (suc (suc (suc (suc (suc zero))))))) h le = ground arith
leading_zeros-lt b (suc (suc (suc (suc (suc (suc (suc (suc zero)))))))) h le = ground arith
leading_zeros-lt b (suc (suc (suc (suc (suc (suc (suc (suc (suc n))))))))) h le =
    absurd (omega arith)

scale_lt : (u v q : ℕ) → u < v → 0 < q → u * q < v * q
scale_lt u v q h p = grind arith

scale_le : (u v q : ℕ) → u ≤ v → u * q ≤ v * q
scale_le u v q h = grind arith

regroup : (x p q : ℕ) → p * q ≡ 256 → (p * x) * q ≡ x * 256
regroup x p q e = rw (mul_comm p x, mul_assoc x p q, e) refl

below : (b y x p : ℕ) → y < x → b < p → b * x + y < p * x
below b y x p hy hb = omega (arith, scale_le (b + 1) p x (omega arith), distribute b x)
  where
    distribute : (b x : ℕ) → (b + 1) * x ≡ b * x + x
    distribute b x = grind arith

positive_factor : (p q : ℕ) → p * q ≡ 256 → 0 < q
positive_factor p zero e = absurd (omega arith)
positive_factor p (suc q) e = omega arith

-- The first byte of a value settles the comparison with a power of two of eight bits at most.
head_below : (b y x p q : ℕ) → y < x → b < p → p * q ≡ 256 → (b * x + y) * q < x * 256
head_below b y x p q hy hb e =
    rw (← regroup x p q e)
      (scale_lt (b * x + y) (p * x) q (below b y x p hy hb) (positive_factor p q e))

head_above : (b y x p q : ℕ) → p ≤ b → p * q ≡ 256 → x * 256 ≤ (b * x + y) * q
head_above b y x p q h e =
    rw (← regroup x p q e) (scale_le (p * x) (b * x + y) q (omega (arith, scale_le p b x h)))

be_value-lt : (bs : Bytes) → All IsByte bs → be_value bs < 256 ^ length bs
be_value-lt [] h = omega arith
be_value-lt (b ∷ bs) h = omega (
  arith,
  pow-suc 256 (length bs),
  below b (be_value bs) (256 ^ length bs) 256 (be_value-lt bs h.1) h.0,
)

pow_shift : (m : ℕ) → 2 ^ (8 + m) ≡ 256 * 2 ^ m
pow_shift zero = omega arith
pow_shift (suc m) =
    ap (λ (t : ℕ). 2 ^ t) (shift m) ∙ omega (arith, pow_shift m, pow-suc 2 (8 + m), pow-suc 2 m)
  where
    shift : (m : ℕ) → 8 + suc m ≡ suc (8 + m)
    shift m = omega arith

pow_positive : (m : ℕ) → 1 ≤ 2 ^ m
pow_positive zero = omega arith
pow_positive (suc m) = omega (arith, pow_positive m, pow-suc 2 m)

-- One byte at the head, for a bound of at most eight bits.
byte-ge :
    (n b : ℕ) (bs : Bytes)
    → All IsByte (b ∷ bs)
    → n ≤ 8
    → b < 2 ^ (8 - n)
    → be_value (b ∷ bs) * 2 ^ n < 256 ^ length (b ∷ bs)
byte-ge n b bs h l lt = rw (pow-suc 256 (length bs)) (
    head_below b (be_value bs) (256 ^ length bs) (2 ^ (8 - n)) (2 ^ n) (be_value-lt bs h.1) lt
      (pow_pair n l))

byte-lt :
    (n b : ℕ) (bs : Bytes)
    → n ≤ 8
    → 2 ^ (8 - n) ≤ b
    → 256 ^ length (b ∷ bs) ≤ be_value (b ∷ bs) * 2 ^ n
byte-lt n b bs l le =
    rw (pow-suc 256 (length bs))
      (head_above b (be_value bs) (256 ^ length bs) (2 ^ (8 - n)) (2 ^ n) le (pow_pair n l))

-- A zero byte at the head leaves eight bits fewer to the rest.
zero-shift :
    (m b : ℕ) (bs : Bytes) → b ≡ 0 → be_value (b ∷ bs) * 2 ^ (8 + m) ≡ (be_value bs * 2 ^ m) * 256
zero-shift m b bs e = rw (e, pow_shift m) (move (be_value bs) (2 ^ m))
  where
    move : (y p : ℕ) → (0 * 256 ^ length bs + y) * (256 * p) ≡ (y * p) * 256
    move y p =
        rw (mul_comm 256 p, ← mul_assoc (0 * 256 ^ length bs + y) p 256)
          (ap (λ (t : ℕ). (t * p) * 256) (omega arith))

split_eight : (n : ℕ) → 8 ≤ n → n ≡ 8 + (n - 8)
split_eight n h = omega arith

test_zero : (b : ℕ) → (b == 0) ≡ true → b ≡ 0
test_zero b h = ground arith

leading_zeros-lt_eight : (b : ℕ) → (b == 0) ≡ false → leading_zeros b < 8
unfolding leading_zeros
leading_zeros-lt_eight b h = ground arith

pow_mono_eight : (n : ℕ) → 8 ≤ n → 256 ≤ 2 ^ n
pow_mono_eight n h = rw (split_eight n h, pow_shift (n - 8)) (omega (arith, pow_positive (n - 8)))

leading_zero_bits-zero :
    (b : ℕ) (bs : Bytes) → (b == 0) ≡ true → leading_zero_bits (b ∷ bs) ≡ 8 + leading_zero_bits bs
unfolding leading_zero_bits
leading_zero_bits-zero b bs h = rw h refl

leading_zero_bits-head :
    (b : ℕ) (bs : Bytes) → (b == 0) ≡ false → leading_zero_bits (b ∷ bs) ≡ leading_zeros b
unfolding leading_zero_bits
leading_zero_bits-head b bs h = rw h refl

-- The strings that begin with a number of zero bits are those whose value is below a power of two.
leading_zero_bits-ge :
    (n : ℕ) (bs : Bytes)
    → All IsByte bs
    → n ≤ 8 * length bs
    → n ≤ leading_zero_bits bs
    → be_value bs * 2 ^ n < 256 ^ length bs
leading_zero_bits-ge n [] h l g = omega arith
leading_zero_bits-ge n (b ∷ bs) h l g = elim (Bool-cases (b == 0)) [
  | inl z ↦ elim (Bool-cases (leb n 8)) [
    | inl few ↦
        byte-ge n b bs h (leb→le _ _ few) (omega (arith, test_zero b z, pow_positive (8 - n)))
    | inr many ↦
        let more : 8 ≤ n = ground arith in
        let ih : be_value bs * 2 ^ (n - 8) < 256 ^ length bs =
          leading_zero_bits-ge (n - 8) bs h.1 (omega arith)
            (omega (arith, leading_zero_bits-zero b bs z)) in
        omega (
          arith,
          ih,
          zero-shift (n - 8) b bs (test_zero b z),
          ap (λ (t : ℕ). be_value (b ∷ bs) * 2 ^ t) (split_eight n more),
          pow-suc 256 (length bs),
        )
  ]
  | inr nz ↦
      let le : n ≤ leading_zeros b = omega (arith, leading_zero_bits-head b bs nz) in
      let few : n ≤ 8 = omega (arith, leading_zeros-lt_eight b nz) in
      byte-ge n b bs h few (leading_zeros-ge b n h.0 few le)
]

leading_zero_bits-lt :
    (n : ℕ) (bs : Bytes)
    → n ≤ 8 * length bs
    → leading_zero_bits bs < n
    → 256 ^ length bs ≤ be_value bs * 2 ^ n
leading_zero_bits-lt n [] l g = absurd (omega arith)
leading_zero_bits-lt n (b ∷ bs) l g = elim (Bool-cases (b == 0)) [
  | inl z ↦
      let more : 8 ≤ n = omega (arith, leading_zero_bits-zero b bs z) in
      let ih : 256 ^ length bs ≤ be_value bs * 2 ^ (n - 8) =
        leading_zero_bits-lt (n - 8) bs (omega arith)
          (omega (arith, leading_zero_bits-zero b bs z)) in
      omega (
        arith,
        ih,
        zero-shift (n - 8) b bs (test_zero b z),
        ap (λ (t : ℕ). be_value (b ∷ bs) * 2 ^ t) (split_eight n more),
        pow-suc 256 (length bs),
      )
  | inr nz ↦ elim (Bool-cases (leb n 8)) [
    | inl few ↦
        byte-lt n b bs (leb→le _ _ few)
          (leading_zeros-lt b n (leb→le _ _ few) (omega (arith, leading_zero_bits-head b bs nz)))
    | inr many ↦
        let more : 8 ≤ n = ground arith in
        grind
          (arith, byte-lt 8 b bs, pow_mono_eight n more, scale_le 256 (2 ^ n) (be_value (b ∷ bs)))
  ]
]

-- A counter passes for a number of bits just where the digest of the nonce and the counter, read as
-- a number of 256 bits, the most significant byte first, is below the power of two that leaves so many
-- leading bits zero, 256 of them at most, for a digest of 32 bytes.
pub verify_pow_iff :
    (blake3 : Bytes → Bytes) (nonce : Bytes) (counter bits : ℕ)
    → All IsByte (blake3 (nonce ++ to_le_bytes 8 counter))
    → length (blake3 (nonce ++ to_le_bytes 8 counter)) ≡ 32
    → (verify_pow blake3 nonce counter bits ≡ true)
      ↔ (be_value (blake3 (nonce ++ to_le_bytes 8 counter)) * 2 ^ min bits 256 < 2 ^ 256)
unfolding verify_pow
verify_pow_iff blake3 nonce counter bits h l = (
  λ v. rw (l) at (leading_zero_bits-ge (min bits 256) digest h (omega (arith, l)) (leb→le _ _ v)),
  λ lt. elim (Bool-cases (leb (min bits 256) (leading_zero_bits digest))) [
    | inl good ↦ good
    | inr bad ↦ absurd (
        contradiction (be_value digest * 2 ^ min bits 256) lt (
          rw (l) at
            (leading_zero_bits-lt (min bits 256) digest (omega (arith, l)) (not_leb _ _ bad))))
  ],
)
  where
    digest : Bytes
    digest = blake3 (nonce ++ to_le_bytes 8 counter)

    not_leb : (a b : ℕ) → leb a b ≡ false → b < a
    not_leb a b e = ground arith

    contradiction : (v : ℕ) → v < 2 ^ 256 → 256 ^ 32 ≤ v → ⊥
    contradiction v p q = omega arith
