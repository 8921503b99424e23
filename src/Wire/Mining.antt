-- ===== src/Wire/Mining.antt =====
-- crates/wire/src/lib.rs: what mining an admission proof of work returns.
use provework.Prelude.{
  ℕ, zero, suc, ◌+◌, ◌%◌, ◌^◌, ◌≤◌, ◌<◌, Bytes, some, true, false, ◌≡◌, refl, ◌∙◌, arith,
  if◌then◌else◌, Bool-cases, inl, inr,
}
use native.Mathlib.Decide.{ℕ_discrete}
use provework.Wire.{verify_pow, mine_from, mine_pow}

add_zero : (n : ℕ) → n + 0 ≡ n
add_zero n = omega arith

zero_add : (n : ℕ) → 0 + n ≡ n
zero_add n = omega arith

add_shift : (n d : ℕ) → n + suc d ≡ (n + 1) + d
add_shift n d = omega arith

no_wrap : (n : ℕ) → n + 1 < 2 ^ 64 → (n + 1) % 2 ^ 64 ≡ n + 1
no_wrap n h = omega arith

-- A counter that solves the puzzle is found by as much fuel as there are counters up to it, and the
-- counter found is the first that does.
module _ (blake3 : Bytes → Bytes) (nonce : Bytes) where
  mine_from-suc :
      (fuel counter bits : ℕ)
      → mine_from blake3 nonce (suc fuel) counter bits ≡ (
          if verify_pow blake3 nonce counter bits
          then some counter
          else mine_from blake3 nonce fuel ((counter + 1) % 2 ^ 64) bits)
  unfolding mine_from
  mine_from-suc fuel counter bits = refl

  abbrev FindsFirst : ℕ → ℕ → ℕ → ℕ → Type 0
  FindsFirst fuel counter last bits =
      (c : ℕ) × (mine_from blake3 nonce fuel counter bits ≡ some c)
      × (verify_pow blake3 nonce c bits ≡ true)
      × (c ≤ last)
      × ((j : ℕ) → counter ≤ j → j < c → verify_pow blake3 nonce j bits ≡ false)

  mine_from-FindsFirst :
      (d fuel counter bits : ℕ)
      → d < fuel
      → counter + d < 2 ^ 64
      → verify_pow blake3 nonce (counter + d) bits ≡ true
      → FindsFirst fuel counter (counter + d) bits
  mine_from-FindsFirst d zero counter bits h w v = absurd (omega arith)
  mine_from-FindsFirst zero (suc fuel) counter bits h w v =
      let now : verify_pow blake3 nonce counter bits ≡ true = rw (add_zero counter) at v in
      (
        counter,
        mine_from-suc fuel counter bits ∙ rw now refl,
        now,
        omega arith,
        λ j lo hi. absurd (omega arith),
      )
  mine_from-FindsFirst (suc d) (suc fuel) counter bits h w v =
      elim (Bool-cases (verify_pow blake3 nonce counter bits)) [
        | inl now ↦ (
          counter,
          mine_from-suc fuel counter bits ∙ rw now refl,
          now,
          omega arith,
          λ j lo hi. absurd (omega arith),
        )
        | inr later ↦
            let (c, e, good, le, first) =
              mine_from-FindsFirst d fuel (counter + 1) bits (omega arith) (omega arith)
                (rw (add_shift counter d) at v) in
            (
              c,
              mine_from-suc fuel counter bits ∙ rw (later, no_wrap counter (omega arith)) e,
              good,
              omega arith,
              λ j lo hi. elim (ℕ_discrete j counter) [
                | yes same ↦ rw same later
                | no other ↦ first j (omega arith) hi
              ],
            )
      ]

  -- Where some counter of 64 bits solves the puzzle, `mine_pow` ends, with fuel for the counters up
  -- to it, and returns the first counter that does.
  pub mine_pow-finds :
      (k fuel bits : ℕ)
      → verify_pow blake3 nonce k bits ≡ true
      → k < 2 ^ 64
      → k < fuel
      → (c : ℕ) × (mine_pow blake3 nonce fuel bits ≡ some c)
        × (verify_pow blake3 nonce c bits ≡ true)
        × (c ≤ k)
        × ((j : ℕ) → j < c → verify_pow blake3 nonce j bits ≡ false)
  unfolding mine_pow
  mine_pow-finds k fuel bits v w f =
      let (c, e, good, le, first) =
        mine_from-FindsFirst k fuel 0 bits f (omega arith) (rw (zero_add k) v) in
      (c, e, good, omega arith, λ j hi. first j (omega arith) hi)
