-- ===== src/Coordinator/Zk/Process/Ends.antt =====
-- The wait ends: a loop that sleeps between its looks at the clock passes its deadline.
use provework.Prelude.{
  leb→lt_flip, ℕ, zero, suc, ◌+◌, ◌*◌, ◌≤◌, ◌<◌, ◌≡◌, ◌⊎◌, refl, ap, sym, ◌∙◌, Bool, true, false,
  leb, leb→le, ◌==◌, ==_iff, arith, Bool-cases, inl, inr,
}
use provework.Coordinator.Zk.Process.{
  Polled, ended, running, poll_failed, Child, Waited, exited, killed, wait_failed, out_of_fuel,
  wait,
}

-- Each round sleeps for that long at least, by a clock that does not go back.
abbrev pub Sleeps : ℕ → Child → Type 0
Sleeps pause child = (i : ℕ) → child.clock i + pause ≤ child.clock (suc i)

Polled-cases : (p : Polled) → ((b : Bool) × (p ≡ ended b)) ⊎ ((p ≡ running) ⊎ (p ≡ poll_failed))
Polled-cases (ended b) = inl (b, refl)
Polled-cases running = inr (inl refl)
Polled-cases poll_failed = inr (inr refl)

exit_injective : (x y : Bool) {w : Waited} → w ≡ exited x → w ≡ exited y → x ≡ y
exit_injective x y p q = cc

module _ (limit : ℕ) (child : Child) where
  wait-none : (i : ℕ) → wait limit child zero i ≡ out_of_fuel
  unfolding wait
  wait-none i = refl

  wait-ended :
      (n i : ℕ) (b : Bool) → child.polls i ≡ ended b → wait limit child (suc n) i ≡ exited b
  unfolding wait
  wait-ended n i b e = rw (wait, e) refl

  wait-failed : (n i : ℕ) → child.polls i ≡ poll_failed → wait limit child (suc n) i ≡ wait_failed
  unfolding wait
  wait-failed n i e = rw (wait, e) refl

  wait-late :
      (n i : ℕ)
      → child.polls i ≡ running
      → leb limit (child.clock i) ≡ true
      → wait limit child (suc n) i ≡ killed
  unfolding wait
  wait-late n i e l = rw (wait, e, l) refl

  wait-again :
      (n i : ℕ)
      → child.polls i ≡ running
      → leb limit (child.clock i) ≡ false
      → wait limit child (suc n) i ≡ wait limit child n (suc i)
  unfolding wait
  wait-again n i e l = rw (wait, e, l) refl

  -- Up to a round, from another one on, the child runs and its deadline has not passed.
  abbrev pub Early : (from to : ℕ) → Type 0
  Early from to = (i : ℕ) → from ≤ i → i < to → (child.polls i ≡ running) × (child.clock i < limit)

  -- What a wait ends with in a round: the child has ended by itself, its deadline has passed, or the poll
  -- failed.
  abbrev pub EndsIn : ℕ → Waited → Type 0
  EndsIn k w =
      ((b : Bool) × (child.polls k ≡ ended b) × (w ≡ exited b))
      ⊎ (((child.polls k ≡ running) × (limit ≤ child.clock k) × (w ≡ killed))
          ⊎ ((child.polls k ≡ poll_failed) × (w ≡ wait_failed)))

  -- The round in which a wait ends, its first decisive one.
  abbrev pub Ends : ℕ → Waited → Type 0
  Ends i w = (k : ℕ) × (i ≤ k) × Early i k × EndsIn k w

  here : (i : ℕ) {w : Waited} → EndsIn i w → Ends i w
  here i e = (i, omega arith, (λ j l u. absurd (omega arith)), e)

  after :
      (i : ℕ) {w : Waited}
      → child.polls i ≡ running
      → child.clock i < limit
      → Ends (suc i) w
      → Ends i w
  after i r l (k, past, early, e) = (
    k,
    omega arith,
    λ j from to. elim (Bool-cases (i == j)) [
      | inl same ↦ rw⁻¹ ((==_iff i j).0 same) (r, l)
      | inr off ↦ early j (ground arith) to
    ],
    e,
  )

  -- A round that is early goes on; every other one ends the wait.
  wait-Ends_round :
      (n i : ℕ)
      → (child.clock i < limit → Ends (suc i) (wait limit child n (suc i)))
      → Ends i (wait limit child (suc n) i)
  wait-Ends_round n i next = elim (Polled-cases (child.polls i)) [
    | inl (b, e) ↦ here i (inl (b, e, wait-ended n i b e))
    | inr (inr e) ↦ here i (inr (inr (e, wait-failed n i e)))
    | inr (inl e) ↦ elim (Bool-cases (leb limit (child.clock i))) [
      | inl late ↦ here i (inr (inl (e, leb→le _ _ late, wait-late n i e late)))
      | inr early ↦
          rw (wait-again n i e early)
            (after i e (leb→lt_flip _ _ early) (next (leb→lt_flip _ _ early)))
    ]
  ]

  -- Where every round sleeps at least `pause` milliseconds, a wait whose rounds can fill the limit
  -- ends: the child has exited, is killed at its deadline, or a poll of it has failed.
  pub wait-Ends :
      (pause fuel i : ℕ)
      → Sleeps pause child
      → limit ≤ child.clock i + fuel * pause
      → Ends i (wait limit child (suc fuel) i)
  wait-Ends pause zero i s h = wait-Ends_round zero i λ early. absurd (omega arith)
  wait-Ends pause (suc n) i s h =
      wait-Ends_round (suc n) i λ early. wait-Ends pause n (suc i) s (omega (arith, s i))

  -- A wait that ends in an exit has seen it in a poll.
  pub wait-exited :
      (fuel i : ℕ) {b : Bool}
      → wait limit child fuel i ≡ exited b
      → (k : ℕ) × (child.polls k ≡ ended b)
  wait-exited zero i h = absurd (cc (wait-none i, h))
  wait-exited (suc n) i {b} h = elim (Polled-cases (child.polls i)) [
    | inl (x, e) ↦ (i, e ∙ ap ended (exit_injective x b (wait-ended n i x e) h))
    | inr (inr e) ↦ absurd (cc (wait-failed n i e, h))
    | inr (inl e) ↦ elim (Bool-cases (leb limit (child.clock i))) [
      | inl late ↦ absurd (cc (wait-late n i e late, h))
      | inr early ↦ wait-exited n (suc i) (sym (wait-again n i e early) ∙ h)
    ]
  ]
