-- ===== src/Rvcore/Run/Chain.antt =====
-- The run loop ends, counts its instructions, and commits to the state it ends in.
use provework.Prelude.{
  ℕ, zero, suc, ◌+◌, ◌<◌, ◌≤◌, Bytes, Option, none, some, List, [], ◌∷◌, ◌++◌, true, false, ◌≡◌,
  refl, sym, ap, arith, leb, ◌==◌, not, length, Bool-cases, inl, inr, ◌⊎◌,
}
use provework.Rvcore.Machine.{Outcome, done, trapped, panicked, Step}
use provework.Rvcore.Hash.{genesis, state_hash}
use provework.Rvcore.Step.{step_mode}
use provework.Rvcore.Run.{
  Config, Loop, Next, going, exited, crashed, out_of_fuel, ExitStatus, push_hash, write_snapshot,
  route, count, settle, watch, after_step, iterate, run_loop,
}

-- The last entry of a chain, or the seed where it has none.
abbrev pub chain_tip : List Bytes → Bytes
chain_tip [] = genesis
chain_tip (h ∷ []) = h
chain_tip (h ∷ k ∷ hs) = chain_tip (k ∷ hs)

chain_tip-push : (hs : List Bytes) (h : Bytes) → chain_tip (hs ++ h ∷ []) ≡ h
chain_tip-push [] h = refl
chain_tip-push (k ∷ []) h = refl
chain_tip-push (k ∷ l ∷ hs) h = chain_tip-push (l ∷ hs) h

-- Between two iterations: the hash that the next one is chained on is the tip, the budget holds,
-- and each hash of the chain has an instruction of its own.
pub record IsLoop (cfg : Config) (s : Loop) : Type 0 where
  pub tip : s.prev ≡ chain_tip s.chain
  pub budget : s.n ≤ cfg.max_instructions
  pub paid : length s.chain ≤ s.n

-- After the loop: the last entry is the hash of the final state, chained on the entry before it.
pub record Ended (blake3 : Bytes → Bytes) (cfg : Config) (s : Loop) : Type 0 where
  pub earlier : List Bytes
  pub covered : s.chain ≡ earlier ++ state_hash blake3 (chain_tip earlier) s.m.cpu s.m.mem ∷ []
  pub budget : s.n ≤ cfg.max_instructions
  pub paid : length s.chain ≤ s.n + 1

abbrev pub ResultOf : (Bytes → Bytes) → Config → Loop → Next → Type 0
ResultOf blake3 cfg s (going s') = IsLoop cfg s' × (s'.n ≡ s.n + 1)
ResultOf blake3 cfg s (exited status s') = Ended blake3 cfg s'
ResultOf blake3 cfg s crashed = Unit {0}
ResultOf blake3 cfg s out_of_fuel = ⊥

length-push : (hs : List Bytes) (h : Bytes) → length (hs ++ h ∷ []) ≡ length hs + 1
length-push [] h = omega arith
length-push (k ∷ hs) h = omega (arith, length-push hs h)

module _ (blake3 : Bytes → Bytes) (cfg : Config) where
  Ended-push :
      (s : Loop)
      → s.prev ≡ chain_tip s.chain
      → s.n ≤ cfg.max_instructions
      → length s.chain ≤ s.n
      → Ended blake3 cfg (push_hash blake3 s)
  Ended-push s e b p = record {
    earlier = s.chain;
    covered = ap (λ (t : Bytes). s.chain ++ state_hash blake3 t s.m.cpu s.m.mem ∷ []) e;
    budget = b;
    paid = omega (arith, length-push s.chain (state_hash blake3 s.prev s.m.cpu s.m.mem));
  }

  -- A pushed hash is the new tip, and the instruction just counted pays for it.
  IsLoop-pushed :
      (s : Loop) (k : ℕ)
      → s.n ≤ cfg.max_instructions
      → length s.chain < s.n
      → IsLoop cfg (record (push_hash blake3 s) { in_chunk = k })
  IsLoop-pushed s k b p = record {
    tip = sym (chain_tip-push s.chain (state_hash blake3 s.prev s.m.cpu s.m.mem));
    budget = b;
    paid = omega (arith, length-push s.chain (state_hash blake3 s.prev s.m.cpu s.m.mem));
  }

  count-IsLoop :
      (s : Loop)
      → IsLoop cfg s
      → s.n < cfg.max_instructions
      → IsLoop cfg (count blake3 cfg s) × ((count blake3 cfg s).n ≡ s.n + 1)
  unfolding count write_snapshot
  count-IsLoop s h b = elim (Bool-cases (s.in_chunk + 1 == cfg.chunk_size)) [
    | inl y ↦ rw y (
      IsLoop-pushed (write_snapshot cfg (record s { n = s.n + 1; in_chunk = s.in_chunk + 1 })) 0
          (omega arith) (omega (arith, h.paid)),
      refl,
    )
    | inr n ↦
        rw n (record { tip = h.tip; budget = omega arith; paid = omega (arith, h.paid) }, refl)
  ]

  settle-ResultOf :
      (o : Outcome) (s : Loop)
      → IsLoop cfg s
      → s.n < cfg.max_instructions
      → ResultOf blake3 cfg s (settle blake3 cfg o s)
  unfolding settle route write_snapshot
  settle-ResultOf (done true) s h b = Ended-push _ h.tip (omega arith) (omega (arith, h.paid))
  settle-ResultOf (done false) s h b = count-IsLoop s h b
  settle-ResultOf (trapped t) s h b = elim (Bool-cases (not (s.m.cpu.mtvec == 0))) [
    | inl y ↦
        rw y (record { tip = h.tip; budget = omega arith; paid = omega (arith, h.paid) }, refl)
    | inr n ↦ rw n (Ended-push _ h.tip h.budget h.paid)
  ]
  settle-ResultOf panicked s h b = tt

  watch-ResultOf :
      (o : Outcome) (s : Loop)
      → IsLoop cfg s
      → s.n < cfg.max_instructions
      → ResultOf blake3 cfg s (watch blake3 cfg o s)
  unfolding watch
  watch-ResultOf o s h b = looked cfg.tohost_addr s.m.cpu.tohost
    where
      looked :
          (a t : Option ℕ)
          → ResultOf blake3 cfg s (elim a [
            | none ↦ settle blake3 cfg o s
            | some _ ↦ elim t [
              | none ↦ settle blake3 cfg o s
              | some v ↦ exited (ExitStatus.tohost_exit v) (push_hash blake3 s)
            ]
          ])
      looked none t = settle-ResultOf o s h b
      looked (some a) none = settle-ResultOf o s h b
      looked (some a) (some v) = Ended-push s h.tip h.budget h.paid

  after_step-ResultOf :
      (r : Step) (s : Loop)
      → IsLoop cfg s
      → s.n < cfg.max_instructions
      → ResultOf blake3 cfg s (after_step blake3 cfg r s)
  unfolding after_step
  after_step-ResultOf (done halt, m) s h b =
      watch-ResultOf (done halt) (record s { m = m })
        (record { tip = h.tip; budget = h.budget; paid = h.paid }) b
  after_step-ResultOf (trapped t, m) s h b =
      watch-ResultOf (trapped t) (record s { m = m })
        (record { tip = h.tip; budget = h.budget; paid = h.paid }) b
  after_step-ResultOf (panicked, m) s h b = tt

  iterate-ResultOf : (s : Loop) → IsLoop cfg s → ResultOf blake3 cfg s (iterate blake3 cfg s)
  unfolding iterate
  iterate-ResultOf s h = elim (spent cfg.max_instructions s.n) [
    | inl y ↦ rw y (Ended-push s h.tip h.budget h.paid)
    | inr (n, below) ↦
        rw n (after_step-ResultOf (step_mode cfg.syscalls cfg.tohost_addr s.m) s h below)
  ]
    where
      spent : (max n : ℕ) → (leb max n ≡ true) ⊎ ((leb max n ≡ false) × (n < max))
      spent max n = ground arith

abbrev pub Finished : (Bytes → Bytes) → Config → Next → Type 0
Finished blake3 cfg (exited status s) = Ended blake3 cfg s
Finished blake3 cfg crashed = Unit {0}
Finished blake3 cfg (going s) = ⊥
Finished blake3 cfg out_of_fuel = ⊥

-- The loop always finishes: from a state between two iterations and with fuel for the rest of the
-- budget, it ends in an exit or in an instruction that panics. At an exit the instruction count is
-- within `max_instructions`, no more hashes than instructions and one were emitted, and the last
-- hash of the chain is the hash of the final state chained on the one before it.
pub run_loop-Finished :
    (fuel : ℕ) (blake3 : Bytes → Bytes) (cfg : Config) (s : Loop)
    → IsLoop cfg s
    → cfg.max_instructions < s.n + fuel
    → Finished blake3 cfg (run_loop fuel blake3 cfg s)
unfolding run_loop
run_loop-Finished zero blake3 cfg s h enough = absurd (omega (arith, h.budget))
run_loop-Finished (suc fuel) blake3 cfg s h enough =
    next (iterate blake3 cfg s) (iterate-ResultOf blake3 cfg s h)
      (λ s' valid e. run_loop-Finished fuel blake3 cfg s' valid (omega arith))
  where
    next :
        (x : Next)
        → ResultOf blake3 cfg s x
        → ((s' : Loop)
            → IsLoop cfg s'
            → s'.n ≡ s.n + 1
            → Finished blake3 cfg (run_loop fuel blake3 cfg s'))
        → Finished blake3 cfg (elim x [
          | going s' ↦ run_loop fuel blake3 cfg s'
          | exited status s' ↦ exited status s'
          | crashed ↦ crashed
          | out_of_fuel ↦ out_of_fuel
        ])
    next (going s') (valid, e) more = more s' valid e
    next (exited status s') e more = e
    next crashed e more = tt
    next out_of_fuel e more = e
