-- ===== src/Rvcore/Step/Invariant.antt =====
-- Every step keeps a machine well formed: the fetch, and the two instruction widths.
use provework.Prelude.{
  ℕ, ◌+◌, ◌*◌, ◌%◌, ◌^◌, ◌<◌, Option, Bool, true, false, ◌≡◌, ◌⊎◌, inl, inr, arith, if◌then◌else◌,
  leb, ◌==◌, not, bit_or, length, Result, ok, err,
}
use provework.Rvcore.Mem
use provework.Rvcore.Mem.{MemError, no_slot, addr_space}
use provework.Rvcore.Machine.{Machine, trapped, Step, trap, fetch_out_of_range, fetch_unaligned}
use provework.Rvcore.Interp.{exec_full}
use provework.Rvcore.Compressed.{step_c}
use provework.Rvcore.Kept.{IsMachine, Kept, Kept-stay, Kept-if, Kept-from, Reads, read-Reads}
use provework.Rvcore.Step.{fetch_full, step_mode}
use provework.Rvcore.Step.Full.{Kept-exec_full}
use provework.Rvcore.Step.Compressed.{Kept-step_c}

Kept-fetch_full :
    (syscalls : Bool) (tohost_addr : Option ℕ) (m : Machine) (pc hw : ℕ)
    → IsMachine m
    → m.cpu.pc < addr_space
    → length m.mem.page_slots + 8 < no_slot
    → Kept m (fetch_full syscalls tohost_addr m pc hw)
unfolding fetch_full
Kept-fetch_full syscalls tohost_addr m pc hw h low room =
    answered (Mem.read m.mem (pc + 2) 2) (read-Reads m (pc + 2) 2 h)
  where
    answered :
        (r : Result MemError ℕ × Mem.Mem)
        → Reads m 2 r
        → Kept m (elim r.0 [
          | err _ ↦ (trapped fetch_out_of_range, record m { mem = r.1 })
          | ok high ↦
              exec_full syscalls tohost_addr (record m { mem = r.1 }) pc (bit_or (high * 2 ^ 16) hw)
        ])
    answered (err e, mem') reads = Kept-from m _ _ reads.slots_same (Kept-stay _ _ reads.valid)
    answered (ok high, mem') reads = Kept-from m _ _ reads.slots_same (
        Kept-exec_full _ reads.valid syscalls tohost_addr pc (bit_or (high * 2 ^ 16) hw) low
          (rw reads.slots_same room))

-- What a step does with the halfword that it fetched.
abbrev fetched : Bool → Option ℕ → Machine → Result MemError ℕ × Mem.Mem → Step
fetched syscalls tohost_addr m r = elim r.0 [
  | err _ ↦ (trapped fetch_out_of_range, record m { mem = r.1 })
  | ok v ↦
      if v % 2 ^ 16 % 4 == 3
      then fetch_full syscalls tohost_addr (record m { mem = r.1 }) m.cpu.pc (v % 2 ^ 16)
      else step_c (record m { mem = r.1 }) m.cpu.pc (v % 2 ^ 16)
]

Kept-fetched :
    (syscalls : Bool) (tohost_addr : Option ℕ) (m : Machine)
    → IsMachine m
    → m.cpu.pc < addr_space
    → length m.mem.page_slots + 8 < no_slot
    → (r : Result MemError ℕ × Mem.Mem) → Reads m 2 r
    → Kept m (fetched syscalls tohost_addr m r)
Kept-fetched syscalls tohost_addr m h low room (err e, mem') reads =
    Kept-from m _ _ reads.slots_same (Kept-stay _ _ reads.valid)
Kept-fetched syscalls tohost_addr m h low room (ok v, mem') reads =
    let room' : length mem'.page_slots + 8 < no_slot = rw reads.slots_same room in
    Kept-if m (v % 2 ^ 16 % 4 == 3) _ _
      (Kept-from m _ _ reads.slots_same
        (Kept-fetch_full syscalls tohost_addr _ m.cpu.pc (v % 2 ^ 16) reads.valid low room'))
      (Kept-from m _ _ reads.slots_same (Kept-step_c _ reads.valid m.cpu.pc (v % 2 ^ 16) room'))

-- Every instruction keeps a machine well formed: 32 registers that are 64-bit words with x0 at 0, a
-- program counter and CSRs that are words, and a memory of bytes whose directory, slots and
-- lookaside agree. It takes at most eight more page slots, and it keeps this on a trap, a halt and
-- a panic as well. The condition is room for eight more slots below the mark for "no slot".
pub step_mode-Kept :
    (syscalls : Bool) (tohost_addr : Option ℕ) (m : Machine)
    → IsMachine m
    → length m.mem.page_slots + 8 < no_slot
    → Kept m (step_mode syscalls tohost_addr m)
unfolding step_mode
step_mode-Kept syscalls tohost_addr m h room = elim (past_or_inside m.cpu.pc) [
  | inr past ↦ rw past (Kept-stay m _ h)
  | inl (before, low) ↦ rw before (aligned low)
]
  where
    past_or_inside :
        (pc : ℕ) → ((leb addr_space pc ≡ false) × (pc < addr_space)) ⊎ (leb addr_space pc ≡ true)
    past_or_inside pc = ground arith

    aligned :
        m.cpu.pc < addr_space
        → Kept m (
            if not (m.cpu.pc % 2 == 0)
            then trap m fetch_unaligned
            else fetched syscalls tohost_addr m (Mem.read m.mem m.cpu.pc 2))
    aligned low =
        let k = Kept-fetched syscalls tohost_addr m h low room _ (read-Reads m m.cpu.pc 2 h) in
        Kept-if m (not (m.cpu.pc % 2 == 0)) _ _ (Kept-stay m _ h) k
