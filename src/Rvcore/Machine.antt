-- ===== src/Rvcore/Machine.antt =====
-- crates/rvcore/src/interp.rs: the traps, and the state that a step changes. A step returns what the
-- Rust function returns beside the state that it leaves, which it leaves on a trap too.
use provework.Prelude.{ℕ, Bool, false}
use provework.Rvcore.Cpu.{Cpu, set_reg}
use provework.Rvcore.Mem.{Mem, MemError, out_of_range}

pub data Trap : Type 0 where
  fetch_unaligned : Trap
  fetch_out_of_range : Trap
  illegal_instruction : (pc inst : ℕ) → Trap
  load_out_of_range : (addr : ℕ) → Trap
  store_out_of_range : (addr : ℕ) → Trap
  ecall : Trap
  output_too_large : Trap

pub record Machine : Type 0 where
  pub cpu : Cpu
  pub mem : Mem

-- `Ok(halted)`, `Err(trap)`, or a Rust panic, which ends the emulator's process.
pub data Outcome : Type 0 where
  done : Bool → Outcome
  trapped : Trap → Outcome
  panicked : Outcome

abbrev pub Step : Type 0
Step = Outcome × Machine

abbrev pub trap : Machine → Trap → Step
trap m t = (trapped t, m)

abbrev pub jump : Machine → ℕ → Step
jump m target = (done false, record m { cpu = record m.cpu { pc = target } })

-- Write a register and go on at `next`.
unfoldable pub commit : Machine → ℕ → ℕ → ℕ → Step
commit m rd val next = (done false, record m { cpu = record (set_reg m.cpu rd val) { pc = next } })

abbrev pub trap_load : MemError → ℕ → Trap
trap_load out_of_range addr = load_out_of_range addr

abbrev pub trap_store : MemError → ℕ → Trap
trap_store out_of_range addr = store_out_of_range addr
