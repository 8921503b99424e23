-- ===== src/Rvcore/Step.antt =====
-- `step_mode` of crates/rvcore/src/interp.rs: the fetch and its checks.
pub mod Compressed
pub mod Full
pub mod System
pub mod Invariant
use provework.Prelude.{
  ℕ, bit_or, ◌+◌, ◌*◌, ◌%◌, ◌^◌, Option, none, Bool, false, if◌then◌else◌, leb, ltb, ◌==◌, not,
  Result, ok, err,
}
use provework.Rvcore.Mem
use provework.Rvcore.Mem.{addr_space}
use provework.Rvcore.Machine.{fetch_unaligned, fetch_out_of_range, Machine, trapped, Step, trap}
use provework.Rvcore.Interp.{exec_full}
use provework.Rvcore.Compressed.{step_c}

-- The upper half of a 32-bit instruction, and its execution.
unfoldable pub fetch_full : Bool → Option ℕ → Machine → ℕ → ℕ → Step
unfolding exec_full
fetch_full syscalls tohost_addr m pc hw =
    let (r, mem') = Mem.read m.mem (pc + 2) 2 in
    elim r [
      | err _ ↦ (trapped fetch_out_of_range, record m { mem = mem' })
      | ok high ↦
          exec_full syscalls tohost_addr (record m { mem = mem' }) pc (bit_or (high * 2 ^ 16) hw)
    ]

unfoldable pub step_mode : Bool → Option ℕ → Machine → Step
unfolding fetch_full step_c
step_mode syscalls tohost_addr m =
    let pc = m.cpu.pc in
    let (r, mem') = Mem.read m.mem pc 2 in
    if leb addr_space pc
    then trap m fetch_out_of_range
    else if not (pc % 2 == 0)
    then trap m fetch_unaligned
    else elim r [
      | err _ ↦ (trapped fetch_out_of_range, record m { mem = mem' })
      | ok v ↦
          if v % 2 ^ 16 % 4 == 3
          then fetch_full syscalls tohost_addr (record m { mem = mem' }) pc (v % 2 ^ 16)
          else step_c (record m { mem = mem' }) pc (v % 2 ^ 16)
    ]

-- `step`
unfoldable pub step : Machine → Step
unfolding step_mode
step = step_mode false none
