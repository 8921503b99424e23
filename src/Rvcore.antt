-- ===== src/Rvcore.antt =====
-- crates/rvcore: the deterministic RV64IMC emulator that every worker and judge runs.
pub mod Cpu
pub mod Mem
pub mod Words
pub mod Machine
pub mod Kept
pub mod Alu
pub mod Interp
pub mod Compressed
pub mod Step
pub mod Hash
pub mod Snapshot
pub mod Elf
pub mod Run
mod Examples
