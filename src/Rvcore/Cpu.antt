-- ===== src/Rvcore/Cpu.antt =====
-- crates/rvcore/src/cpu.rs: the registers. Every field but the `tohost` latch is hashed.
use provework.Prelude.{
  ℕ, zero, suc, ◌^◌, ◌<◌, Option, none, List, [], ◌∷◌, ◌≡◌, arith, if◌then◌else◌, ◌==◌, get_or, set,
  replicate, length, length-set, All, ◌≢◌, get_or-set_ne, Bool-cases, inl, inr,
}

-- `x` has 32 entries; a register number comes from a five-bit field, so no index is out of range.
pub record Cpu : Type 0 where
  pub x : List ℕ
  pub pc : ℕ
  pub mtvec : ℕ
  pub mepc : ℕ
  pub mcause : ℕ
  pub mstatus : ℕ
  pub tohost : Option ℕ

-- x2 is the stack pointer.
unfoldable pub new : ℕ → ℕ → Cpu
new pc sp = record {
  x = set (replicate 32 0) 2 sp;
  pc = pc;
  mtvec = 0;
  mepc = 0;
  mcause = 0;
  mstatus = 0;
  tohost = none;
}

unfoldable pub set_reg : Cpu → ℕ → ℕ → Cpu
set_reg cpu reg val = if reg == 0 then cpu else record cpu { x = set cpu.x reg val }

unfoldable pub get : Cpu → ℕ → ℕ
get cpu reg = get_or cpu.x reg 0

-- A machine state of 64-bit words, with x0 hard-wired to 0.
pub record IsCpu (cpu : Cpu) : Type 0 where
  pub count : length cpu.x ≡ 32
  pub words : All (λ v. v < 2 ^ 64) cpu.x
  pub x0 : get_or cpu.x 0 0 ≡ 0
  pub pc_word : cpu.pc < 2 ^ 64
  pub mtvec_word : cpu.mtvec < 2 ^ 64
  pub mepc_word : cpu.mepc < 2 ^ 64
  pub mcause_word : cpu.mcause < 2 ^ 64
  pub mstatus_word : cpu.mstatus < 2 ^ 64

All-set :
    (xs : List ℕ) (i v : ℕ)
    → v < 2 ^ 64
    → All (λ v. v < 2 ^ 64) xs
    → All (λ v. v < 2 ^ 64) (set xs i v)
All-set [] i v h a = tt
All-set (x ∷ xs) zero v h a = (h, a.1)
All-set (x ∷ xs) (suc i) v h a = (a.0, All-set xs i v h a.1)

get_or-lt : (xs : List ℕ) (i : ℕ) → All (λ v. v < 2 ^ 64) xs → get_or xs i 0 < 2 ^ 64
get_or-lt [] i a = omega arith
get_or-lt (x ∷ xs) zero a = a.0
get_or-lt (x ∷ xs) (suc i) a = get_or-lt xs i a.1

pub get-lt : (cpu : Cpu) (reg : ℕ) → IsCpu cpu → get cpu reg < 2 ^ 64
unfolding get
get-lt cpu reg v = get_or-lt cpu.x reg v.words

set-x0 : (xs : List ℕ) (reg v : ℕ) → reg ≢ 0 → get_or (set xs reg v) 0 0 ≡ get_or xs 0 0
set-x0 xs reg v h = get_or-set_ne xs reg 0 v 0 h

-- Writing a word to any register keeps the state well formed; a write to x0 is dropped.
pub set_reg-IsCpu : (cpu : Cpu) (reg v : ℕ) → v < 2 ^ 64 → IsCpu cpu → IsCpu (set_reg cpu reg v)
unfolding set_reg
set_reg-IsCpu cpu reg v h ok = elim (Bool-cases (reg == 0)) [
  | inl zeroth ↦ rw zeroth ok
  | inr other ↦ rw other (record {
    count = rw (length-set cpu.x reg v) ok.count;
    words = All-set cpu.x reg v h ok.words;
    x0 = rw (set-x0 cpu.x reg v (λ e. ground arith)) ok.x0;
    pc_word = ok.pc_word;
    mtvec_word = ok.mtvec_word;
    mepc_word = ok.mepc_word;
    mcause_word = ok.mcause_word;
    mstatus_word = ok.mstatus_word;
  })
]

pub new-IsCpu : (pc sp : ℕ) → pc < 2 ^ 64 → sp < 2 ^ 64 → IsCpu (new pc sp)
unfolding new
new-IsCpu pc sp h g = omega arith
