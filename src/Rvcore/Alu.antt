-- ===== src/Rvcore/Alu.antt =====
-- The values that the arithmetic instructions of `step_mode` in crates/rvcore/src/interp.rs compute.
-- An encoding may be illegal, and a Rust division by zero panics.
pub mod Bounds
pub mod Panics
use provework.Prelude.{
  ℕ, ◌+◌, ◌-◌, ◌*◌, ◌/◌, ◌%◌, ◌^◌, Option, none, some, Bool, if◌then◌else◌, ltb, ◌==◌, ◌&&◌,
  bit_and, bit_or, bit_xor,
}
use provework.Rvcore.Words.{
  u64_mod, u32_mod, bits, sext, sext32, wadd, wsub, from_bool, slt, shl, shr, sra, checked_div,
  checked_rem, mulh, mulhsu, mulhu,
}

pub data Value : Type 0 where
  value : ℕ → Value
  illegal : Value
  panics : Value

abbrev pub imm_i : ℕ → ℕ
imm_i inst = sext 12 (bits inst 20 12)

-- OP-IMM: `a` and the sign-extended immediate.
unfoldable pub op_imm_value : ℕ → ℕ → ℕ → Value
op_imm_value inst f3 a =
    let imm = imm_i inst in
    let shamt = bits inst 20 6 in
    if f3 == 0
    then value (wadd a imm)
    else if f3 == 2
    then value (from_bool (slt a imm))
    else if f3 == 3
    then value (from_bool (ltb a imm))
    else if f3 == 4
    then value (bit_xor a imm)
    else if f3 == 6
    then value (bit_or a imm)
    else if f3 == 7
    then value (bit_and a imm)
    else if f3 == 1
    then if bits inst 26 6 == 0 then value (shl a shamt) else illegal
    else if bits inst 26 6 == 0
    then value (shr a shamt)
    else if bits inst 26 6 == 16
    then value (sra 64 a shamt)
    else illegal

-- OP-IMM-32: the W forms, on the low 32 bits.
unfoldable pub op_imm_32_value : ℕ → ℕ → ℕ → ℕ → Value
op_imm_32_value inst f7 f3 a =
    let low = a % u32_mod in
    let shamt = bits inst 20 5 in
    if f3 == 0
    then value (sext32 (low + imm_i inst))
    else if f3 == 1
    then if f7 == 0 then value (sext32 (low * 2 ^ shamt)) else illegal
    else if f3 == 5
    then if f7 == 0
      then value (sext32 (low / 2 ^ shamt))
      else if f7 == 32
      then value (sext32 (sra 32 low shamt))
      else illegal
    else illegal

-- The RV64M rows of OP, funct7 = 1.
unfoldable pub op_muldiv : ℕ → ℕ → ℕ → ℕ
unfolding mulh mulhsu mulhu checked_div checked_rem
op_muldiv f3 a b =
    if f3 == 0
    then a * b % u64_mod
    else if f3 == 1
    then mulh a b
    else if f3 == 2
    then mulhsu a b
    else if f3 == 3
    then mulhu a b
    else if f3 == 4
    then elim (checked_div 64 a b) [ some q ↦ q | none ↦ if b == 0 then u64_mod - 1 else 2 ^ 63 ]
    else if f3 == 5
    then if b == 0 then u64_mod - 1 else a / b
    else if f3 == 6
    then elim (checked_rem 64 a b) [ some r ↦ r | none ↦ if b == 0 then a else 0 ]
    else if b == 0
    then a
    else a % b

-- OP: register-register.
unfoldable pub op_value : ℕ → ℕ → ℕ → ℕ → Value
op_value f7 f3 a b =
    if f7 == 0
    then if f3 == 0
      then value (wadd a b)
      else if f3 == 1
      then value (shl a (b % 64))
      else if f3 == 2
      then value (from_bool (slt a b))
      else if f3 == 3
      then value (from_bool (ltb a b))
      else if f3 == 4
      then value (bit_xor a b)
      else if f3 == 5
      then value (shr a (b % 64))
      else if f3 == 6
      then value (bit_or a b)
      else value (bit_and a b)
    else if f7 == 32
    then if f3 == 0
      then value (wsub a b)
      else if f3 == 5
      then value (sra 64 a (b % 64))
      else illegal
    else if f7 == 1
    then value (op_muldiv f3 a b)
    else illegal

-- The RV64M rows of OP-32, funct7 = 1: division reads the low halves, and tests all of `b` for 0.
unfoldable pub op_32_muldiv : ℕ → ℕ → ℕ → Value
unfolding checked_div checked_rem
op_32_muldiv f3 a b =
    let low = a % u32_mod in
    let by = b % u32_mod in
    if f3 == 0
    then value (sext32 (low * by))
    else if f3 == 4
    then value (elim (checked_div 32 low by) [
      | some q ↦ sext 32 q
      | none ↦ if b == 0 then u64_mod - 1 else sext 32 (2 ^ 31)
    ])
    else if f3 == 5
    then if b == 0
      then value (u64_mod - 1)
      else if by == 0
      then panics
      else value (sext32 (low / by))
    else if f3 == 6
    then value (elim (checked_rem 32 low by) [
      | some r ↦ sext 32 r
      | none ↦ if b == 0 then sext32 a else 0
    ])
    else if f3 == 7
    then if b == 0 then value (sext32 a) else if by == 0 then panics else value (sext32 (low % by))
    else illegal

-- OP-32.
unfoldable pub op_32_value : ℕ → ℕ → ℕ → ℕ → Value
op_32_value f7 f3 a b =
    let low = a % u32_mod in
    let by = b % u32_mod in
    let sh = b % 32 in
    if f7 == 0
    then if f3 == 0
      then value (sext32 (low + by))
      else if f3 == 1
      then value (sext32 (low * 2 ^ sh))
      else if f3 == 5
      then value (sext32 (low / 2 ^ sh))
      else illegal
    else if f7 == 32
    then if f3 == 0
      then value (sext32 (low + (u32_mod - by)))
      else if f3 == 5
      then value (sext32 (sra 32 low sh))
      else illegal
    else if f7 == 1
    then op_32_muldiv f3 a b
    else illegal
