-- ===== src/Rvcore/Compressed.antt =====
-- crates/rvcore/src/interp.rs, the 16-bit instructions: `step_c` with a function for each quadrant,
-- and the scrambled immediates.
use provework.Prelude.{
  ℕ, ◌+◌, ◌-◌, ◌*◌, ◌/◌, ◌%◌, ◌^◌, true, false, if◌then◌else◌, leb, ◌==◌, not, bit_and, bit_or,
  bit_xor,
}
use provework.Rvcore.Cpu.{get}
use provework.Rvcore.Words.{u64_mod, u32_mod, bits, sext, sext32, wadd, wsub, shl, shr, sra}
use provework.Rvcore.Machine.{illegal_instruction, Machine, done, Step, trap, jump, commit}
use provework.Rvcore.Interp.{load_into, store_from}

-- Compressed register fields stand for x8 to x15.
abbrev pub creg : ℕ → ℕ
creg i = 8 + i

abbrev pub rd_c : ℕ → ℕ
rd_c hw = creg (bits hw 2 3)

abbrev pub rs1_c : ℕ → ℕ
rs1_c hw = creg (bits hw 7 3)

-- The 6-bit signed immediate of c.addi, c.li, c.addiw and c.andi.
abbrev pub imm6 : ℕ → ℕ
imm6 hw = (bits hw 12 1 * (u64_mod - 32) + bits hw 2 5) % u64_mod

abbrev pub shamt_c : ℕ → ℕ
shamt_c hw = bit_or (bits hw 12 1 * 2 ^ 5) (bits hw 2 5)

abbrev pub addi4spn_imm : ℕ → ℕ
addi4spn_imm hw =
    bit_or (bit_or (bit_or (bits hw 11 2 * 2 ^ 4) (bits hw 7 4 * 2 ^ 6)) (bits hw 6 1 * 2 ^ 2))
      (bits hw 5 1 * 2 ^ 3)

abbrev pub word_imm : ℕ → ℕ
word_imm hw = bit_or (bit_or (bits hw 10 3 * 2 ^ 3) (bits hw 6 1 * 2 ^ 2)) (bits hw 5 1 * 2 ^ 6)

abbrev pub double_imm : ℕ → ℕ
double_imm hw = bit_or (bits hw 10 3 * 2 ^ 3) (bits hw 5 2 * 2 ^ 6)

-- `cj_imm` and `cb_imm`, sign extended from 12 and from 9 bits.
unfoldable pub cj_imm : ℕ → ℕ
cj_imm hw =
    let high =
      bit_or (bit_or (bits hw 12 1 * 2 ^ 11) (bits hw 8 1 * 2 ^ 10)) (bits hw 9 2 * 2 ^ 8) in
    let middle = bit_or (bit_or high (bits hw 6 1 * 2 ^ 7)) (bits hw 7 1 * 2 ^ 6) in
    let low = bit_or (bit_or middle (bits hw 2 1 * 2 ^ 5)) (bits hw 11 1 * 2 ^ 4) in
    sext 12 (bit_or low (bits hw 3 3 * 2) % 2 ^ 12)

unfoldable pub cb_imm : ℕ → ℕ
cb_imm hw =
    let high = bit_or (bit_or (bits hw 12 1 * 2 ^ 8) (bits hw 5 2 * 2 ^ 6)) (bits hw 2 1 * 2 ^ 5) in
    sext 9 (bit_or (bit_or high (bits hw 10 2 * 2 ^ 3)) (bits hw 3 2 * 2) % 2 ^ 9)

abbrev pub addi16sp_imm : ℕ → ℕ
addi16sp_imm hw =
    let high = bit_or (bit_or (bits hw 12 1 * 2 ^ 9) (bits hw 6 1 * 2 ^ 4)) (bits hw 5 1 * 2 ^ 6) in
    sext 10 (bit_or (bit_or high (bits hw 3 2 * 2 ^ 7)) (bits hw 2 1 * 2 ^ 5) % 2 ^ 10)

abbrev pub lui_imm : ℕ → ℕ
lui_imm hw = sext 18 (bit_or (bits hw 12 1 * 2 ^ 17) (bits hw 2 5 * 2 ^ 12) % 2 ^ 18)

-- Quadrant 0: c.addi4spn, and loads and stores on compressed registers.
unfoldable pub step_c0 : Machine → ℕ → ℕ → Step
unfolding load_into store_from commit get
step_c0 m pc hw =
    let next = wadd pc 2 in
    let f3 = bits hw 13 3 in
    let base = get m.cpu (rs1_c hw) in
    let bad = trap m (illegal_instruction pc hw) in
    if f3 == 0
    then if addi4spn_imm hw == 0
      then bad
      else commit m (rd_c hw) (wadd (get m.cpu 2) (addi4spn_imm hw)) next
    else if f3 == 2
    then load_into m (rd_c hw) (wadd base (word_imm hw)) 4 true next
    else if f3 == 3
    then load_into m (rd_c hw) (wadd base (double_imm hw)) 8 false next
    else if f3 == 6
    then store_from m (get m.cpu (rd_c hw)) (wadd base (word_imm hw)) 4 next
    else if f3 == 7
    then store_from m (get m.cpu (rd_c hw)) (wadd base (double_imm hw)) 8 next
    else bad

-- The arithmetic on compressed registers of quadrant 1.
unfoldable pub step_c1_alu : Machine → ℕ → ℕ → Step
unfolding commit get
step_c1_alu m pc hw =
    let next = wadd pc 2 in
    let dest = rs1_c hw in
    let a = get m.cpu dest in
    let b = get m.cpu (rd_c hw) in
    let bad = trap m (illegal_instruction pc hw) in
    let group = bits hw 10 2 in
    let row = bits hw 5 2 in
    if leb group 1
    then if shamt_c hw == 0
      then bad
      else commit m dest (if group == 0 then shr a (shamt_c hw) else sra 64 a (shamt_c hw)) next
    else if group == 2
    then commit m dest (bit_and a (imm6 hw)) next
    else if bits hw 12 1 == 0
    then commit m dest
        (if row == 0
          then wsub a b
          else if row == 1
          then bit_xor a b
          else if row == 2
          then bit_or a b
          else bit_and a b)
        next
    else if row == 0
    then commit m dest (sext32 (a % u32_mod + (u32_mod - b % u32_mod))) next
    else if row == 1
    then commit m dest (sext32 (a % u32_mod + b % u32_mod)) next
    else bad

-- c.addi16sp and c.lui; the latter with rd = x0 is a hint.
unfoldable pub step_c1_lui : Machine → ℕ → ℕ → Step
unfolding commit get
step_c1_lui m pc hw =
    let next = wadd pc 2 in
    let rd = bits hw 7 5 in
    let bad = trap m (illegal_instruction pc hw) in
    if rd == 2
    then if addi16sp_imm hw == 0
      then bad
      else commit m 2 (wadd (get m.cpu 2) (addi16sp_imm hw)) next
    else if rd == 0
    then jump m next
    else if lui_imm hw == 0
    then bad
    else commit m rd (lui_imm hw) next

-- Quadrant 1.
unfoldable pub step_c1 : Machine → ℕ → ℕ → Step
unfolding commit get step_c1_alu step_c1_lui cj_imm cb_imm
step_c1 m pc hw =
    let next = wadd pc 2 in
    let f3 = bits hw 13 3 in
    let rd = bits hw 7 5 in
    if f3 == 1
    then if rd == 0
      then jump m next
      else commit m rd (sext32 (get m.cpu rd % u32_mod + imm6 hw)) next
    else if f3 == 2
    then commit m rd (imm6 hw) next
    else if f3 == 3
    then step_c1_lui m pc hw
    else if f3 == 4
    then step_c1_alu m pc hw
    else if f3 == 5
    then jump m (wadd pc (cj_imm hw))
    else if f3 == 6
    then jump m (if get m.cpu (rs1_c hw) == 0 then wadd pc (cb_imm hw) else next)
    else if f3 == 7
    then jump m (if not (get m.cpu (rs1_c hw) == 0) then wadd pc (cb_imm hw) else next)
    else commit m rd (wadd (get m.cpu rd) (imm6 hw)) next

-- c.jr, c.mv, c.ebreak, c.jalr and c.add.
unfoldable pub step_c2_jump : Machine → ℕ → ℕ → Step
unfolding commit get
step_c2_jump m pc hw =
    let next = wadd pc 2 in
    let rd = bits hw 7 5 in
    let rs2 = bits hw 2 5 in
    if bits hw 12 1 == 0
    then if rs2 == 0
      then if rd == 0 then trap m (illegal_instruction pc hw) else jump m (get m.cpu rd / 2 * 2)
      else commit m rd (get m.cpu rs2) next
    else if rs2 == 0
    then if rd == 0 then (done true, m) else commit m 1 next (get m.cpu rd / 2 * 2)
    else commit m rd (wadd (get m.cpu rd) (get m.cpu rs2)) next

abbrev pub lwsp_imm : ℕ → ℕ
lwsp_imm hw = bit_or (bit_or (bits hw 12 1 * 2 ^ 5) (bits hw 4 3 * 2 ^ 2)) (bits hw 2 2 * 2 ^ 6)

abbrev pub ldsp_imm : ℕ → ℕ
ldsp_imm hw = bit_or (bit_or (bits hw 12 1 * 2 ^ 5) (bits hw 5 2 * 2 ^ 3)) (bits hw 2 3 * 2 ^ 6)

-- Quadrant 2: loads and stores relative to the stack pointer, and register moves.
unfoldable pub step_c2 : Machine → ℕ → ℕ → Step
unfolding load_into store_from commit get step_c2_jump
step_c2 m pc hw =
    let next = wadd pc 2 in
    let f3 = bits hw 13 3 in
    let rd = bits hw 7 5 in
    let rs2 = bits hw 2 5 in
    let sp = get m.cpu 2 in
    let bad = trap m (illegal_instruction pc hw) in
    if f3 == 0
    then commit m rd (shl (get m.cpu rd) (shamt_c hw)) next
    else if f3 == 2
    then if rd == 0 then bad else load_into m rd (wadd sp (lwsp_imm hw)) 4 true next
    else if f3 == 3
    then if rd == 0 then bad else load_into m rd (wadd sp (ldsp_imm hw)) 8 false next
    else if f3 == 4
    then step_c2_jump m pc hw
    else if f3 == 6
    then store_from m (get m.cpu rs2) (wadd sp (bit_or (bits hw 9 4 * 2 ^ 2) (bits hw 7 2 * 2 ^ 6)))
        4 next
    else if f3 == 7
    then store_from m (get m.cpu rs2)
        (wadd sp (bit_or (bits hw 10 3 * 2 ^ 3) (bits hw 7 3 * 2 ^ 6))) 8 next
    else bad

-- `step_c`, the dispatch on the quadrant; quadrant 3 is the 32-bit form.
unfoldable pub step_c : Machine → ℕ → ℕ → Step
unfolding step_c0 step_c1 step_c2
step_c m pc hw =
    if hw % 4 == 0
    then step_c0 m pc hw
    else if hw % 4 == 1
    then step_c1 m pc hw
    else step_c2 m pc hw
