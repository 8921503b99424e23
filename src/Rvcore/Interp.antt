-- ===== src/Rvcore/Interp.antt =====
-- crates/rvcore/src/interp.rs, the 32-bit instructions: `step_mode` with its opcode arms as
-- functions, and `do_syscall`.
use provework.Prelude.{
  ℕ, ◌+◌, ◌-◌, ◌*◌, ◌/◌, ◌%◌, ◌^◌, Option, none, some, ◌++◌, Bool, true, false, if◌then◌else◌, ltb,
  leb, ◌==◌, ◌&&◌, ◌||◌, not, bit_and, bit_or, ok, err, to_le_bytes, take,
}
use provework.Rvcore.Cpu.{Cpu, set_reg, get}
use provework.Rvcore.Mem
use provework.Rvcore.Mem.{Mem, MemError, addr_space}
use provework.Rvcore.Words.{u32_mod, bits, sext, sext32, wadd, slt, complement}
use provework.Rvcore.Machine.{
  illegal_instruction, ecall, Machine, done, trapped, panicked, Step, trap, jump, commit, trap_load,
  trap_store,
}
use provework.Rvcore.Alu.{
  Value, value, illegal, panics, imm_i, op_imm_value, op_imm_32_value, op_value, op_32_value,
}

-- The fields of a 32-bit instruction.
abbrev pub rd_of : ℕ → ℕ
rd_of inst = bits inst 7 5

abbrev pub f3_of : ℕ → ℕ
f3_of inst = bits inst 12 3

abbrev pub rs1_of : ℕ → ℕ
rs1_of inst = bits inst 15 5

abbrev pub rs2_of : ℕ → ℕ
rs2_of inst = bits inst 20 5

abbrev pub f7_of : ℕ → ℕ
f7_of inst = bits inst 25 7

abbrev pub imm_s : ℕ → ℕ
imm_s inst = bit_or (imm_i inst / 32 * 32) (bits inst 7 5)

abbrev pub imm_b : ℕ → ℕ
imm_b inst =
    let v =
      bit_or
        (bit_or (bit_or (bits inst 31 1 * 2 ^ 12) (bits inst 7 1 * 2 ^ 11))
          (bits inst 25 6 * 2 ^ 5))
        (bits inst 8 4 * 2) in
    sext 13 (v % 2 ^ 13)

abbrev pub imm_u : ℕ → ℕ
imm_u inst = sext32 (inst / 2 ^ 12 * 2 ^ 12)

abbrev pub imm_j : ℕ → ℕ
imm_j inst =
    let v =
      bit_or
        (bit_or (bit_or (bits inst 31 1 * 2 ^ 20) (bits inst 12 8 * 2 ^ 12))
          (bits inst 20 1 * 2 ^ 11))
        (bits inst 21 10 * 2) in
    sext 21 (v % 2 ^ 21)

-- An arithmetic arm: write the value, or trap on an illegal encoding.
unfoldable pub finish : Machine → ℕ → ℕ → ℕ → Value → Step
unfolding commit
finish m pc inst next (value v) = commit m (rd_of inst) v next
finish m pc inst next illegal = trap m (illegal_instruction pc inst)
finish m pc inst next panics = (panicked, m)

-- The tests of the branches; `none` is an illegal encoding.
unfoldable pub taken : ℕ → ℕ → ℕ → Option Bool
taken f3 a b =
    if f3 == 0
    then some (a == b)
    else if f3 == 1
    then some (not (a == b))
    else if f3 == 4
    then some (slt a b)
    else if f3 == 5
    then some (not (slt a b))
    else if f3 == 6
    then some (ltb a b)
    else if f3 == 7
    then some (not (ltb a b))
    else none

unfoldable pub exec_branch : Machine → ℕ → ℕ → ℕ → Step
unfolding taken get
exec_branch m pc inst next =
    elim (taken (f3_of inst) (get m.cpu (rs1_of inst)) (get m.cpu (rs2_of inst))) [
      | none ↦ trap m (illegal_instruction pc inst)
      | some true ↦ jump m (wadd pc (imm_b inst))
      | some false ↦ jump m next
    ]

-- The width of a load and whether it sign extends.
unfoldable pub load_kind : ℕ → Option (ℕ × Bool)
load_kind f3 =
    if f3 == 0
    then some (1, true)
    else if f3 == 1
    then some (2, true)
    else if f3 == 2
    then some (4, true)
    else if f3 == 3
    then some (8, false)
    else if f3 == 4
    then some (1, false)
    else if f3 == 5
    then some (2, false)
    else if f3 == 6
    then some (4, false)
    else none

abbrev pub extend_load : ℕ → Bool → ℕ → ℕ
extend_load len sign v = if sign then sext (8 * len) (v % 2 ^ (8 * len)) else v

-- A load of `len` bytes into `rd`, which the full and the compressed forms share.
unfoldable pub load_into : Machine → ℕ → ℕ → ℕ → Bool → ℕ → Step
unfolding commit
load_into m rd addr len sign next =
    let (r, mem') = Mem.read m.mem addr len in
    elim r [
      | ok v ↦ commit (record m { mem = mem' }) rd (extend_load len sign v) next
      | err e ↦ (trapped (trap_load e addr), record m { mem = mem' })
    ]

unfoldable pub exec_load : Machine → ℕ → ℕ → ℕ → Step
unfolding load_kind load_into get
exec_load m pc inst next =
    let addr = wadd (get m.cpu (rs1_of inst)) (imm_i inst) in
    elim (load_kind (f3_of inst)) [
      | none ↦ trap m (illegal_instruction pc inst)
      | some (len, sign) ↦ load_into m (rd_of inst) addr len sign next
    ]

-- A store of the low `len` bytes of a word, which the full and the compressed forms share.
unfoldable pub store_from : Machine → ℕ → ℕ → ℕ → ℕ → Step
store_from m val addr len next =
    let (r, mem') = Mem.write m.mem addr (take len (to_le_bytes 8 val)) in
    elim r [
      | ok _ ↦ jump (record m { mem = mem' }) next
      | err e ↦ (trapped (trap_store e addr), record m { mem = mem' })
    ]

unfoldable pub store_width : ℕ → Option ℕ
store_width f3 =
    if f3 == 0
    then some 1
    else if f3 == 1
    then some 2
    else if f3 == 2
    then some 4
    else if f3 == 3
    then some 8
    else none

-- The `tohost` device latches a store of 4 or 8 bytes to its address, before the store is made.
abbrev pub latch : Option ℕ → ℕ → ℕ → ℕ → Machine → Machine
latch tohost_addr addr len b m = elim tohost_addr [
  | none ↦ m
  | some t ↦
      if addr == t && (len == 8 || len == 4)
      then record m { cpu = record m.cpu { tohost = some (if len == 8 then b else b % u32_mod) } }
      else m
]

unfoldable pub exec_store : Option ℕ → Machine → ℕ → ℕ → ℕ → Step
unfolding store_width store_from get
exec_store tohost_addr m pc inst next =
    let addr = wadd (get m.cpu (rs1_of inst)) (imm_s inst) in
    let b = get m.cpu (rs2_of inst) in
    elim (store_width (f3_of inst)) [
      | none ↦ trap m (illegal_instruction pc inst)
      | some len ↦ store_from (latch tohost_addr addr len b m) b addr len next
    ]

-- The body of write(64): log the bytes of the guest, return their number in a0, go on.
unfoldable pub log_bytes : Machine → Step
unfolding get set_reg
log_bytes m = elim (Mem.read_region m.mem (get m.cpu 11) (get m.cpu 12)) [
  | err e ↦ trap m ecall
  | ok bytes ↦ (
    done false,
    record {
      cpu = record (set_reg m.cpu 10 (get m.cpu 12)) { pc = m.cpu.pc + 4 };
      mem = record m.mem { syscall_log = m.mem.syscall_log ++ bytes };
    },
  )
]

-- `do_syscall`: write(64) to fd 1 and exit(93).
unfoldable pub do_syscall : Machine → Step
unfolding get log_bytes
do_syscall m =
    if get m.cpu 17 == 64
    then if not (get m.cpu 10 == 1) || ltb (2 ^ 20) (get m.cpu 12)
      then trap m ecall
      else log_bytes m
    else if get m.cpu 17 == 93
    then (done true, m)
    else trap m ecall

-- The operand of a CSR instruction: rs1, or the five-bit field with 16 taken off where its top bit
-- is set.
unfoldable pub csr_source : Machine → ℕ → ℕ
unfolding get
csr_source m inst =
    let z = bits inst 15 5 in
    if leb 1 (f3_of inst) && leb (f3_of inst) 3
    then get m.cpu (rs1_of inst)
    else if bits z 4 1 == 1
    then z - 16
    else z

unfoldable pub csr_read : Cpu → ℕ → ℕ
csr_read cpu num =
    if num == 0x300
    then cpu.mstatus
    else if num == 0x305
    then cpu.mtvec
    else if num == 0x341
    then cpu.mepc
    else if num == 0x342
    then cpu.mcause
    else 0

-- csrrw, csrrs and csrrc by the low two bits of funct3.
unfoldable pub csr_new : ℕ → ℕ → ℕ → ℕ
csr_new f3 old src =
    if f3 == 1 || f3 == 5
    then src
    else if f3 == 2 || f3 == 6
    then bit_or old src
    else bit_and old (complement src)

unfoldable pub csr_write : Cpu → ℕ → ℕ → Cpu
csr_write cpu num v =
    if num == 0x300
    then record cpu { mstatus = v }
    else if num == 0x305
    then record cpu { mtvec = v / 4 * 4 }
    else if num == 0x341
    then record cpu { mepc = v }
    else if num == 0x342
    then record cpu { mcause = v }
    else cpu

unfoldable pub exec_csr : Machine → ℕ → ℕ → Step
unfolding csr_source csr_read csr_new csr_write commit
exec_csr m inst next =
    let num = bits inst 20 12 in
    let old = csr_read m.cpu num in
    let new = csr_new (f3_of inst) old (csr_source m inst) in
    commit (record m { cpu = csr_write m.cpu num new }) (rd_of inst) old next

unfoldable pub exec_system : Bool → Machine → ℕ → ℕ → ℕ → Step
unfolding exec_csr do_syscall
exec_system syscalls m pc inst next =
    let num = bits inst 20 12 in
    if f3_of inst == 0
    then if num == 0
      then if syscalls then do_syscall m else trap m ecall
      else if num == 1
      then (done true, m)
      else if num == 0x302
      then (
        done false,
        record m {
          cpu = record m.cpu {
            pc = m.cpu.mepc;
            mstatus = bit_and m.cpu.mstatus (complement 0x1800);
          };
        },
      )
      else trap m (illegal_instruction pc inst)
    else if f3_of inst == 4
    then trap m (illegal_instruction pc inst)
    else exec_csr m inst next

-- The dispatch on the opcode of a 32-bit instruction.
unfoldable pub exec_full : Bool → Option ℕ → Machine → ℕ → ℕ → Step
unfolding finish exec_branch exec_load exec_store exec_system
exec_full syscalls tohost_addr m pc inst =
    let opcode = inst % 128 in
    let next = wadd pc 4 in
    let a = get m.cpu (rs1_of inst) in
    let b = get m.cpu (rs2_of inst) in
    let f3 = f3_of inst in
    let f7 = f7_of inst in
    if opcode == 0x37
    then commit m (rd_of inst) (imm_u inst) next
    else if opcode == 0x17
    then commit m (rd_of inst) (wadd pc (imm_u inst)) next
    else if opcode == 0x6f
    then commit m (rd_of inst) next (wadd pc (imm_j inst))
    else if opcode == 0x67
    then if f3 == 0
      then commit m (rd_of inst) next (wadd a (imm_i inst) / 2 * 2)
      else trap m (illegal_instruction pc inst)
    else if opcode == 0x63
    then exec_branch m pc inst next
    else if opcode == 0x03
    then exec_load m pc inst next
    else if opcode == 0x23
    then exec_store tohost_addr m pc inst next
    else if opcode == 0x13
    then finish m pc inst next (op_imm_value inst f3 a)
    else if opcode == 0x1b
    then finish m pc inst next (op_imm_32_value inst f7 f3 a)
    else if opcode == 0x33
    then finish m pc inst next (op_value f7 f3 a b)
    else if opcode == 0x3b
    then finish m pc inst next (op_32_value f7 f3 a b)
    else if opcode == 0x0f
    then if leb f3 1 then jump m next else trap m (illegal_instruction pc inst)
    else if opcode == 0x73
    then exec_system syscalls m pc inst next
    else trap m (illegal_instruction pc inst)
