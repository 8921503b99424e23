-- ===== src/Rvcore/Step/Full.antt =====
-- The 32-bit instructions keep a machine well formed, one opcode after another.
use provework.Prelude.{
  ℕ, ◌+◌, ◌*◌, ◌/◌, ◌^◌, ◌<◌, Option, none, some, Bool, true, false, ◌≡◌, refl, arith,
  if◌then◌else◌, length,
}
use provework.Rvcore.Cpu.{get, get-lt}
use provework.Rvcore.Mem.{no_slot, addr_space, read_width}
use provework.Rvcore.Words.{wadd}
use provework.Rvcore.Machine.{Machine, trap, jump, illegal_instruction}
use provework.Rvcore.Alu.{Value, value, illegal, panics, imm_i}
use provework.Rvcore.Alu.Bounds.{
  Fits, word_bounds, wadd-lt, op_imm_value-Fits, op_imm_32_value-Fits, op_value-Fits,
  op_32_value-Fits,
}
use provework.Rvcore.Interp.{
  rd_of, f3_of, rs1_of, rs2_of, imm_u, imm_b, imm_s, finish, taken, exec_branch, load_kind,
  load_into, exec_load, store_from, store_width, latch, exec_store, exec_full,
}
use provework.Rvcore.Step.System.{Kept-exec_system}
use provework.Rvcore.Kept.{
  IsMachine, Kept, Kept-stay, Kept-if, Kept-jump, Kept-commit, Kept-from, Kept-load_into,
  Kept-store_from,
}

Kept-finish :
    (m : Machine) (pc inst next : ℕ) (v : Value)
    → IsMachine m
    → next < 2 ^ 64
    → Fits v
    → Kept m (finish m pc inst next v)
unfolding finish
Kept-finish m pc inst next (value v) h t f = Kept-commit m (rd_of inst) v next h f t
Kept-finish m pc inst next illegal h t f = Kept-stay m _ h
Kept-finish m pc inst next panics h t f = Kept-stay m _ h

Kept-exec_branch :
    (m : Machine) (pc inst next : ℕ)
    → IsMachine m
    → next < 2 ^ 64
    → Kept m (exec_branch m pc inst next)
unfolding exec_branch
Kept-exec_branch m pc inst next h t =
    branched (taken (f3_of inst) (get m.cpu (rs1_of inst)) (get m.cpu (rs2_of inst)))
  where
    branched :
        (o : Option Bool)
        → Kept m (elim o [
          | none ↦ trap m (illegal_instruction pc inst)
          | some true ↦ jump m (wadd pc (imm_b inst))
          | some false ↦ jump m next
        ])
    branched none = Kept-stay m _ h
    branched (some true) = Kept-jump m _ h (wadd-lt pc (imm_b inst))
    branched (some false) = Kept-jump m next h t

load_kind-read_width :
    (f3 len : ℕ) (sign : Bool) → load_kind f3 ≡ some (len, sign) → read_width len ≡ true
unfolding load_kind
load_kind-read_width f3 len sign e = ground arith

Kept-exec_load :
    (m : Machine) (pc inst next : ℕ)
    → IsMachine m
    → next < 2 ^ 64
    → Kept m (exec_load m pc inst next)
unfolding exec_load
Kept-exec_load m pc inst next h t =
    loaded (load_kind (f3_of inst)) (load_kind-read_width (f3_of inst))
  where
    addr : ℕ
    addr = wadd (get m.cpu (rs1_of inst)) (imm_i inst)

    loaded :
        (o : Option (ℕ × Bool))
        → ((len : ℕ) (sign : Bool) → o ≡ some (len, sign) → read_width len ≡ true)
        → Kept m (elim o [
          | none ↦ trap m (illegal_instruction pc inst)
          | some (len, sign) ↦ load_into m (rd_of inst) addr len sign next
        ])
    loaded none w = Kept-stay m _ h
    loaded (some (len, sign)) w =
        Kept-load_into m (rd_of inst) addr len sign next h (w len sign refl) t

Kept-exec_store :
    (tohost_addr : Option ℕ) (m : Machine) (pc inst next : ℕ)
    → IsMachine m
    → length m.mem.page_slots + 8 < no_slot
    → next < 2 ^ 64
    → Kept m (exec_store tohost_addr m pc inst next)
unfolding exec_store
Kept-exec_store tohost_addr m pc inst next h room t = stored (store_width (f3_of inst))
  where
    addr : ℕ
    addr = wadd (get m.cpu (rs1_of inst)) (imm_s inst)

    b : ℕ
    b = get m.cpu (rs2_of inst)

    tohost-IsMachine : (o : Option ℕ) → IsMachine (record m { cpu = record m.cpu { tohost = o } })
    tohost-IsMachine o = record {
      cpu = record {
        count = h.cpu.count;
        words = h.cpu.words;
        x0 = h.cpu.x0;
        pc_word = h.cpu.pc_word;
        mtvec_word = h.cpu.mtvec_word;
        mepc_word = h.cpu.mepc_word;
        mcause_word = h.cpu.mcause_word;
        mstatus_word = h.cpu.mstatus_word;
      };
      mem = h.mem;
      bytes = h.bytes;
    }

    Latched : Machine → Type 0
    Latched m' = IsMachine m' × (m'.mem.page_slots ≡ m.mem.page_slots)

    latch_if :
        (c : Bool) (o : Option ℕ)
        → Latched (if c then record m { cpu = record m.cpu { tohost = o } } else m)
    latch_if true o = (tohost-IsMachine o, refl)
    latch_if false o = (h, refl)

    latched : (len : ℕ) (o : Option ℕ) → Latched (latch o addr len b m)
    latched len none = (h, refl)
    latched len (some a) = latch_if _ _

    stored :
        (o : Option ℕ)
        → Kept m (elim o [
          | none ↦ trap m (illegal_instruction pc inst)
          | some len ↦ store_from (latch tohost_addr addr len b m) b addr len next
        ])
    stored none = Kept-stay m _ h
    stored (some len) =
        let (valid, same) = latched len tohost_addr in
        Kept-from m _ _ same (Kept-store_from _ b addr len next valid (rw same room) t)

-- The address of a `jalr` has its lowest bit cleared.
even-lt : (v : ℕ) → v < 2 ^ 64 → v / 2 * 2 < 2 ^ 64
even-lt v h = omega arith

pc_offset-lt : (pc inst : ℕ) → wadd pc (imm_u inst) < 2 ^ 64
pc_offset-lt pc inst = wadd-lt pc (imm_u inst)

module _ (m : Machine) (h : IsMachine m) where
  register-lt : (r : ℕ) → get m.cpu r < 2 ^ 64
  register-lt r = get-lt m.cpu r h.cpu

  pub Kept-exec_full :
      (syscalls : Bool) (tohost_addr : Option ℕ) (pc inst : ℕ)
      → m.cpu.pc < addr_space
      → length m.mem.page_slots + 8 < no_slot
      → Kept m (exec_full syscalls tohost_addr m pc inst)
  unfolding exec_full
  Kept-exec_full syscalls tohost_addr pc inst low room =
      let next = wadd-lt pc 4 in
      search
        (
          Kept-if, Kept-stay, Kept-jump, Kept-commit, h, low, room, next, even-lt, word_bounds,
          register-lt, Kept-finish, Kept-exec_branch, Kept-exec_load, Kept-exec_store,
          Kept-exec_system, op_imm_value-Fits, op_imm_32_value-Fits, op_value-Fits,
          op_32_value-Fits,
        )
        depth 20
