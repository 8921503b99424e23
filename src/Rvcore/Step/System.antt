-- ===== src/Rvcore/Step/System.antt =====
-- The SYSTEM instructions, CSRs and environment calls, keep a machine well formed.
use provework.Prelude.{
  ℕ, ◌+◌, ◌-◌, ◌*◌, ◌/◌, ◌^◌, ◌<◌, List, ◌++◌, Bool, true, false, refl, arith, if◌then◌else◌, ◌==◌,
  bit_and, Result, ok, err,
}
use provework.Rvcore.Cpu.{Cpu, IsCpu, get, get-lt, set_reg, set_reg-IsCpu}
use provework.Rvcore.Mem
use provework.Rvcore.Mem.{MemError, no_slot, addr_space, read_width}
use provework.Rvcore.Words.{bits, complement}
use provework.Rvcore.Machine.{Machine, done, trap, ecall}
use provework.Rvcore.Alu.Bounds.{pick-lt, word_and-lt, word_or-lt}
use provework.Rvcore.Interp.{
  rd_of, f3_of, log_bytes, do_syscall, csr_source, csr_read, csr_new, csr_write, exec_csr,
  exec_system,
}
use provework.Rvcore.Kept.{IsMachine, Kept, Kept-stay, Kept-if, Kept-commit, Kept-from, pc-IsCpu}

Kept-log_bytes : (m : Machine) → IsMachine m → m.cpu.pc < addr_space → Kept m (log_bytes m)
unfolding log_bytes
Kept-log_bytes m h low = written_out (Mem.read_region m.mem (get m.cpu 11) (get m.cpu 12))
  where
    written_out :
        (r : Result MemError (List ℕ))
        → Kept m (elim r [
          | err e ↦ trap m ecall
          | ok bytes ↦ (
            done false,
            record {
              cpu = record (set_reg m.cpu 10 (get m.cpu 12)) { pc = m.cpu.pc + 4 };
              mem = record m.mem { syscall_log = m.mem.syscall_log ++ bytes };
            },
          )
        ])
    written_out (err e) = Kept-stay m _ h
    written_out (ok bytes) = record {
      valid = record {
        cpu = pc-IsCpu _ _ (omega arith) (set_reg-IsCpu m.cpu 10 _ (get-lt m.cpu 12 h.cpu) h.cpu);
        mem = record {
          ascending = h.mem.ascending;
          in_use = h.mem.in_use;
          apart = h.mem.apart;
          sized = h.mem.sized;
          few = h.mem.few;
          slots = h.mem.slots;
          cached = h.mem.cached;
        };
        bytes = h.bytes;
      };
      grown = omega arith;
    }

Kept-do_syscall : (m : Machine) → IsMachine m → m.cpu.pc < addr_space → Kept m (do_syscall m)
unfolding do_syscall
Kept-do_syscall m h low = search (Kept-if, Kept-stay, h, low, Kept-log_bytes) depth 8

csr_read-lt : (cpu : Cpu) (num : ℕ) → IsCpu cpu → csr_read cpu num < 2 ^ 64
unfolding csr_read
csr_read-lt cpu num h = pick-lt (num == 0x300) _ _ h.mstatus_word (
    pick-lt (num == 0x305) _ _ h.mtvec_word (
      pick-lt (num == 0x341) _ _ h.mepc_word
        (pick-lt (num == 0x342) _ _ h.mcause_word (omega arith))))

csr_source-lt : (m : Machine) (inst : ℕ) → IsMachine m → csr_source m inst < 2 ^ 64
unfolding csr_source
csr_source-lt m inst h = pick-lt _ _ _ (get-lt m.cpu _ h.cpu) (
    pick-lt (bits (bits inst 15 5) 4 1 == 1) (bits inst 15 5 - 16) (bits inst 15 5) (omega arith)
      (omega arith))

csr_new-lt : (f3 old src : ℕ) → old < 2 ^ 64 → src < 2 ^ 64 → csr_new f3 old src < 2 ^ 64
unfolding csr_new
csr_new-lt f3 old src p q =
    pick-lt _ _ _ q (pick-lt _ _ _ (word_or-lt old src p q) (word_and-lt old _ p))

csr_write-IsCpu : (cpu : Cpu) (num v : ℕ) → v < 2 ^ 64 → IsCpu cpu → IsCpu (csr_write cpu num v)
unfolding csr_write
csr_write-IsCpu cpu num v fits h =
    picked (num == 0x300) _ _
      (with_csrs cpu.mtvec cpu.mepc cpu.mcause v h.mtvec_word h.mepc_word h.mcause_word fits)
      (picked (num == 0x305) _ _
        (with_csrs (v / 4 * 4) cpu.mepc cpu.mcause cpu.mstatus (omega arith) h.mepc_word
          h.mcause_word h.mstatus_word)
        (picked (num == 0x341) _ _
          (with_csrs cpu.mtvec v cpu.mcause cpu.mstatus h.mtvec_word fits h.mcause_word
            h.mstatus_word)
          (picked (num == 0x342) _ _
            (with_csrs cpu.mtvec cpu.mepc v cpu.mstatus h.mtvec_word h.mepc_word fits
              h.mstatus_word)
            h)))
  where
    picked : (b : Bool) (c d : Cpu) → IsCpu c → IsCpu d → IsCpu (if b then c else d)
    picked true c d p q = p
    picked false c d p q = q

    with_csrs :
        (t e c s : ℕ)
        → t < 2 ^ 64
        → e < 2 ^ 64
        → c < 2 ^ 64
        → s < 2 ^ 64
        → IsCpu (record cpu { mtvec = t; mepc = e; mcause = c; mstatus = s })
    with_csrs t e c s ht he hc hs = record {
      count = h.count;
      words = h.words;
      x0 = h.x0;
      pc_word = h.pc_word;
      mtvec_word = ht;
      mepc_word = he;
      mcause_word = hc;
      mstatus_word = hs;
    }

Kept-exec_csr :
    (m : Machine) (inst next : ℕ) → IsMachine m → next < 2 ^ 64 → Kept m (exec_csr m inst next)
unfolding exec_csr
Kept-exec_csr m inst next h t =
    let old = csr_read-lt m.cpu (bits inst 20 12) h.cpu in
    Kept-from m _ _ refl (
      Kept-commit _ (rd_of inst) _ next
        (record {
          cpu =
              csr_write-IsCpu m.cpu (bits inst 20 12) _
                (csr_new-lt (f3_of inst) _ _ old (csr_source-lt m inst h)) h.cpu;
          mem = h.mem;
          bytes = h.bytes;
        })
        old t)

Kept-mret :
    (m : Machine)
    → IsMachine m
    → Kept m (
      done false,
      record m {
        cpu = record m.cpu { pc = m.cpu.mepc; mstatus = bit_and m.cpu.mstatus (complement 0x1800) };
      },
    )
Kept-mret m h = record {
  valid = record {
    cpu = record {
      count = h.cpu.count;
      words = h.cpu.words;
      x0 = h.cpu.x0;
      pc_word = h.cpu.mepc_word;
      mtvec_word = h.cpu.mtvec_word;
      mepc_word = h.cpu.mepc_word;
      mcause_word = h.cpu.mcause_word;
      mstatus_word = word_and-lt _ _ h.cpu.mstatus_word;
    };
    mem = h.mem;
    bytes = h.bytes;
  };
  grown = omega arith;
}

pub Kept-exec_system :
    (syscalls : Bool) (m : Machine) (pc inst next : ℕ)
    → IsMachine m
    → m.cpu.pc < addr_space
    → next < 2 ^ 64
    → Kept m (exec_system syscalls m pc inst next)
unfolding exec_system
Kept-exec_system syscalls m pc inst next h low t =
    search (Kept-if, Kept-stay, h, low, t, Kept-do_syscall, Kept-mret, Kept-exec_csr) depth 10
