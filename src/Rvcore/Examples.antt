-- ===== src/Rvcore/Examples.antt =====
-- A machine with one instruction in memory, and runs of it.
use provework.Prelude.{
  length-replicate, replicate, length, ◌∷◌, ◌<◌, ℕ, ◌+◌, ◌%◌, ◌^◌, ◌<◌, ◌≤◌, Bytes, none, [], ◌∷◌,
  true, false, ◌≡◌, ◌⊎◌, inl, refl, arith, length, get_or-replicate, length-replicate,
  from_le_bytes, ok, err, All, ◌==◌, ◌&&◌, ◌||◌, not,
}
use provework.Rvcore.Cpu.{Cpu, new, new-IsCpu}
use provework.Rvcore.Mem
use provework.Rvcore.Mem.Directory.{Ascending}
use provework.Rvcore.Snapshot.{capture}
use provework.Rvcore.Snapshot.RoundTrip.{IsSnapshotOf, restore-capture}
use provework.Rvcore.Mem.{
  insert_page, page_size, Mem, empty_mem, no_slot, no_page, addr_space, page_iter, pages_from,
  out_of_range, lookaside_slots, dir_get,
}
use provework.Rvcore.Mem.Invariant.{IsMem}
use provework.Rvcore.Mem.Slots.{SameBytes}
use provework.Rvcore.Mem.Store.{Written, write_lem}
use provework.Rvcore.Mem.Access.{AllBytes, AllBytes-Written, region, read_lem, read-write}
use provework.Rvcore.Machine.{Machine}
use provework.Rvcore.Alu.{op_value, op_imm_value, op_imm_32_value, op_32_value}
use provework.Rvcore.Alu.Panics.{is_panic, panics_lem}
use provework.Rvcore.Kept.{IsMachine, Kept}
use provework.Rvcore.Step.{step_mode}
use provework.Rvcore.Step.Invariant.{step_mode-Kept}
use provework.Rvcore.Hash.{genesis}
use provework.Rvcore.Hash.Binding.{IsPage, state_hash-injective}
use provework.Rvcore.Run.{Config, run_loop, start}
use provework.Rvcore.Run.Chain.{IsLoop, Finished, run_loop-Finished}

abbrev vacant : ℕ × ℕ
vacant = (no_page, no_slot)

empty-IsMem : IsMem empty_mem
unfolding empty_mem dir_get
empty-IsMem = record {
  ascending = tt;
  in_use = λ p s e. absurd cc;
  apart = λ p q s e. absurd cc;
  sized = λ s h. absurd (omega arith);
  few = omega arith;
  slots = length-replicate lookaside_slots vacant;
  cached = λ i. inl (get_or-replicate lookaside_slots i vacant);
}

empty-AllBytes : AllBytes empty_mem
unfolding empty_mem dir_get
empty-AllBytes a = omega arith

-- addi x1, x0, 5
abbrev code : Bytes
code = 0x93 ∷ 0x00 ∷ 0x50 ∷ 0x00 ∷ []

abbrev base : ℕ
base = 0x80000000

abbrev image : Mem
image = (Mem.write empty_mem base code).1

code_fits : length empty_mem.page_slots + length code < no_slot
unfolding empty_mem
code_fits = omega arith

write_lem_example :
    (base + length code ≤ addr_space
      → ((Mem.write empty_mem base code).0 ≡ ok tt)
        × Written empty_mem base code (Mem.write empty_mem base code).1)
    × (addr_space < base + length code
        → Mem.write empty_mem base code ≡ (err out_of_range, empty_mem))
write_lem_example = write_lem empty_mem base code empty-IsMem code_fits

image-Written : Written empty_mem base code image
image-Written = ((write_lem empty_mem base code empty-IsMem code_fits).0 (omega arith)).1

code_bytes : All (λ b. b < 256) code
code_bytes = (omega arith, (omega arith, (omega arith, (omega arith, tt))))

image-AllBytes : AllBytes image
image-AllBytes = AllBytes-Written empty_mem image base code empty-AllBytes code_bytes image-Written

read_lem_example :
    (Mem.read_width 4 ≡ true
      → base + 4 ≤ addr_space
      → ((Mem.read image base 4).0 ≡ ok (from_le_bytes (region image 4 base)))
        × SameBytes image (Mem.read image base 4).1
        × IsMem (Mem.read image base 4).1)
    × ((Mem.read_width 4 ≡ false) ⊎ (addr_space < base + 4)
        → Mem.read image base 4 ≡ (err out_of_range, image))
read_lem_example = read_lem image base 4 image-Written.valid image-AllBytes

read-write_example : (Mem.read (Mem.write empty_mem base code).1 base 4).0 ≡ ok (from_le_bytes code)
read-write_example =
    read-write empty_mem base code empty-IsMem empty-AllBytes code_bytes refl (omega arith)
      code_fits

abbrev machine : Machine
machine = record { cpu = new base 0x83f00000; mem = image }

machine-IsMachine : IsMachine machine
machine-IsMachine = record {
  cpu = new-IsCpu base 0x83f00000 (omega arith) (omega arith);
  mem = image-Written.valid;
  bytes = image-AllBytes;
}

image_room : length image.page_slots + 8 < no_slot
unfolding empty_mem
image_room = omega (arith, image-Written.grown)

step_mode-Kept_example : Kept machine (step_mode false none machine)
step_mode-Kept_example = step_mode-Kept false none machine machine-IsMachine image_room

panics_lem_example :
    ((is_panic (op_value 1 5 8 (2 ^ 32)) ≡ false)
      × ((is_panic (op_imm_value 0x00500093 5 8) ≡ false)
          × (is_panic (op_imm_32_value 0x00500093 1 5 8) ≡ false)))
    × (is_panic (op_32_value 1 5 8 (2 ^ 32))
        ≡ (1 == 1 && ((5 == 5 || 5 == 7) && (2 ^ 32 % 2 ^ 32 == 0 && not (2 ^ 32 == 0)))))
panics_lem_example = panics_lem 0x00500093 1 5 8 (2 ^ 32)

abbrev identity : Bytes → Bytes
identity xs = xs

empty_pages : All IsPage (page_iter empty_mem)
unfolding empty_mem page_iter pages_from
empty_pages = tt

abbrev cpu0 : Cpu
cpu0 = new base 0x83f00000

state_hash-injective_example :
    ((genesis ≡ genesis) × ((cpu0.x ≡ cpu0.x) × (cpu0.pc ≡ cpu0.pc)))
    × (((cpu0.mtvec ≡ cpu0.mtvec) × (cpu0.mepc ≡ cpu0.mepc))
        × (((cpu0.mcause ≡ cpu0.mcause) × (cpu0.mstatus ≡ cpu0.mstatus))
            × (page_iter empty_mem ≡ page_iter empty_mem)))
state_hash-injective_example =
    state_hash-injective identity (λ x y e. e) genesis genesis cpu0 cpu0 empty_mem empty_mem refl
      (new-IsCpu base 0x83f00000 (omega arith) (omega arith))
      (new-IsCpu base 0x83f00000 (omega arith) (omega arith)) empty_pages empty_pages refl

abbrev short : Config
short = record {
  chunk_size = 1;
  max_instructions = 2;
  syscalls = false;
  snapshots = false;
  tohost_addr = none;
}

start-IsLoop : IsLoop short (start image base)
start-IsLoop = record { tip = refl; budget = omega arith; paid = omega arith }

run_loop-Finished_example : Finished identity short (run_loop 3 identity short (start image base))
run_loop-Finished_example =
    run_loop-Finished 3 identity short (start image base) start-IsLoop (omega arith)

-- A memory of one page, all of whose bytes are 7.
abbrev sevens : Mem.Mem
sevens = insert_page empty_mem 0x80000 (replicate page_size 7)

sevens-page_iter : page_iter sevens ≡ (0x80000, replicate page_size 7) ∷ []
unfolding insert_page empty_mem page_iter pages_from
sevens-page_iter = refl

sevens-pages : All IsPage (page_iter sevens)
sevens-pages = rw sevens-page_iter ((omega arith, length-replicate {A = ℕ} page_size 7), tt)

sevens-Ascending : Ascending sevens.page_dir
unfolding insert_page empty_mem
sevens-Ascending = (tt, tt)

sevens-few : length sevens.page_dir < 2 ^ 32
unfolding insert_page empty_mem
sevens-few = omega arith

restore-capture_example : IsSnapshotOf cpu0 sevens (capture cpu0 sevens)
restore-capture_example =
    restore-capture cpu0 sevens (new-IsCpu base 0x83f00000 (omega arith) (omega arith))
      sevens-Ascending sevens-pages sevens-few
