-- ===== src/Rvcore/Run.antt =====
-- The run loop of crates/rvcore/src/interp.rs and `execute_chunk_from`. The digest function and the
-- trace output are outside: the first is a parameter, the second is left out. The files of
-- `write_snapshot` are the list of their indices and contents, newest last.
pub mod Chain
use provework.Prelude.{
  ℕ, zero, suc, ◌+◌, ◌-◌, ◌*◌, ◌/◌, ◌%◌, ◌^◌, Bytes, Option, none, some, List, [], ◌∷◌, ◌++◌, Bool,
  true, false, if◌then◌else◌, ltb, leb, ◌==◌, not, ◌&&◌, length, to_le_bytes, Result, ok, err,
}
use provework.Rvcore.Cpu.{Cpu, new}
use provework.Rvcore.Mem
use provework.Rvcore.Mem.{Mem}
use provework.Rvcore.Machine.{
  Trap, illegal_instruction, load_out_of_range, store_out_of_range, ecall, output_too_large,
  fetch_unaligned, fetch_out_of_range, Machine, Outcome, done, trapped, panicked, Step,
}
use provework.Rvcore.Step.{step_mode, step}
use provework.Rvcore.Hash.{genesis, state_hash}
use provework.Rvcore.Snapshot.{SnapshotError, capture, restore}

abbrev pub input_len_addr : ℕ
input_len_addr = 0x10000000

abbrev pub input_data_addr : ℕ
input_data_addr = 0x10000008

abbrev pub output_len_addr : ℕ
output_len_addr = 0x20000000

abbrev pub output_data_addr : ℕ
output_data_addr = 0x20000008

abbrev pub output_max : ℕ
output_max = 2 ^ 20

abbrev pub stack_top : ℕ
stack_top = 0x83f00000

pub data ExitStatus : Type 0 where
  halted : ExitStatus
  tohost_exit : ℕ → ExitStatus
  instruction_limit : ExitStatus
  trap_exit : Trap → ExitStatus

pub record Config : Type 0 where
  pub chunk_size : ℕ
  pub max_instructions : ℕ
  pub syscalls : Bool
  -- Whether `snapshot_dir` is set.
  pub snapshots : Bool
  pub tohost_addr : Option ℕ

pub record RunOutcome : Type 0 where
  pub status : ExitStatus
  pub chunk_hashes : List Bytes
  pub instructions : ℕ
  pub output : Option Bytes
  pub syscall_log : Bytes

-- The locals of the loop.
pub record Loop : Type 0 where
  pub m : Machine
  pub prev : Bytes
  pub chain : List Bytes
  pub n : ℕ
  pub in_chunk : ℕ
  pub files : List (ℕ × Bytes)

pub data Next : Type 0 where
  going : Loop → Next
  exited : ExitStatus → Loop → Next
  crashed : Next
  out_of_fuel : Next

abbrev pub push_hash : (Bytes → Bytes) → Loop → Loop
push_hash blake3 s =
    let h = state_hash blake3 s.prev s.m.cpu s.m.mem in
    record s { prev = h; chain = s.chain ++ h ∷ [] }

-- `write_snapshot`, at the index that the next hash gets.
unfoldable pub write_snapshot : Config → Loop → Loop
unfolding capture
write_snapshot cfg s = record s {
  files =
      if cfg.snapshots then s.files ++ (length s.chain, capture s.m.cpu s.m.mem) ∷ [] else s.files;
}

-- `mcause` of a trap that is routed to the guest.
unfoldable pub cause : Trap → ℕ
cause (illegal_instruction pc inst) = 2
cause (load_out_of_range addr) = 5
cause (store_out_of_range addr) = 7
cause ecall = 8
cause fetch_unaligned = 0
cause fetch_out_of_range = 0
cause output_too_large = 0

unfoldable pub route : Trap → Loop → Loop
unfolding cause
route t s =
    let cpu = s.m.cpu in
    record s {
      m = record s.m {
        cpu = record cpu { mcause = cause t; mepc = cpu.pc; pc = cpu.mtvec / 4 * 4 };
      };
      n = s.n + 1;
      in_chunk = s.in_chunk + 1;
    }

-- The end of an iteration that executed an instruction.
unfoldable pub count : (Bytes → Bytes) → Config → Loop → Loop
unfolding write_snapshot
count blake3 cfg s =
    let s' = record s { n = s.n + 1; in_chunk = s.in_chunk + 1 } in
    if s.in_chunk + 1 == cfg.chunk_size
    then record (push_hash blake3 (write_snapshot cfg s')) { in_chunk = 0 }
    else s'

-- The `match step_out`, on the loop with the stepped machine.
unfoldable pub settle : (Bytes → Bytes) → Config → Outcome → Loop → Next
unfolding count route write_snapshot
settle blake3 cfg (done true) s =
    exited halted (push_hash blake3 (write_snapshot cfg (record s { n = s.n + 1 })))
settle blake3 cfg (done false) s = going (count blake3 cfg s)
settle blake3 cfg (trapped t) s =
    if not (s.m.cpu.mtvec == 0)
    then going (route t s)
    else exited (trap_exit t) (push_hash blake3 (write_snapshot cfg s))
settle blake3 cfg panicked s = crashed

-- The tohost device is looked at after every step.
unfoldable pub watch : (Bytes → Bytes) → Config → Outcome → Loop → Next
unfolding settle
watch blake3 cfg outcome s = elim cfg.tohost_addr [
  | none ↦ settle blake3 cfg outcome s
  | some _ ↦ elim s.m.cpu.tohost [
    | none ↦ settle blake3 cfg outcome s
    | some v ↦ exited (tohost_exit v) (push_hash blake3 s)
  ]
]

unfoldable pub after_step : (Bytes → Bytes) → Config → Step → Loop → Next
unfolding watch
after_step blake3 cfg (done halt, m) s = watch blake3 cfg (done halt) (record s { m = m })
after_step blake3 cfg (trapped t, m) s = watch blake3 cfg (trapped t) (record s { m = m })
after_step blake3 cfg (panicked, m) s = crashed

-- One iteration of the loop.
unfoldable pub iterate : (Bytes → Bytes) → Config → Loop → Next
unfolding after_step step_mode
iterate blake3 cfg s =
    if leb cfg.max_instructions s.n
    then exited instruction_limit (push_hash blake3 s)
    else after_step blake3 cfg (step_mode cfg.syscalls cfg.tohost_addr s.m) s

unfoldable pub run_loop : ℕ → (Bytes → Bytes) → Config → Loop → Next
unfolding iterate
run_loop zero blake3 cfg s = out_of_fuel
run_loop (suc fuel) blake3 cfg s = elim (iterate blake3 cfg s) [
  | going s' ↦ run_loop fuel blake3 cfg s'
  | exited status s' ↦ exited status s'
  | crashed ↦ crashed
  | out_of_fuel ↦ out_of_fuel
]

-- `Vec::pop`
unfoldable pub pop : List Bytes → List Bytes
pop [] = []
pop (h ∷ []) = []
pop (h ∷ k ∷ hs) = h ∷ pop (k ∷ hs)

-- What `run` reports after the loop: the output is read on a halt only.
unfoldable pub report : ExitStatus → Loop → RunOutcome
unfolding pop
report status s =
    let plain : RunOutcome = record {
      status = status;
      chunk_hashes = s.chain;
      instructions = s.n;
      output = none;
      syscall_log = s.m.mem.syscall_log;
    } in
    elim status [
      | halted ↦
          let (r, mem) = Mem.read s.m.mem output_len_addr 8 in
          let len : ℕ = elim r [ ok v ↦ v | err _ ↦ 0 ] in
          if ltb output_max len
          then record plain { status = trap_exit output_too_large; chunk_hashes = pop s.chain }
          else record plain {
            output = elim (Mem.read_region mem output_data_addr len) [
              | ok bytes ↦ some bytes
              | err _ ↦ none
            ];
          }
      | tohost_exit _ ↦ plain
      | instruction_limit ↦ plain
      | trap_exit _ ↦ plain
    ]

-- The input is installed before the loop; a failed install is a panic.
unfoldable pub install : Mem → Bytes → Option Mem
install mem input =
    let (r, m1) = Mem.write mem input_len_addr (to_le_bytes 8 (length input)) in
    let (r', m2) = Mem.write m1 input_data_addr input in
    elim r [ err _ ↦ none | ok _ ↦ elim r' [ err _ ↦ none | ok _ ↦ some m2 ] ]

abbrev pub start : Mem → ℕ → Loop
start mem entry = record {
  m = record { cpu = new entry stack_top; mem = mem };
  prev = genesis;
  chain = [];
  n = 0;
  in_chunk = 0;
  files = [];
}

-- `run`; none is a panic.
unfoldable pub run : (Bytes → Bytes) → Mem → ℕ → Bytes → Config → Option RunOutcome
unfolding install run_loop report
run blake3 mem entry input cfg = elim (install mem input) [
  | none ↦ none
  | some mem' ↦ elim (run_loop (suc cfg.max_instructions) blake3 cfg (start mem' entry)) [
    | exited status s ↦ some (report status s)
    | going _ ↦ none
    | crashed ↦ none
    | out_of_fuel ↦ none
  ]
]

pub data ChunkEnd : Type 0 where
  boundary : ChunkEnd
  chunk_halted : ChunkEnd
  chunk_trapped : Trap → ChunkEnd

-- The loop of `execute_chunk_from`, on fuel: none is a panic or the end of the fuel.
unfoldable pub chunk_loop :
    ℕ → (Bytes → Bytes) → Bytes → ℕ → Machine → ℕ → Option (Bytes × (ChunkEnd × ℕ))
unfolding step
chunk_loop zero blake3 prev chunk_size m n = none
chunk_loop (suc fuel) blake3 prev chunk_size m n =
    let (outcome, m') = step m in
    let h = state_hash blake3 prev m'.cpu m'.mem in
    elim outcome [
      | done true ↦ some (h, (chunk_halted, n + 1))
      | done false ↦
          let rest = chunk_loop fuel blake3 prev chunk_size m' (n + 1) in
          if n + 1 == chunk_size then some (h, (boundary, n + 1)) else rest
      | trapped t ↦ some (h, (chunk_trapped t, n))
      | panicked ↦ none
    ]

unfoldable pub execute_chunk_from :
    ℕ → (Bytes → Bytes) → Bytes → Bytes → ℕ → Result SnapshotError (Option (Bytes × (ChunkEnd × ℕ)))
unfolding chunk_loop restore
execute_chunk_from fuel blake3 snapshot prev chunk_size = elim (restore snapshot) [
  | err e ↦ err e
  | ok (cpu, mem) ↦ ok (chunk_loop fuel blake3 prev chunk_size (record { cpu = cpu; mem = mem }) 0)
]
