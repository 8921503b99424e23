-- ===== src/Coordinator/Zk/Process.antt =====
-- crates/coordinator/src/receipt.rs and zk_judge.rs: the operating system that they call, and the loops
-- that wait for a child process until it has ended or its deadline has passed.
pub mod Ends
use provework.Prelude.{ℕ, zero, suc, Bytes, Option, List, Bool, true, false, leb}
use provework.Contentstore.{Disk}

-- What `try_wait` answers; an ended child has succeeded or not.
pub data Polled : Type 0 where
  ended : (success : Bool) → Polled
  running : Polled
  poll_failed : Polled

-- A spawned child: its answer to each poll, the milliseconds since the spawn at each look at the
-- clock, what reads of its output give, piece by piece, whether the output then closes, and the disk
-- that it leaves. An output that does not close, as where a process that inherited it lives on, blocks
-- its reader for ever.
pub record Child : Type 0 where
  pub polls : ℕ → Polled
  pub clock : ℕ → ℕ
  pub stdout : List Bytes
  pub closes : Bool
  pub disk : Disk

-- What `create_new` does.
pub data Created : Type 0 where
  created : Disk → Created
  already_exists : Created
  create_failed : Created

-- The calls of the operating system.
pub record Host : Type 0 where
  pub temp_dir : Bytes
  pub process_id : ℕ
  pub create_dir_all : Disk → Bytes → Bool
  pub create_new : Disk → Bytes → Created
  pub write_all : Disk → Bytes → Bytes → Bool × Disk
  pub remove_file : Disk → Bytes → Disk
  pub spawn : Disk → (cmd : Bytes) → (args : List Bytes) → Option Child

pub data Waited : Type 0 where
  exited : (success : Bool) → Waited
  killed : Waited
  wait_failed : Waited
  out_of_fuel : Waited

-- The loop, from its `i`-th round on.
unfoldable pub wait : (limit : ℕ) → Child → (fuel i : ℕ) → Waited
wait limit child zero i = out_of_fuel
wait limit child (suc fuel) i = elim (child.polls i) [
  | ended success ↦ exited success
  | poll_failed ↦ wait_failed
  | running ↦ elim (leb limit (child.clock i)) [
    | true ↦ killed
    | false ↦ wait limit child fuel (suc i)
  ]
]
