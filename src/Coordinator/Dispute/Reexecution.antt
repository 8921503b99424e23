-- ===== src/Coordinator/Dispute/Reexecution.antt =====
-- crates/coordinator/src/dispute.rs: the judges, which execute with crates/rvcore. The file of a
-- snapshot's index is a parameter.
use provework.Prelude.{
  ℕ, ◌-◌, ◌≤◌, Bytes, Option, none, some, List, [], false, ◌≡◌, refl, arith, if◌then◌else◌, ltb,
  ◌==◌, length, get_or, bytes_eq, bytes_eq→≡, Result, ok, err, Bool-cases, Option-cases, inl, inr,
}
use provework.Rvcore.Cpu.{Cpu}
use provework.Rvcore.Mem.{Mem, empty_mem}
use provework.Rvcore.Elf
use provework.Rvcore.Elf.{ElfImage, ElfError, parse}
use provework.Rvcore.Hash.{genesis, state_hash}
use provework.Rvcore.Snapshot.{SnapshotError, restore}
use provework.Rvcore.Run.{Config, RunOutcome, run, ChunkEnd, execute_chunk_from}
use provework.Coordinator.Dispute.{Hash, Judges, Attempt, answered, unavailable, lost}

abbrev pub judge_config : (chunk_size max_instructions : ℕ) → Config
judge_config chunk_size max_instructions = record {
  chunk_size = chunk_size;
  max_instructions = max_instructions;
  syscalls = false;
  snapshots = false;
  tohost_addr = none;
}

-- A run that panics, for want of an outcome.
abbrev or_lost {ℓ} : {A : Type ℓ} → Option A → Attempt A
or_lost none = lost
or_lost (some x) = answered x

-- A run of an ELF file from genesis.
unfoldable pub replay :
    (Bytes → Bytes)
    → (elf : Bytes) (entry : ℕ) (input : Bytes) (chunk_size max_instructions : ℕ)
    → Attempt RunOutcome
replay blake3 elf entry input chunk_size max_instructions = elim (parse elf) [
  | err e ↦ unavailable
  | ok image ↦
      let (loaded, mem) = Elf.load empty_mem image in
      elim loaded [
        | err e ↦ unavailable
        | ok _ ↦ or_lost (run blake3 mem entry input (judge_config chunk_size max_instructions))
      ]
]

unfoldable pub judge_by_replay :
    (Bytes → Bytes)
    → (elf : Bytes) (entry : ℕ) (input : Bytes) (chunk_size max_instructions : ℕ)
    → Attempt (List Hash)
unfolding replay
judge_by_replay blake3 elf entry input chunk_size max_instructions =
    elim (replay blake3 elf entry input chunk_size max_instructions) [
      | unavailable ↦ unavailable
      | lost ↦ lost
      | answered outcome ↦ answered outcome.chunk_hashes
    ]

-- `outcome.output.unwrap_or_default()`
abbrev pub or_empty : Option Bytes → Bytes
or_empty none = []
or_empty (some bytes) = bytes

unfoldable pub replay_journal :
    (Bytes → Bytes)
    → (elf : Bytes) (entry : ℕ) (input : Bytes) (chunk_size max_instructions : ℕ)
    → Attempt (ℕ × Bytes)
unfolding replay
replay_journal blake3 elf entry input chunk_size max_instructions =
    elim (replay blake3 elf entry input chunk_size max_instructions) [
      | unavailable ↦ unavailable
      | lost ↦ lost
      | answered outcome ↦ answered (outcome.instructions, or_empty outcome.output)
    ]

-- The entry of the chain before boundary `k`.
abbrev pub boundary_before : ℕ → List Hash → Hash
boundary_before k agreed = if k == 1 then genesis else get_or agreed (k - 2) []

-- The judge's hash of an executed chunk, where the execution has one.
abbrev pub chunk_hash : Result SnapshotError (Option (Bytes × (ChunkEnd × ℕ))) → Option Hash
chunk_hash (err e) = none
chunk_hash (ok none) = none
chunk_hash (ok (some (h, rest))) = some h

-- A restored snapshot against the agreed prefix, and the chunk that follows it.
unfoldable pub judge_restored :
    ℕ
    → (Bytes → Bytes)
    → Bytes
    → ℕ
    → List Hash
    → (chunk_size : ℕ) → Result SnapshotError (Cpu × Mem)
    → Option Hash
judge_restored fuel blake3 bytes k agreed chunk_size (err e) = none
judge_restored fuel blake3 bytes k agreed chunk_size (ok (cpu, mem)) =
    if bytes_eq (state_hash blake3 (boundary_before k agreed) cpu mem) (get_or agreed (k - 1) [])
    then chunk_hash (execute_chunk_from fuel blake3 bytes (get_or agreed (k - 1) []) chunk_size)
    else none

unfoldable pub judge_by_snapshot :
    ℕ
    → (Bytes → Bytes)
    → (snap_file : ℕ → Option Bytes) (k : ℕ) (agreed : List Hash) (chunk_size : ℕ) → Option Hash
unfolding judge_restored
judge_by_snapshot fuel blake3 snap_file k agreed chunk_size =
    if k == 0 then none else if ltb (length agreed) k then none else elim (snap_file (k - 1)) [
      | none ↦ none
      | some bytes ↦ judge_restored fuel blake3 bytes k agreed chunk_size (restore bytes)
    ]

-- The judges of `resolve` for a job: its snapshots' files, its ELF file and its input.
unfoldable pub job_judges :
    ℕ
    → (Bytes → Bytes)
    → (snap_file : ℕ → Option Bytes) (elf : Bytes) (entry : ℕ) (input : Bytes)
      (chunk_size max_instructions : ℕ)
    → Judges
unfolding judge_by_snapshot judge_by_replay
job_judges fuel blake3 snap_file elf entry input chunk_size max_instructions = record {
  by_snapshot = λ k agreed. judge_by_snapshot fuel blake3 snap_file k agreed chunk_size;
  by_replay = judge_by_replay blake3 elf entry input chunk_size max_instructions;
}

module _ (fuel : ℕ) (blake3 : Bytes → Bytes) (k : ℕ) (agreed : List Hash) (chunk_size : ℕ) where
  -- A snapshot whose state hashes to the agreed entry, and the hash of the chunk executed from it.
  abbrev pub Verified : Bytes → Hash → Type 0
  Verified bytes h =
      (cpu : Cpu) × (mem : Mem) × (restore bytes ≡ ok (cpu, mem))
      × (state_hash blake3 (boundary_before k agreed) cpu mem ≡ get_or agreed (k - 1) [])
      × (chunk_hash (execute_chunk_from fuel blake3 bytes (get_or agreed (k - 1) []) chunk_size)
          ≡ some h)

  judge_restored_sound :
      (bytes : Bytes) (r : Result SnapshotError (Cpu × Mem)) {h : Hash}
      → restore bytes ≡ r
      → judge_restored fuel blake3 bytes k agreed chunk_size r ≡ some h
      → Verified bytes h
  unfolding judge_restored
  judge_restored_sound bytes (err e) q j = absurd cc
  judge_restored_sound bytes (ok (cpu, mem)) q j =
      elim (Bool-cases (
        bytes_eq (state_hash blake3 (boundary_before k agreed) cpu mem)
          (get_or agreed (k - 1) []))) [
            | inl same ↦ (cpu, mem, q, bytes_eq→≡ _ _ same, rw same at j)
            | inr other ↦ absurd (cc (rw other at j))
          ]

  -- The snapshot judge answers only for an index from 1 to the length of the agreed chain, and only from
  -- a file that restores to a state whose hash, chained on the entry before, is the agreed entry; its
  -- answer is the hash that execute_chunk_from gives for the chunk that follows.
  pub judge_by_snapshot_sound :
      (snap_file : ℕ → Option Bytes) {h : Hash}
      → judge_by_snapshot fuel blake3 snap_file k agreed chunk_size ≡ some h
      → (1 ≤ k)
        × (k ≤ length agreed)
        × (bytes : Bytes) × (snap_file (k - 1) ≡ some bytes)
        × Verified bytes h
  unfolding judge_by_snapshot
  judge_by_snapshot_sound snap_file {h} j = elim (Bool-cases (k == 0)) [
    | inl zero_k ↦ absurd (cc (rw (judge_by_snapshot, zero_k) at j))
    | inr some_k ↦ elim (Bool-cases (ltb (length agreed) k)) [
      | inl beyond ↦ absurd (cc (rw (judge_by_snapshot, some_k, beyond) at j))
      | inr within ↦ elim (Option-cases (snap_file (k - 1))) [
        | inl missing ↦ absurd (cc (rw (judge_by_snapshot, some_k, within, missing) at j))
        | inr (bytes, there) ↦ (
          positive k some_k,
          fits (length agreed) k within,
          bytes,
          there,
          judge_restored_sound bytes (restore bytes) refl
              (rw (judge_by_snapshot, some_k, within, there) at j),
        )
      ]
    ]
  ]
    where
      positive : (n : ℕ) → (n == 0) ≡ false → 1 ≤ n
      positive n e = ground arith

      fits : (a b : ℕ) → ltb a b ≡ false → b ≤ a
      fits a b e = ground arith
