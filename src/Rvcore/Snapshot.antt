-- ===== src/Rvcore/Snapshot.antt =====
-- crates/rvcore/src/snapshot.rs: the serialized machine state.
pub mod Pages
pub mod Layout
pub mod RoundTrip
use provework.Prelude.{
  ℕ, zero, suc, ◌+◌, ◌%◌, ◌^◌, Bytes, none, List, [], ◌∷◌, ◌++◌, if◌then◌else◌, ltb, ◌==◌, not,
  length, take, drop, bytes_eq, to_le_bytes, from_le_bytes, Result, ok, err, text,
}
use provework.Rvcore.Cpu.{Cpu}
use provework.Rvcore.Mem.{Mem, page_size, empty_mem, page_iter, insert_page, allocated_pages}
use provework.Rvcore.Hash.{word_bytes, csr_bytes, page_bytes}

abbrev pub magic : Bytes
magic = text "RVS1"

unfoldable pub capture : Cpu → Mem → Bytes
unfolding word_bytes csr_bytes page_bytes page_iter allocated_pages
capture cpu mem =
    magic
    ++ (to_le_bytes 4 (allocated_pages mem % 2 ^ 32)
        ++ (word_bytes cpu.x
            ++ (to_le_bytes 8 cpu.pc ++ (csr_bytes cpu ++ page_bytes (page_iter mem)))))

pub data SnapshotError : Type 0 where
  too_short : SnapshotError
  bad_magic : SnapshotError
  truncated_page_data : SnapshotError
  trailing_bytes : SnapshotError

-- The bytes before the first page: magic, page count, 32 registers, pc and four CSRs.
abbrev pub header_size : ℕ
header_size = 304

-- `u64le` of `restore`, and the register array that it fills.
abbrev pub u64le : Bytes → ℕ → ℕ
u64le bytes o = from_le_bytes (take 8 (drop o bytes))

unfoldable pub read_words : ℕ → Bytes → List ℕ
read_words zero bs = []
read_words (suc n) bs = from_le_bytes (take 8 bs) ∷ read_words n (drop 8 bs)

-- The page loop, on the bytes from `off` on.
unfoldable pub restore_pages : ℕ → Bytes → Mem → Result SnapshotError Mem
unfolding insert_page
restore_pages zero rest mem = if length rest == 0 then ok mem else err trailing_bytes
restore_pages (suc count) rest mem =
    let more =
      restore_pages count (drop (4 + page_size) rest)
        (insert_page mem (from_le_bytes (take 4 rest)) (take page_size (drop 4 rest))) in
    if ltb (length rest) (4 + page_size) then err truncated_page_data else more

unfoldable pub restored_cpu : Bytes → Cpu
unfolding read_words
restored_cpu bytes = record {
  x = read_words 32 (drop 8 bytes);
  pc = u64le bytes 264;
  mtvec = u64le bytes 272;
  mepc = u64le bytes 280;
  mcause = u64le bytes 288;
  mstatus = u64le bytes 296;
  tohost = none;
}

unfoldable pub restore : Bytes → Result SnapshotError (Cpu × Mem)
unfolding restored_cpu restore_pages empty_mem
restore bytes =
    if ltb (length bytes) header_size
    then err too_short
    else if not (bytes_eq (take 4 bytes) magic)
    then err bad_magic
    else elim (restore_pages (from_le_bytes (take 4 (drop 4 bytes))) (drop header_size bytes)
        empty_mem) [ err e ↦ err e | ok mem ↦ ok (restored_cpu bytes, mem) ]
