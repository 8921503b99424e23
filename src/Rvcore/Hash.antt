-- ===== src/Rvcore/Hash.antt =====
-- crates/rvcore/src/hash.rs and `Mem::merkle_root` of mem.rs. BLAKE3 is a parameter, a function from
-- the bytes fed to the hasher to the digest.
pub mod Binding
use provework.Prelude.{ℕ, Bytes, List, [], ◌∷◌, ◌++◌, replicate, to_le_bytes}
use provework.Rvcore.Cpu.{Cpu}
use provework.Rvcore.Mem.{Mem, Page, page_iter}

abbrev pub genesis : Bytes
genesis = replicate 32 0

unfoldable pub page_bytes : List (ℕ × Page) → Bytes
page_bytes [] = []
page_bytes ((idx, page) ∷ pages) = to_le_bytes 4 idx ++ (page ++ page_bytes pages)

-- `merkle_root`
unfoldable pub merkle_root : (Bytes → Bytes) → Mem → Bytes
unfolding page_bytes page_iter
merkle_root blake3 mem = blake3 (page_bytes (page_iter mem))

-- 64-bit words one after another, as both the hash and the snapshot write them.
unfoldable pub word_bytes : List ℕ → Bytes
word_bytes [] = []
word_bytes (w ∷ ws) = to_le_bytes 8 w ++ word_bytes ws

unfoldable pub csr_bytes : Cpu → Bytes
unfolding word_bytes
csr_bytes cpu = word_bytes (cpu.mtvec ∷ cpu.mepc ∷ cpu.mcause ∷ cpu.mstatus ∷ [])

unfoldable pub state_hash : (Bytes → Bytes) → Bytes → Cpu → Mem → Bytes
unfolding word_bytes csr_bytes merkle_root
state_hash blake3 prev cpu mem = blake3 (
    prev
    ++ (word_bytes cpu.x ++ (to_le_bytes 8 cpu.pc ++ (csr_bytes cpu ++ merkle_root blake3 mem))))
