-- ===== src/Rvcore/Snapshot/RoundTrip.antt =====
-- crates/rvcore/src/snapshot.rs: what `restore` makes of a snapshot that `capture` has written.
use provework.Prelude.{
  ℕ, ◌%◌, ◌^◌, ◌<◌, Bytes, false, none, ◌≡◌, refl, ap, sym, ◌∙◌, arith, ltb, length, take, drop,
  All, from_le_bytes, ok,
}
use provework.Rvcore.Cpu.{Cpu, IsCpu}
use provework.Rvcore.Mem.{Mem, page_iter, empty_mem, allocated_pages}
use provework.Rvcore.Mem.Directory.{Ascending}
use provework.Rvcore.Hash.{csr_bytes, page_bytes, state_hash, merkle_root}
use provework.Rvcore.Hash.Binding.{IsPage}
use provework.Rvcore.Snapshot.{magic, capture, header_size, restore_pages, restored_cpu, restore}
use provework.Rvcore.Snapshot.Layout.{
  layout, restore_pages-page_bytes, length-pages_from, csrs-split, at_magic, at_pages, count_read,
  not_short, restored_cpu-layout,
}
use provework.Rvcore.Snapshot.Pages.{insert_all, page_iter-insert_all, page_iter-Rising}

restore-parts :
    (bytes : Bytes) (cpu : Cpu) (mem : Mem) (n : ℕ)
    → ltb (length bytes) header_size ≡ false
    → take 4 bytes ≡ magic
    → from_le_bytes (take 4 (drop 4 bytes)) ≡ n
    → restore_pages n (drop header_size bytes) empty_mem ≡ ok mem
    → restored_cpu bytes ≡ cpu
    → restore bytes ≡ ok (cpu, mem)
unfolding restore
restore-parts bytes cpu mem n l m c p r = rw (restore, l, m, c, p, r) refl

capture-layout :
    (cpu : Cpu) (mem : Mem) (v : IsCpu cpu)
    → length mem.page_dir < 2 ^ 32
    → capture cpu mem ≡ layout cpu (length mem.page_dir) (page_bytes (page_iter mem)) v
unfolding capture allocated_pages
capture-layout cpu mem v f =
    rw (fits (length mem.page_dir) f, csrs-split cpu (page_bytes (page_iter mem))) refl
  where
    fits : (n : ℕ) → n < 2 ^ 32 → n % 2 ^ 32 ≡ n
    fits n h = omega arith

-- The state that a snapshot stands for: the CPU without its tohost word, and a memory of the same pages.
abbrev pub IsSnapshotOf : Cpu → Mem → Bytes → Type 0
IsSnapshotOf cpu mem bytes =
    (mem' : Mem) × (restore bytes ≡ ok (record cpu { tohost = none }, mem'))
    × (page_iter mem' ≡ page_iter mem)
    × ((blake3 : Bytes → Bytes) (prev : Bytes)
        → state_hash blake3 prev (record cpu { tohost = none }) mem'
          ≡ state_hash blake3 prev cpu mem)

restored_mem : Mem → Mem
restored_mem mem = insert_all (page_iter mem) empty_mem

hash_congr :
    (blake3 : Bytes → Bytes) (prev : Bytes) (cpu : Cpu) (m n : Mem)
    → page_iter m ≡ page_iter n
    → state_hash blake3 prev (record cpu { tohost = none }) m ≡ state_hash blake3 prev cpu n
unfolding state_hash merkle_root csr_bytes
hash_congr blake3 prev cpu m n e = rw e refl

-- A snapshot that `capture` has written is restored without an error, to the same registers, program
-- counter, CSRs and pages and so to the same state hash over every previous hash, where the words fit
-- 64 bits, the pages are full, ascend and have 32-bit indices, and fewer than 2 ^ 32 are allocated.
pub restore-capture :
    (cpu : Cpu) (mem : Mem)
    → IsCpu cpu
    → Ascending mem.page_dir
    → All IsPage (page_iter mem)
    → length mem.page_dir < 2 ^ 32
    → IsSnapshotOf cpu mem (capture cpu mem)
unfolding page_iter restored_mem
restore-capture cpu mem v a p f =
    let pages = page_bytes (page_iter mem) in
    let count = length mem.page_dir in
    let same = page_iter-insert_all (page_iter mem) (page_iter-Rising mem a) in
    let counted = length-pages_from mem.page_slots mem.page_dir in
    (
      restored_mem mem,
      rw (capture-layout cpu mem v f) (
          restore-parts (layout cpu count pages v) (record cpu { tohost = none }) (restored_mem mem)
            count (not_short cpu count pages v) (at_magic cpu count pages v)
            (count_read cpu count pages v f)
            (ap (λ (t : Bytes). restore_pages count t empty_mem) (at_pages cpu count pages v)
              ∙ (ap (λ (n : ℕ). restore_pages n pages empty_mem) (sym counted)
                  ∙ restore_pages-page_bytes (page_iter mem) empty_mem p))
            (restored_cpu-layout cpu count pages v)),
      same,
      λ blake3 prev. hash_congr blake3 prev cpu (restored_mem mem) mem same,
    )
