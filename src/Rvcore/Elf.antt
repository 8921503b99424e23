-- ===== src/Rvcore/Elf.antt =====
-- crates/rvcore/src/elf.rs: the ELF64 loader. A `usize` is 64 bits wide; an error is a constructor.
pub mod Loads
mod Examples
use provework.Prelude.{
  ℕ, zero, suc, ◌+◌, ◌*◌, ◌^◌, Bytes, Option, none, some, List, [], ◌∷◌, Bool, true, false,
  if◌then◌else◌, ltb, leb, ◌==◌, ◌||◌, not, length, take, drop, bytes_eq, from_le_bytes, Result, ok,
  err, text,
}
use provework.Rvcore.Mem
use provework.Rvcore.Mem.{Mem, addr_space, load_image}

pub record ElfImage : Type 0 where
  pub entry : ℕ
  pub segments : List (ℕ × Bytes)
  pub tohost_addr : Option ℕ

pub data ElfError : Type 0 where
  elf_too_short elf_bad_magic not_elf64 not_little_endian not_riscv not_executable : ElfError
  bad_phentsize table_overflows truncated_headers filesz_above_memsz : ElfError
  segment_overflows exceeds_space beyond_file no_segments load_failed : ElfError

-- `u16le`, `u32le` and `u64le`, by the width in bytes.
abbrev pub le_at : Bytes → ℕ → ℕ → ℕ
le_at bytes o w = from_le_bytes (take w (drop o bytes))

abbrev pub overflows : ℕ → Bool
overflows n = leb (2 ^ 64) n

-- What one program header gives: nothing, or a segment.
unfoldable pub header_segment : Bytes → ℕ → Result ElfError (Option (ℕ × Bytes))
header_segment bytes base =
    let offset = le_at bytes (base + 8) 8 in
    let vaddr = le_at bytes (base + 16) 8 in
    let filesz = le_at bytes (base + 32) 8 in
    let memsz = le_at bytes (base + 40) 8 in
    if overflows base || overflows (base + 56)
    then err table_overflows
    else if ltb (length bytes) (base + 56)
    then err truncated_headers
    else if not (le_at bytes base 4 == 1)
    then ok none
    else if ltb memsz filesz
    then err filesz_above_memsz
    else if overflows (vaddr + memsz)
    then err segment_overflows
    else if ltb addr_space (vaddr + memsz)
    then err exceeds_space
    else if overflows (offset + filesz) || ltb (length bytes) (offset + filesz)
    then err beyond_file
    else ok (some (vaddr, take filesz (drop offset bytes)))

-- The segments of the headers from number `i` on.
unfoldable pub segments_from : ℕ → ℕ → Bytes → ℕ → Result ElfError (List (ℕ × Bytes))
unfolding header_segment
segments_from zero i bytes phoff = ok []
segments_from (suc left) i bytes phoff =
    let rest = segments_from left (i + 1) bytes phoff in
    elim (header_segment bytes (phoff + i * 56)) [
      | err e ↦ err e
      | ok none ↦ rest
      | ok (some s) ↦ elim rest [ err e ↦ err e | ok ss ↦ ok (s ∷ ss) ]
    ]

-- The name at an offset: up to the first zero, or empty where there is none.
unfoldable pub name_before_zero : Bytes → Option Bytes
name_before_zero [] = none
name_before_zero (c ∷ cs) =
    let rest = name_before_zero cs in
    if c == 0 then some [] else elim rest [ none ↦ none | some name ↦ some (c ∷ name) ]

abbrev pub name_at : Bytes → ℕ → Bytes
name_at bytes start = elim (name_before_zero (drop start bytes)) [ none ↦ [] | some name ↦ name ]

unfoldable pub tohost_from : ℕ → ℕ → Bytes → ℕ → ℕ → ℕ → Option ℕ
unfolding name_before_zero
tohost_from zero i bytes shoff shentsize names = none
tohost_from (suc left) i bytes shoff shentsize names =
    let base = shoff + i * shentsize in
    let name = names + le_at bytes base 4 in
    let rest = tohost_from left (i + 1) bytes shoff shentsize names in
    if overflows base || overflows (base + 64)
    then none
    else if ltb (length bytes) (base + 64)
    then none
    else if not (le_at bytes (base + 4) 4 == 1)
    then rest
    else if overflows name || ltb (length bytes) name
    then none
    else if bytes_eq (name_at bytes name) (text ".tohost")
    then some (le_at bytes (base + 16) 8)
    else rest

unfoldable pub find_tohost_section : Bytes → ℕ → ℕ → ℕ → ℕ → Option ℕ
unfolding tohost_from
find_tohost_section bytes shoff shentsize shnum shstrndx =
    let header = shoff + shstrndx * shentsize in
    if shoff == 0 || shnum == 0 || shentsize == 0
    then none
    else if overflows (header + 32) || ltb (length bytes) (header + 32)
    then none
    else tohost_from shnum 0 bytes shoff shentsize (le_at bytes (header + 24) 8)

unfoldable pub parse : Bytes → Result ElfError ElfImage
unfolding segments_from find_tohost_section
parse bytes =
    let segments = segments_from (le_at bytes 0x38 2) 0 bytes (le_at bytes 0x20 8) in
    if ltb (length bytes) 64
    then err elf_too_short
    else if not (bytes_eq (take 4 bytes) (0x7f ∷ text "ELF"))
    then err elf_bad_magic
    else if not (le_at bytes 4 1 == 2)
    then err not_elf64
    else if not (le_at bytes 5 1 == 1)
    then err not_little_endian
    else if not (le_at bytes 0x12 2 == 243)
    then err not_riscv
    else if not (le_at bytes 0x10 2 == 2)
    then err not_executable
    else if not (le_at bytes 0x36 2 == 56)
    then err bad_phentsize
    else elim segments [
      | err e ↦ err e
      | ok [] ↦ err no_segments
      | ok (s ∷ ss) ↦ ok (record {
        entry = le_at bytes 0x18 8;
        segments = s ∷ ss;
        tohost_addr =
            find_tohost_section bytes (le_at bytes 0x28 8) (le_at bytes 0x3a 2) (le_at bytes 0x3c 2)
              (le_at bytes 0x3e 2);
      })
    ]

-- The segments placed one after another; a failed one ends the loop, with those before it in place.
unfoldable pub load_segments : List (ℕ × Bytes) → Mem → Result ElfError (Unit {0}) × Mem
unfolding load_image
load_segments [] mem = (ok tt, mem)
load_segments ((vaddr, bytes) ∷ rest) mem =
    let (r, mem') = load_image mem vaddr bytes in
    let more = load_segments rest mem' in elim r [ err _ ↦ (err load_failed, mem') | ok _ ↦ more ]

unfoldable pub load : Mem → ElfImage → Result ElfError (Unit {0}) × Mem
unfolding load_segments
load mem elf = load_segments elf.segments mem
