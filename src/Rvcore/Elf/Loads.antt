-- ===== src/Rvcore/Elf/Loads.antt =====
-- An image that parses can be loaded.
use provework.Prelude.{
  ℕ, zero, suc, ◌+◌, ◌*◌, ◌≤◌, ◌<◌, Bytes, Option, none, some, List, [], ◌∷◌, Bool, true, false,
  ◌≡◌, refl, arith, if◌then◌else◌, ltb, ◌==◌, ◌||◌, not, length, take, drop, length-take, All,
  bytes_eq, text, Result, ok, err,
}
use provework.Rvcore.Mem.{Mem, MemError, addr_space, in_bounds, write, load_image}
use provework.Rvcore.Elf.{
  ElfImage, ElfError, table_overflows, truncated_headers, filesz_above_memsz, segment_overflows,
  exceeds_space, beyond_file, elf_too_short, elf_bad_magic, not_elf64, not_little_endian, not_riscv,
  not_executable, bad_phentsize, no_segments, load_failed, find_tohost_section, le_at, overflows,
  header_segment, segments_from, parse, load_segments, load,
}

-- A segment inside the pinned address space.
abbrev pub Placed : ℕ × Bytes → Type 0
Placed (vaddr, bytes) = vaddr + length bytes ≤ addr_space

abbrev Given : Result ElfError (Option (ℕ × Bytes)) → Type 0
Given (ok (some s)) = Placed s
Given (ok none) = Unit {0}
Given (err e) = Unit {0}

-- The file bytes of a segment are no longer than its memory.
taken_fits :
    (vaddr filesz memsz : ℕ) (bytes : Bytes)
    → ltb memsz filesz ≡ false
    → ltb addr_space (vaddr + memsz) ≡ false
    → vaddr + length (take filesz bytes) ≤ addr_space
taken_fits vaddr filesz memsz bytes h g = ground (arith, length-take filesz bytes)

-- The tests of a program header, in their order.
gates-Given :
    (b1 b2 b3 b4 b5 b6 b7 : Bool) (s : ℕ × Bytes)
    → (b4 ≡ false → b6 ≡ false → Placed s)
    → Given (
        if b1
        then err table_overflows
        else if b2
        then err truncated_headers
        else if b3
        then ok none
        else if b4
        then err filesz_above_memsz
        else if b5
        then err segment_overflows
        else if b6
        then err exceeds_space
        else if b7
        then err beyond_file
        else ok (some s))
gates-Given true b2 b3 b4 b5 b6 b7 s h = tt
gates-Given false true b3 b4 b5 b6 b7 s h = tt
gates-Given false false true b4 b5 b6 b7 s h = tt
gates-Given false false false true b5 b6 b7 s h = tt
gates-Given false false false false true b6 b7 s h = tt
gates-Given false false false false false true b7 s h = tt
gates-Given false false false false false false true s h = tt
gates-Given false false false false false false false s h = h refl refl

header_segment-Given : (bytes : Bytes) (base : ℕ) → Given (header_segment bytes base)
unfolding header_segment
header_segment-Given bytes base =
    gates-Given (overflows base || overflows (base + 56)) (ltb (length bytes) (base + 56))
      (not (le_at bytes base 4 == 1)) (ltb memsz filesz) (overflows (vaddr + memsz))
      (ltb addr_space (vaddr + memsz))
      (overflows (offset + filesz) || ltb (length bytes) (offset + filesz))
      (vaddr, take filesz (drop offset bytes)) (taken_fits vaddr filesz memsz (drop offset bytes))
  where
    offset : ℕ
    offset = le_at bytes (base + 8) 8

    vaddr : ℕ
    vaddr = le_at bytes (base + 16) 8

    filesz : ℕ
    filesz = le_at bytes (base + 32) 8

    memsz : ℕ
    memsz = le_at bytes (base + 40) 8

abbrev AllPlaced : Result ElfError (List (ℕ × Bytes)) → Type 0
AllPlaced (ok ss) = All Placed ss
AllPlaced (err e) = Unit {0}

segments_from-AllPlaced :
    (left i : ℕ) (bytes : Bytes) (phoff : ℕ) → AllPlaced (segments_from left i bytes phoff)
unfolding segments_from
segments_from-AllPlaced zero i bytes phoff = tt
segments_from-AllPlaced (suc left) i bytes phoff =
    joined (header_segment bytes (phoff + i * 56)) (segments_from left (i + 1) bytes phoff)
      (header_segment-Given bytes (phoff + i * 56))
      (segments_from-AllPlaced left (i + 1) bytes phoff)
  where
    joined :
        (r : Result ElfError (Option (ℕ × Bytes))) (rest : Result ElfError (List (ℕ × Bytes)))
        → Given r
        → AllPlaced rest
        → AllPlaced (elim r [
          | err e ↦ err e
          | ok none ↦ rest
          | ok (some s) ↦ elim rest [ err e ↦ err e | ok ss ↦ ok (s ∷ ss) ]
        ])
    joined (err e) rest g all = tt
    joined (ok none) rest g all = all
    joined (ok (some s)) (err e) g all = tt
    joined (ok (some s)) (ok ss) g all = (g, all)

write_ok :
    (mem : Mem) (addr : ℕ) (bytes : Bytes)
    → addr + length bytes ≤ addr_space
    → (write mem addr bytes).0 ≡ ok tt
unfolding write
write_ok mem addr bytes h = rw (inside (length bytes) h) refl
  where
    inside : (len : ℕ) → addr + len ≤ addr_space → in_bounds addr len ≡ true
    inside len h = ground arith

load_segments_ok :
    (ss : List (ℕ × Bytes)) (mem : Mem) → All Placed ss → (load_segments ss mem).0 ≡ ok tt
unfolding load_segments load_image
load_segments_ok [] mem h = refl
load_segments_ok ((vaddr, bytes) ∷ ss) mem h =
    placed (write mem vaddr bytes) (write_ok mem vaddr bytes h.0)
      (load_segments_ok ss (write mem vaddr bytes).1 h.1)
  where
    placed :
        (r : Result MemError (Unit {0}) × Mem)
        → r.0 ≡ ok tt
        → (load_segments ss r.1).0 ≡ ok tt
        → (elim r.0 as (λ x. Result ElfError (Unit {0}) × Mem) [
          | err _ ↦ (err load_failed, r.1)
          | ok _ ↦ load_segments ss r.1
        ]).0
          ≡ ok tt
    placed (ok u, mem') e rest = rest
    placed (err x, mem') e rest = absurd cc

-- The tests of the file header, in their order.
gates-ok :
    (b1 b2 b3 b4 b5 b6 b7 : Bool) (x : Result ElfError ElfImage) (image : ElfImage)
    → (if b1
        then err elf_too_short
        else if b2
        then err elf_bad_magic
        else if b3
        then err not_elf64
        else if b4
        then err not_little_endian
        else if b5
        then err not_riscv
        else if b6
        then err not_executable
        else if b7
        then err bad_phentsize
        else x)
      ≡ ok image
    → x ≡ ok image
gates-ok true b2 b3 b4 b5 b6 b7 x image e = absurd cc
gates-ok false true b3 b4 b5 b6 b7 x image e = absurd cc
gates-ok false false true b4 b5 b6 b7 x image e = absurd cc
gates-ok false false false true b5 b6 b7 x image e = absurd cc
gates-ok false false false false true b6 b7 x image e = absurd cc
gates-ok false false false false false true b7 x image e = absurd cc
gates-ok false false false false false false true x image e = absurd cc
gates-ok false false false false false false false x image e = e

-- What the header's tests leave: the image is made of the segments, of which there is one.
assembled :
    (r : Result ElfError (List (ℕ × Bytes))) (entry : ℕ) (tohost : Option ℕ) (image : ElfImage)
    → AllPlaced r
    → elim r as (λ x. Result ElfError ElfImage) [
      | err e ↦ err e
      | ok [] ↦ err no_segments
      | ok (s ∷ ss) ↦ ok (record { entry = entry; segments = s ∷ ss; tohost_addr = tohost })
    ]
      ≡ ok image
    → (0 < length image.segments) × All Placed image.segments
assembled (err e) entry tohost image all q = absurd cc
assembled (ok []) entry tohost image all q = absurd cc
assembled (ok (s ∷ ss)) entry tohost image all q =
    let same : record { entry = entry; segments = s ∷ ss; tohost_addr = tohost } ≡ image = cc in
    rw (← same) (omega arith, all)

-- A file that parses has at least one segment, every segment lies inside the pinned address space,
-- and the image loads into any memory without an error.
pub parse-load :
    (bytes : Bytes) (image : ElfImage) (mem : Mem)
    → parse bytes ≡ ok image
    → (0 < length image.segments) × (All Placed image.segments × ((load mem image).0 ≡ ok tt))
unfolding load parse
parse-load bytes image mem e =
    let (some_segment, placed) =
      assembled segments (le_at bytes 0x18 8)
        (find_tohost_section bytes (le_at bytes 0x28 8) (le_at bytes 0x3a 2) (le_at bytes 0x3c 2)
          (le_at bytes 0x3e 2))
        image (segments_from-AllPlaced (le_at bytes 0x38 2) 0 bytes (le_at bytes 0x20 8))
        (gates-ok (ltb (length bytes) 64) (not (bytes_eq (take 4 bytes) (0x7f ∷ text "ELF")))
          (not (le_at bytes 4 1 == 2)) (not (le_at bytes 5 1 == 1))
          (not (le_at bytes 0x12 2 == 243)) (not (le_at bytes 0x10 2 == 2))
          (not (le_at bytes 0x36 2 == 56)) _ image e) in
    (some_segment, (placed, load_segments_ok image.segments mem placed))
  where
    segments : Result ElfError (List (ℕ × Bytes))
    segments = segments_from (le_at bytes 0x38 2) 0 bytes (le_at bytes 0x20 8)
