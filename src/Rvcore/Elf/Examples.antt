-- ===== src/Rvcore/Elf/Examples.antt =====
-- A file with one program header and four bytes of code.
use provework.Prelude.{
  ◌<◌, Bytes, none, [], ◌∷◌, ◌++◌, ◌≡◌, refl, length, replicate, All, to_le_bytes, from_le_bytes,
  ok,
}
use provework.Rvcore.Mem.{empty_mem}
use provework.Rvcore.Elf.{ElfImage, header_segment, segments_from, find_tohost_section, parse, load}
use provework.Rvcore.Elf.Loads.{Placed, parse-load}

abbrev code : Bytes
code = 0x93 ∷ 0x00 ∷ 0x50 ∷ 0x00 ∷ []

unfoldable file : Bytes
unfolding to_le_bytes
file =
    (0x7f ∷ 0x45 ∷ 0x4c ∷ 0x46 ∷ 2 ∷ 1 ∷ 1 ∷ 0 ∷ [])
    ++ replicate 8 0
    ++ to_le_bytes 2 2
    ++ to_le_bytes 2 243
    ++ to_le_bytes 4 1
    ++ to_le_bytes 8 0x80000000
    ++ to_le_bytes 8 64
    ++ replicate 12 0
    ++ to_le_bytes 2 64
    ++ to_le_bytes 2 56
    ++ to_le_bytes 2 1
    ++ replicate 6 0
    ++ to_le_bytes 4 1
    ++ to_le_bytes 4 5
    ++ to_le_bytes 8 120
    ++ to_le_bytes 8 0x80000000
    ++ to_le_bytes 8 0x80000000
    ++ to_le_bytes 8 4
    ++ to_le_bytes 8 8
    ++ to_le_bytes 8 4096
    ++ code

abbrev image : ElfImage
image = record { entry = 0x80000000; segments = (0x80000000, code) ∷ []; tohost_addr = none }

file_parses : parse file ≡ ok image
unfolding parse segments_from header_segment find_tohost_section from_le_bytes file
file_parses = refl

parse-load_example :
    (0 < length image.segments) × (All Placed image.segments × ((load empty_mem image).0 ≡ ok tt))
parse-load_example = parse-load file image empty_mem file_parses
