-- ===== src/Rvcore/Snapshot/Layout.antt =====
-- crates/rvcore/src/snapshot.rs: the parts of a snapshot, where `restore` reads them.
use provework.Prelude.{
  ℕ, zero, suc, ◌+◌, ◌*◌, ◌^◌, ◌≤◌, ◌<◌, Bytes, List, [], ◌∷◌, ◌++◌, append_assoc, append_nil,
  false, none, ◌≡◌, refl, ap, sym, ◌∙◌, arith, ltb, length, take, drop, take-append, drop-append,
  length-append, drop-nil, All, to_le_bytes, from_le_bytes, length-to_le_bytes,
  from_le_bytes-to_le_bytes, ok,
}
use provework.Rvcore.Cpu.{Cpu, IsCpu}
use provework.Rvcore.Mem.{Mem, Page, page_size, pages_from}
use provework.Rvcore.Hash.{word_bytes, csr_bytes, page_bytes}
use provework.Rvcore.Hash.Binding.{IsPage}
use provework.Rvcore.Snapshot.{magic, header_size, u64le, read_words, restore_pages, restored_cpu}
use provework.Rvcore.Snapshot.Pages.{Pages, insert_all}

take-part : (n : ℕ) (part rest : Bytes) → length part ≡ n → take n (part ++ rest) ≡ part
take-part n part rest l = ap (λ (m : ℕ). take m (part ++ rest)) (sym l) ∙ take-append part rest

drop-part : (n : ℕ) (part rest : Bytes) → length part ≡ n → drop n (part ++ rest) ≡ rest
drop-part n part rest l = ap (λ (m : ℕ). drop m (part ++ rest)) (sym l) ∙ drop-append part rest

from_le-part :
    (w v : ℕ) (rest : Bytes) → v < 256 ^ w → from_le_bytes (take w (to_le_bytes w v ++ rest)) ≡ v
from_le-part w v rest h =
    ap from_le_bytes (take-part w (to_le_bytes w v) rest (length-to_le_bytes w v))
    ∙ from_le_bytes-to_le_bytes w v h

read_words-word_bytes :
    (ws : List ℕ) (rest : Bytes)
    → All (λ v. v < 2 ^ 64) ws
    → read_words (length ws) (word_bytes ws ++ rest) ≡ ws
unfolding read_words word_bytes
read_words-word_bytes [] rest h = refl
read_words-word_bytes (w ∷ ws) rest h =
    let e = append_assoc (to_le_bytes 8 w) (word_bytes ws) rest in
    rw
      (
        e,
        from_le-part 8 w (word_bytes ws ++ rest) h.0,
        drop-part 8 (to_le_bytes 8 w) (word_bytes ws ++ rest) (length-to_le_bytes 8 w),
      )
      (ap (λ (t : List ℕ). w ∷ t) (read_words-word_bytes ws rest h.1))

length-word_bytes : (ws : List ℕ) → length (word_bytes ws) ≡ 8 * length ws
unfolding word_bytes
length-word_bytes [] = refl
length-word_bytes (w ∷ ws) = omega (
  arith,
  length-append (to_le_bytes 8 w) (word_bytes ws),
  length-to_le_bytes 8 w,
  length-word_bytes ws,
)

page-short :
    (k : ℕ) (page rest : Bytes)
    → length page ≡ page_size
    → ltb (length (to_le_bytes 4 k ++ (page ++ rest))) (4 + page_size) ≡ false
page-short k page rest l = long _ (
    omega (
      arith,
      length-append (to_le_bytes 4 k) (page ++ rest),
      length-append page rest,
      length-to_le_bytes 4 k,
    ))
  where
    long : (n : ℕ) → 4 + page_size ≤ n → ltb n (4 + page_size) ≡ false
    long n h = ground arith

page-after :
    (k : ℕ) (page rest : Bytes)
    → length page ≡ page_size
    → drop (4 + page_size) (to_le_bytes 4 k ++ (page ++ rest)) ≡ rest
page-after k page rest l =
    ap (λ (t : Bytes). drop (4 + page_size) t) (sym (append_assoc (to_le_bytes 4 k) page rest))
    ∙ drop-part (4 + page_size) (to_le_bytes 4 k ++ page) rest
        (omega (arith, length-append (to_le_bytes 4 k) page, length-to_le_bytes 4 k))

-- The page loop puts the pages back one after the other.
pub restore_pages-page_bytes :
    (ps : Pages) (m : Mem)
    → All IsPage ps
    → restore_pages (length ps) (page_bytes ps) m ≡ ok (insert_all ps m)
unfolding restore_pages page_bytes insert_all
restore_pages-page_bytes [] m h = refl
restore_pages-page_bytes ((k, page) ∷ ps) m h =
    rw
      (
        page-short k page (page_bytes ps) h.0.1,
        page-after k page (page_bytes ps) h.0.1,
        from_le-part 4 k (page ++ page_bytes ps) h.0.0,
        drop-part 4 (to_le_bytes 4 k) (page ++ page_bytes ps) (length-to_le_bytes 4 k),
        take-part page_size page (page_bytes ps) h.0.1,
      )
      (restore_pages-page_bytes ps _ h.1)

drop_add : (m n : ℕ) (xs : Bytes) → drop (m + n) xs ≡ drop n (drop m xs)
drop_add zero n xs = ap (λ (k : ℕ). drop k xs) (omega arith)
drop_add (suc m) n [] = drop-nil (suc m + n) ∙ sym (drop-nil n)
drop_add (suc m) n (x ∷ xs) = ap (λ (k : ℕ). drop k (x ∷ xs)) (shift m n) ∙ drop_add m n xs
  where
    shift : (a b : ℕ) → suc a + b ≡ suc (a + b)
    shift a b = omega arith

-- The next part of the layout.
advance :
    (m n : ℕ) (xs part rest : Bytes)
    → drop m xs ≡ part ++ rest
    → length part ≡ n
    → drop (m + n) xs ≡ rest
advance m n xs part rest e l =
    drop_add m n xs ∙ (ap (λ (t : Bytes). drop n t) e ∙ drop-part n part rest l)

u64-at :
    (o v : ℕ) (bytes rest : Bytes)
    → drop o bytes ≡ to_le_bytes 8 v ++ rest
    → v < 2 ^ 64
    → u64le bytes o ≡ v
u64-at o v bytes rest e h = ap (λ (t : Bytes). from_le_bytes (take 8 t)) e ∙ from_le-part 8 v rest h

-- The four CSRs in front of the pages.
pub csrs-split :
    (cpu : Cpu) (rest : Bytes)
    → csr_bytes cpu ++ rest
      ≡ to_le_bytes 8 cpu.mtvec
        ++ (to_le_bytes 8 cpu.mepc
            ++ (to_le_bytes 8 cpu.mcause ++ (to_le_bytes 8 cpu.mstatus ++ rest)))
unfolding csr_bytes word_bytes
csrs-split cpu rest =
    rw
      (
        append_nil (to_le_bytes 8 cpu.mstatus),
        append_assoc (to_le_bytes 8 cpu.mtvec),
        append_assoc (to_le_bytes 8 cpu.mepc),
        append_assoc (to_le_bytes 8 cpu.mcause),
      )
      refl

pub length-pages_from :
    (slots : List Page) (dir : List (ℕ × ℕ)) → length (pages_from slots dir) ≡ length dir
unfolding pages_from
length-pages_from slots [] = refl
length-pages_from slots ((k, s) ∷ dir) = ap suc (length-pages_from slots dir)

-- A list is as long as what is dropped of it and what is left, where something is.
length-drop : (n : ℕ) (xs : Bytes) → 0 < length (drop n xs) → length xs ≡ n + length (drop n xs)
length-drop zero xs h = omega arith
length-drop (suc n) [] h = absurd (omega arith)
length-drop (suc n) (x ∷ xs) h = omega (arith, length-drop n xs h)

long-enough : (n k : ℕ) → n ≡ 296 + k → 8 ≤ k → ltb n header_size ≡ false
long-enough n k e h = ground arith

restored_cpu-parts :
    (cpu : Cpu) (bytes : Bytes)
    → read_words 32 (drop 8 bytes) ≡ cpu.x
    → u64le bytes 264 ≡ cpu.pc
    → u64le bytes 272 ≡ cpu.mtvec
    → u64le bytes 280 ≡ cpu.mepc
    → u64le bytes 288 ≡ cpu.mcause
    → u64le bytes 296 ≡ cpu.mstatus
    → restored_cpu bytes ≡ record cpu { tohost = none }
unfolding restored_cpu
restored_cpu-parts cpu bytes x pc a b c d = rw (x, pc, a, b, c, d) refl

-- A snapshot's bytes in parts: the magic, the count, the registers, pc, the CSRs and the pages.
module _ (cpu : Cpu) (count : ℕ) (pages : Bytes) (v : IsCpu cpu) where
  abbrev pub csrs : Bytes
  csrs =
      to_le_bytes 8 cpu.mtvec
      ++ (to_le_bytes 8 cpu.mepc
          ++ (to_le_bytes 8 cpu.mcause ++ (to_le_bytes 8 cpu.mstatus ++ pages)))

  abbrev pub layout : Bytes
  layout = magic ++ (to_le_bytes 4 count ++ (word_bytes cpu.x ++ (to_le_bytes 8 cpu.pc ++ csrs)))

  pub at_magic : take 4 layout ≡ magic
  at_magic = refl

  at_words : drop 8 layout ≡ word_bytes cpu.x ++ (to_le_bytes 8 cpu.pc ++ csrs)
  at_words =
      advance 4 4 layout (to_le_bytes 4 count) _ (drop-part 4 magic _ refl)
        (length-to_le_bytes 4 count)

  at_pc : drop 264 layout ≡ to_le_bytes 8 cpu.pc ++ csrs
  at_pc =
      advance 8 256 layout (word_bytes cpu.x) _ at_words
        (length-word_bytes cpu.x ∙ ap (λ (n : ℕ). 8 * n) v.count)

  at_mtvec : drop 272 layout ≡ csrs
  at_mtvec = advance 264 8 layout _ _ at_pc (length-to_le_bytes 8 cpu.pc)

  at_mepc :
      drop 280 layout
      ≡ to_le_bytes 8 cpu.mepc ++ (to_le_bytes 8 cpu.mcause ++ (to_le_bytes 8 cpu.mstatus ++ pages))
  at_mepc = advance 272 8 layout _ _ at_mtvec (length-to_le_bytes 8 cpu.mtvec)

  at_mcause : drop 288 layout ≡ to_le_bytes 8 cpu.mcause ++ (to_le_bytes 8 cpu.mstatus ++ pages)
  at_mcause = advance 280 8 layout _ _ at_mepc (length-to_le_bytes 8 cpu.mepc)

  at_mstatus : drop 296 layout ≡ to_le_bytes 8 cpu.mstatus ++ pages
  at_mstatus = advance 288 8 layout _ _ at_mcause (length-to_le_bytes 8 cpu.mcause)

  pub at_pages : drop 304 layout ≡ pages
  at_pages = advance 296 8 layout _ _ at_mstatus (length-to_le_bytes 8 cpu.mstatus)

  pub restored_cpu-layout : restored_cpu layout ≡ record cpu { tohost = none }
  restored_cpu-layout =
      restored_cpu-parts cpu layout
        (ap (read_words 32) at_words
          ∙ (ap (λ (n : ℕ). read_words n (word_bytes cpu.x ++ (to_le_bytes 8 cpu.pc ++ csrs)))
                (sym v.count)
              ∙ read_words-word_bytes cpu.x (to_le_bytes 8 cpu.pc ++ csrs) v.words))
        (u64-at 264 cpu.pc layout _ at_pc v.pc_word)
        (u64-at 272 cpu.mtvec layout _ at_mtvec v.mtvec_word)
        (u64-at 280 cpu.mepc layout _ at_mepc v.mepc_word)
        (u64-at 288 cpu.mcause layout _ at_mcause v.mcause_word)
        (u64-at 296 cpu.mstatus layout _ at_mstatus v.mstatus_word)

  tail-long : 8 ≤ length (drop 296 layout)
  tail-long = rw at_mstatus (
      omega
        (arith, length-append (to_le_bytes 8 cpu.mstatus) pages, length-to_le_bytes 8 cpu.mstatus))

  pub not_short : ltb (length layout) header_size ≡ false
  not_short =
      long-enough (length layout) (length (drop 296 layout))
        (length-drop 296 layout (omega (arith, tail-long))) tail-long

  pub count_read : count < 2 ^ 32 → from_le_bytes (take 4 (drop 4 layout)) ≡ count
  count_read h =
      ap (λ (t : Bytes). from_le_bytes (take 4 t)) (drop-part 4 magic _ refl)
      ∙ from_le-part 4 count _ h
