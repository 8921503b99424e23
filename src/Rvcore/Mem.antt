-- ===== src/Rvcore/Mem.antt =====
-- crates/rvcore/src/mem.rs: the sparse paged memory, with the tagged lookaside in front of the page
-- directory. The directory is the sorted association list of the `BTreeMap`.
pub mod Directory
pub mod Invariant
pub mod Slots
pub mod Allocate
pub mod Store
pub mod Access
use provework.Prelude.{
  ℕ, zero, suc, ◌+◌, ◌-◌, ◌*◌, ◌/◌, ◌%◌, ◌^◌, ◌<◌, Option, none, some, List, [], ◌∷◌, ◌++◌,
  if◌then◌else◌, ◌==◌, ltb, leb, ◌&&◌, ◌||◌, not, Bool, bit_or, get_or, set, replicate, length,
  Result, ok, err, to_le_bytes,
}

abbrev pub page_size : ℕ
page_size = 4096

abbrev pub addr_space : ℕ
addr_space = 2 ^ 32

abbrev pub lookaside_slots : ℕ
lookaside_slots = 2048

abbrev pub no_slot : ℕ
no_slot = 2 ^ 32 - 1

abbrev pub no_page : ℕ
no_page = 2 ^ 32 - 1

pub data MemError : Type 0 where
  out_of_range : MemError

abbrev pub Page : Type 0
Page = List ℕ

pub record Mem : Type 0 where
  pub page_slots : List Page
  pub page_dir : List (ℕ × ℕ)
  pub lookaside : List (ℕ × ℕ)
  pub syscall_log : List ℕ

unfoldable pub empty_mem : Mem
empty_mem = record {
  page_slots = [];
  page_dir = [];
  lookaside = replicate lookaside_slots (no_page, no_slot);
  syscall_log = [];
}

-- `BTreeMap::get`
unfoldable pub dir_get : List (ℕ × ℕ) → ℕ → Option ℕ
dir_get [] page = none
dir_get ((k, s) ∷ dir) page = if k == page then some s else dir_get dir page

-- `BTreeMap::insert`
unfoldable pub dir_insert : ℕ → ℕ → List (ℕ × ℕ) → List (ℕ × ℕ)
dir_insert page slot [] = (page, slot) ∷ []
dir_insert page slot ((k, s) ∷ dir) =
    let behind = dir_insert page slot dir in
    if k == page
    then (page, slot) ∷ dir
    else if ltb page k
    then (page, slot) ∷ (k, s) ∷ dir
    else (k, s) ∷ behind

abbrev pub probe : Mem → ℕ → ℕ × ℕ
probe m page = get_or m.lookaside (page % lookaside_slots) (no_page, no_slot)

abbrev pub fill : Mem → ℕ → ℕ → Mem
fill m page slot = record m {
  lookaside = set m.lookaside (page % lookaside_slots) (page, slot % 2 ^ 32);
}

unfoldable pub slot_of : Mem → ℕ → Option ℕ × Mem
slot_of m page =
    let (tag, slot) = probe m page in
    if tag == page
    then (if slot == no_slot then none else some slot, m)
    else elim (dir_get m.page_dir page) [ none ↦ (none, m) | some s ↦ (some s, fill m page s) ]

unfoldable pub slot_of_ro : Mem → ℕ → Option ℕ
slot_of_ro m page =
    let (tag, slot) = probe m page in
    if tag == page then if slot == no_slot then none else some slot else dir_get m.page_dir page

-- A new slot at the end, entered in the directory.
abbrev pub allocate : Mem → ℕ → Page → Mem
allocate m page bytes = record m {
  page_slots = m.page_slots ++ bytes ∷ [];
  page_dir = dir_insert page (length m.page_slots) m.page_dir;
}

unfoldable pub slot_mut_or_alloc : Mem → ℕ → ℕ × Mem
slot_mut_or_alloc m page =
    let (tag, slot) = probe m page in
    if tag == page && not (slot == no_slot) then (slot, m) else elim (dir_get m.page_dir page) [
      | some s ↦ (s, fill m page s)
      | none ↦
          let s = length m.page_slots in (s, fill (allocate m page (replicate page_size 0)) page s)
    ]

-- A byte of a slot. Slots in use are in range, and pages have `page_size` bytes.
abbrev pub slot_byte : Mem → Option ℕ → ℕ → ℕ
slot_byte m none a = 0
slot_byte m (some s) a = get_or (get_or m.page_slots s []) (a % page_size) 0

-- The byte loop of `read` from index `i` on, with `left` bytes to go.
unfoldable pub read_loop : ℕ → ℕ → ℕ → ℕ → Mem → ℕ × Mem
unfolding slot_of
read_loop zero i addr val m = (val, m)
read_loop (suc left) i addr val m =
    let a = addr + i in
    let (slot, m') = slot_of m (a / page_size) in
    let b = slot_byte m' slot a in read_loop left (i + 1) addr (bit_or val (b * 2 ^ (8 * i))) m'

-- The bounds that `read`, `write` and `read_region` check: `checked_add`, then the pinned space.
abbrev pub in_bounds : ℕ → ℕ → Bool
in_bounds addr len = ltb (addr + len) (2 ^ 64) && leb (addr + len) addr_space

abbrev pub read_width : ℕ → Bool
read_width len = len == 1 || (len == 2 || (len == 4 || len == 8))

unfoldable pub read : Mem → ℕ → ℕ → Result MemError ℕ × Mem
unfolding read_loop
read m addr len =
    if read_width len
    then if in_bounds addr len
      then (let (val, m') = read_loop len 0 addr 0 m in (ok val, m'))
      else (err out_of_range, m)
    else (err out_of_range, m)

-- `self.page_slots[slot][offset] = b`
abbrev pub put_byte : Mem → ℕ → ℕ → ℕ → Mem
put_byte m slot offset b = record m {
  page_slots = set m.page_slots slot (set (get_or m.page_slots slot []) offset b);
}

unfoldable pub write_loop : List ℕ → ℕ → Mem → Mem
unfolding slot_mut_or_alloc
write_loop [] a m = m
write_loop (b ∷ bytes) a m =
    let (slot, m') = slot_mut_or_alloc m (a / page_size) in
    write_loop bytes (a + 1) (put_byte m' slot (a % page_size) b)

unfoldable pub write : Mem → ℕ → List ℕ → Result MemError (Unit {0}) × Mem
unfolding write_loop
write m addr bytes =
    if in_bounds addr (length bytes)
    then (ok tt, write_loop bytes addr m)
    else (err out_of_range, m)

unfoldable pub load_image : Mem → ℕ → List ℕ → Result MemError (Unit {0}) × Mem
unfolding write
load_image m base bytes = write m base bytes

region_loop : ℕ → ℕ → Mem → List ℕ
unfolding slot_of_ro
region_loop zero a m = []
region_loop (suc left) a m =
    slot_byte m (slot_of_ro m (a / page_size)) a ∷ region_loop left (a + 1) m

unfoldable pub read_region : Mem → ℕ → ℕ → Result MemError (List ℕ)
unfolding region_loop
read_region m addr len =
    if in_bounds addr len then ok (region_loop len addr m) else err out_of_range

unfoldable pub allocated_pages : Mem → ℕ
allocated_pages m = length m.page_dir

-- The allocated pages in the directory's order.
unfoldable pub pages_from : List Page → List (ℕ × ℕ) → List (ℕ × Page)
pages_from slots [] = []
pages_from slots ((k, s) ∷ dir) = (k, get_or slots s []) ∷ pages_from slots dir

unfoldable pub page_iter : Mem → List (ℕ × Page)
unfolding pages_from
page_iter m = pages_from m.page_slots m.page_dir

-- A page put in place whole, as a snapshot is restored; the lookaside entry is cleared.
unfoldable pub insert_page : Mem → ℕ → Page → Mem
unfolding dir_get dir_insert
insert_page m idx page =
    let cleared = set m.lookaside (idx % lookaside_slots) (no_page, no_slot) in
    elim (dir_get m.page_dir idx) [
      | some s ↦ record m { page_slots = set m.page_slots s page; lookaside = cleared }
      | none ↦ record m {
        page_slots = m.page_slots ++ page ∷ [];
        page_dir = dir_insert idx (length m.page_slots) m.page_dir;
        lookaside = cleared;
      }
    ]
