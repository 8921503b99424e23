-- ===== src/Rvcore/Mem/Invariant.antt =====
-- What every operation keeps of a memory, and the byte map that it stands for.
use provework.Prelude.{ℕ, ◌/◌, ◌<◌, some, [], ◌≡◌, ◌⊎◌, get_or, length}
use provework.Rvcore.Mem.{Mem, page_size, lookaside_slots, no_slot, no_page, dir_get, slot_byte}
use provework.Rvcore.Mem.Directory.{Ascending}

pub record IsMem (m : Mem) : Type 0 where
  -- The directory is in key order, names slots that exist, and no slot twice.
  pub ascending : Ascending m.page_dir
  pub in_use : (p s : ℕ) → dir_get m.page_dir p ≡ some s → s < length m.page_slots
  pub apart : (p q s : ℕ) → dir_get m.page_dir p ≡ some s → dir_get m.page_dir q ≡ some s → p ≡ q
  pub sized : (s : ℕ) → s < length m.page_slots → length (get_or m.page_slots s []) ≡ page_size
  -- Slots are below the mark for "no slot", so the cast to `u32` loses nothing.
  pub few : length m.page_slots < no_slot
  -- A lookaside entry is empty, or is what the directory says.
  pub slots : length m.lookaside ≡ lookaside_slots
  pub cached :
      (i : ℕ)
      → ((get_or m.lookaside i (no_page, no_slot) ≡ (no_page, no_slot)))
        ⊎ (dir_get m.page_dir (get_or m.lookaside i (no_page, no_slot)).0
            ≡ some (get_or m.lookaside i (no_page, no_slot)).1)

-- The byte at an address; a page that is not allocated reads as zeros.
abbrev pub byte_at : Mem → ℕ → ℕ
byte_at m a = slot_byte m (dir_get m.page_dir (a / page_size)) a
