-- ===== src/Rvcore/Mem/Access.antt =====
-- `read` and `read_region`: the little-endian value and the bytes that the byte map holds.
use provework.Prelude.{
  ℕ, zero, suc, ◌+◌, ◌-◌, ◌*◌, ◌/◌, ◌^◌, ◌<◌, ◌≤◌, Option, none, some, List, [], ◌∷◌, true, false,
  ◌≡◌, ◌≢◌, refl, ap, ◌∙◌, ◌⊎◌, inl, inr, arith, get_or, length, IsByte, All, bit_or, bit_or_fields,
  ok, err, from_le_bytes,
}
use native.Mathlib.Numerals.{towards_suc}
use provework.Rvcore.Mem.{
  Mem, page_size, no_page, no_slot, addr_space, slot_byte, dir_get, slot_of, read_loop, read,
  read_width, in_bounds, out_of_range, read_region, region_loop, write,
}
use provework.Rvcore.Mem.Invariant.{IsMem, byte_at}
use provework.Rvcore.Mem.Slots.{
  SameBytes, SameBytes-refl, SameBytes-trans, slot_of_keeps, slot_of-dir_get, slot_of_ro-dir_get,
}
use provework.Rvcore.Mem.Store.{Written, write_lem}

-- The bytes of the map from an address on.
unfoldable pub region : Mem → ℕ → ℕ → List ℕ
region m zero a = []
region m (suc n) a = byte_at m a ∷ region m n (a + 1)

abbrev pub AllBytes : Mem → Type 0
AllBytes m = (a : ℕ) → IsByte (byte_at m a)

pub length-region : (m : Mem) (n a : ℕ) → length (region m n a) ≡ n
unfolding region
length-region m zero a = refl
length-region m (suc n) a = ap suc (length-region m n (a + 1))

slot_byte-SameBytes :
    (m m' : Mem) → SameBytes m m' → (o : Option ℕ) (a : ℕ) → slot_byte m' o a ≡ slot_byte m o a
slot_byte-SameBytes m m' h none a = refl
slot_byte-SameBytes m m' h (some s) a = rw h.slots_same refl

pub byte_at-SameBytes : (m m' : Mem) → SameBytes m m' → (a : ℕ) → byte_at m' a ≡ byte_at m a
byte_at-SameBytes m m' h a = rw (h.dir_same, h.slots_same) refl

region-SameBytes : (m m' : Mem) → SameBytes m m' → (n a : ℕ) → region m' n a ≡ region m n a
unfolding region
region-SameBytes m m' h zero a = refl
region-SameBytes m m' h (suc n) a =
    rw (byte_at-SameBytes m m' h a, region-SameBytes m m' h n (a + 1)) refl

byte_shift : (i : ℕ) → 2 ^ (8 * (i + 1)) ≡ 256 * 2 ^ (8 * i)
byte_shift i =
    ap (λ (t : ℕ). 2 ^ t) (let e : 8 * (i + 1) ≡ 8 * i + 8 = omega arith in e)
    ∙ simp towards_suc (omega arith)

-- One more byte above the value so far still fits.
byte_fits : (i v b : ℕ) → v < 2 ^ (8 * i) → b < 256 → v + b * 2 ^ (8 * i) < 2 ^ (8 * (i + 1))
byte_fits i v b h g = rw (byte_shift i) (grind arith)

-- What a read leaves: the value, and a memory that differs in the lookaside alone.
pub record Loaded (m : Mem) (v : ℕ) (r : ℕ × Mem) : Type 0 where
  pub value : r.0 ≡ v
  pub same : SameBytes m r.1
  pub valid : IsMem r.1

-- The memory and the value after one round of the loop.
module _ (i addr val : ℕ) (m : Mem) (valid : IsMem m) (fits : addr + i < addr_space)
    (small : val < 2 ^ (8 * i)) where
  abbrev next_mem : Mem
  next_mem = (slot_of m ((addr + i) / page_size)).1

  abbrev next_val : ℕ
  next_val =
      bit_or val
        (slot_byte next_mem (slot_of m ((addr + i) / page_size)).0 (addr + i) * 2 ^ (8 * i))

  next_real : (addr + i) / page_size ≢ no_page
  next_real e = omega arith

  next_keeps : SameBytes m next_mem × IsMem next_mem
  next_keeps = slot_of_keeps m ((addr + i) / page_size) valid next_real

  next_joined : next_val ≡ val + byte_at m (addr + i) * 2 ^ (8 * i)
  next_joined = rw (slot_of-dir_get m ((addr + i) / page_size) valid next_real) (
      rw
        (slot_byte-SameBytes m next_mem next_keeps.0 (dir_get m.page_dir ((addr + i) / page_size))
          (addr + i))
        (bit_or_fields (8 * i) val (byte_at m (addr + i)) small))

  -- The bytes behind the first, and the first, are the bytes from the first on.
  next_total :
      (left : ℕ)
      → next_val + from_le_bytes (region next_mem left (addr + (i + 1))) * 2 ^ (8 * (i + 1))
        ≡ val + from_le_bytes (region m (suc left) (addr + i)) * 2 ^ (8 * i)
  unfolding region from_le_bytes
  next_total left =
      rw
        (
          next_joined,
          next_addr,
          region-SameBytes m next_mem next_keeps.0 left (addr + i + 1),
          byte_shift i,
        )
        (regroup (byte_at m (addr + i)) (from_le_bytes (region m left (addr + i + 1)))
          (2 ^ (8 * i)))
    where
      next_addr : addr + (i + 1) ≡ addr + i + 1
      next_addr = omega arith

      regroup : (b r p : ℕ) → val + b * p + r * (256 * p) ≡ val + (b + 256 * r) * p
      regroup b r p = omega arith

read_loop-Loaded :
    (left i addr val : ℕ) (m : Mem)
    → IsMem m
    → AllBytes m
    → addr + i + left ≤ addr_space
    → val < 2 ^ (8 * i)
    → Loaded m
        (val + from_le_bytes (region m left (addr + i)) * 2 ^ (8 * i))
        (read_loop left i addr val m)
unfolding read_loop
read_loop-Loaded zero i addr val m valid bytes fits small = record {
  value = unfold region from_le_bytes in omega arith;
  same = SameBytes-refl m;
  valid = valid;
}
read_loop-Loaded (suc left) i addr val m valid bytes fits small =
    let here : addr + i < addr_space = omega arith in
    let keeps : SameBytes m (next_mem i addr val m valid here small)
        × IsMem (next_mem i addr val m valid here small) =
      next_keeps i addr val m valid here small in
    let ih : Loaded (next_mem i addr val m valid here small)
        (next_val i addr val m valid here small
          + from_le_bytes (region (next_mem i addr val m valid here small) left (addr + (i + 1)))
            * 2 ^ (8 * (i + 1)))
        (read_loop (suc left) i addr val m) =
      read_loop-Loaded left (i + 1) addr _ (next_mem i addr val m valid here small) keeps.1
        (λ c. rw (byte_at-SameBytes m _ keeps.0 c) (bytes c)) (omega arith)
        (rw (next_joined i addr val m valid here small)
          (byte_fits i val (byte_at m (addr + i)) small (bytes (addr + i)))) in
    record {
      value = ih.value ∙ next_total i addr val m valid here small left;
      same = SameBytes-trans m _ _ keeps.0 ih.same;
      valid = ih.valid;
    }

-- On a well-formed memory of bytes, a read of 1, 2, 4 or 8 bytes inside the pinned space is the
-- little-endian value of the bytes at those addresses, aligned or not and across pages, and
-- leaves a well-formed memory with the same bytes; any other width or range is refused with the
-- memory as it was.
pub read_lem :
    (m : Mem) (addr len : ℕ)
    → IsMem m
    → AllBytes m
    → (read_width len ≡ true
        → addr + len ≤ addr_space
        → ((read m addr len).0 ≡ ok (from_le_bytes (region m len addr)))
          × SameBytes m (read m addr len).1
          × IsMem (read m addr len).1)
      × ((read_width len ≡ false) ⊎ (addr_space < addr + len)
          → read m addr len ≡ (err out_of_range, m))
read_lem m addr len valid bytes =
    (λ width fits. loaded width fits, λ bad. unfold read in refused bad)
  where
    bounds : addr + len ≤ addr_space → in_bounds addr len ≡ true
    bounds h = ground arith

    beyond : addr_space < addr + len → in_bounds addr len ≡ false
    beyond h = ground arith

    plain : (x : ℕ) → 0 + x * 2 ^ (8 * 0) ≡ x
    plain x = omega arith

    looped :
        addr + len ≤ addr_space
        → Loaded m
            (0 + from_le_bytes (region m len (addr + 0)) * 2 ^ (8 * 0))
            (read_loop len 0 addr 0 m)
    looped h = read_loop-Loaded len 0 addr 0 m valid bytes (omega arith) (omega arith)

    value :
        addr + len ≤ addr_space → (read_loop len 0 addr 0 m).0 ≡ from_le_bytes (region m len addr)
    value h =
        (looped h).value
        ∙ (plain _
            ∙ ap (λ (t : ℕ). from_le_bytes (region m len t))
                (let e : addr + 0 ≡ addr = omega arith in e))

    eq :
        read_width len ≡ true
        → addr + len ≤ addr_space
        → read m addr len ≡ (ok (read_loop len 0 addr 0 m).0, (read_loop len 0 addr 0 m).1)
    eq w h = unfold read in rw (w, bounds h) refl

    loaded :
        read_width len ≡ true
        → addr + len ≤ addr_space
        → ((read m addr len).0 ≡ ok (from_le_bytes (region m len addr)))
          × SameBytes m (read m addr len).1
          × IsMem (read m addr len).1
    loaded w h = rw (eq w h) (ap ok (value h), (looped h).same, (looped h).valid)

    refused :
        (read_width len ≡ false) ⊎ (addr_space < addr + len)
        → read m addr len ≡ (err out_of_range, m)
    refused (inl w) = unfold read in rw w refl
    refused (inr h) = unfold read in rw (beyond h) (ground arith)

region_loop-region :
    (m : Mem) → IsMem m → (n a : ℕ) → a + n ≤ addr_space → region_loop n a m ≡ region m n a
unfolding region_loop region
region_loop-region m valid zero a h = refl
region_loop-region m valid (suc n) a h =
    rw (slot_of_ro-dir_get m (a / page_size) valid (λ e. absurd (omega arith)))
      (ap (λ (t : List ℕ). byte_at m a ∷ t) (region_loop-region m valid n (a + 1) (omega arith)))

-- On a well-formed memory, `read_region` answers the bytes of a range inside the pinned space,
-- and refuses a range that ends past it.
pub read_region_lem :
    (m : Mem) (addr len : ℕ)
    → IsMem m
    → (addr + len ≤ addr_space → read_region m addr len ≡ ok (region m len addr))
      × (addr_space < addr + len → read_region m addr len ≡ err out_of_range)
read_region_lem m addr len valid = (
  λ h. unfold read_region in rw (bounds h) (ap ok (region_loop-region m valid len addr h)),
  λ h. unfold read_region in rw (beyond h) refl,
)
  where
    bounds : addr + len ≤ addr_space → in_bounds addr len ≡ true
    bounds h = ground arith

    beyond : addr_space < addr + len → in_bounds addr len ≡ false
    beyond h = ground arith

pub AllBytes-Written :
    (m m' : Mem) (addr : ℕ) (bytes : List ℕ)
    → AllBytes m
    → All IsByte bytes
    → Written m addr bytes m'
    → AllBytes m'
AllBytes-Written m m' addr bytes h all w a =
    rw (w.bytes_after a) (ground (arith, h a, get_or-IsByte bytes (a - addr) all))
  where
    get_or-IsByte : (xs : List ℕ) (i : ℕ) → All IsByte xs → get_or xs i 0 < 256
    get_or-IsByte [] i h = omega arith
    get_or-IsByte (x ∷ xs) zero h = h.0
    get_or-IsByte (x ∷ xs) (suc i) h = get_or-IsByte xs i h.1

region_pointwise :
    (m : Mem) (xs : List ℕ) (a : ℕ)
    → ((i : ℕ) → i < length xs → byte_at m (a + i) ≡ get_or xs i 0)
    → region m (length xs) a ≡ xs
unfolding region
region_pointwise m [] a h = refl
region_pointwise m (x ∷ xs) a h =
    rw (region_pointwise m xs (a + 1) (λ i lt. shift i ∙ h (suc i) (omega arith)))
      (ap (λ (t : ℕ). t ∷ xs) (here ∙ h 0 (omega arith)))
  where
    here : byte_at m a ≡ byte_at m (a + 0)
    here = ap (λ (t : ℕ). byte_at m t) (let e : a ≡ a + 0 = omega arith in e)

    shift : (i : ℕ) → byte_at m (a + 1 + i) ≡ byte_at m (a + suc i)
    shift i = ap (λ (t : ℕ). byte_at m t) (let e : a + 1 + i ≡ a + suc i = omega arith in e)

region-Written_self :
    (m m' : Mem) (addr : ℕ) (bytes : List ℕ)
    → Written m addr bytes m'
    → region m' (length bytes) addr ≡ bytes
region-Written_self m m' addr bytes w = region_pointwise m' bytes addr at
  where
    at : (i : ℕ) → i < length bytes → byte_at m' (addr + i) ≡ get_or bytes i 0
    at i h =
        w.bytes_after (addr + i)
        ∙ ground (
          arith,
          ap (λ (t : ℕ). get_or bytes t 0) (let e : addr + i - addr ≡ i = omega arith in e),
        )

-- What was written is read back: on a well-formed memory of bytes with room for the pages of the
-- store, a store of 1, 2, 4 or 8 bytes in range and a load of as many from the same address give
-- the stored value, whatever the alignment and the state of the lookaside.
pub read-write :
    (m : Mem) (addr : ℕ) (bytes : List ℕ)
    → IsMem m
    → AllBytes m
    → All IsByte bytes
    → read_width (length bytes) ≡ true
    → addr + length bytes ≤ addr_space
    → length m.page_slots + length bytes < no_slot
    → (read (write m addr bytes).1 addr (length bytes)).0 ≡ ok (from_le_bytes bytes)
read-write m addr bytes valid byte all width fits room =
    (((read_lem m' addr (length bytes) w.valid (AllBytes-Written m m' addr bytes byte all w)).0
      width fits).0)
    ∙ ap (λ (t : List ℕ). ok (from_le_bytes t)) (region-Written_self m m' addr bytes w)
  where
    m' : Mem
    m' = (write m addr bytes).1

    w : Written m addr bytes m'
    w = ((write_lem m addr bytes valid room).0 fits).1
