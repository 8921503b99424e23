-- ===== src/Rvcore/Mem/Store.antt =====
-- `write`: exactly the addressed bytes change, whatever pages it has to allocate.
use native.Mathlib.Decide.{ℕ_discrete}
use provework.Prelude.{
  ℕ, suc, ◌+◌, ◌-◌, ◌/◌, ◌%◌, ◌<◌, ◌≤◌, some, List, [], ◌∷◌, true, false, ◌≡◌, ◌≢◌, refl, ap, sym,
  ◌∙◌, arith, if◌then◌else◌, ◌==◌, ltb, leb, ◌&&◌, get_or, set, length, length-set, get_or-set_self,
  get_or-set_ne, Option-cases, inl, inr, ok, err,
}
use provework.Rvcore.Mem.{
  Mem, Page, page_size, no_slot, put_byte, dir_get, slot_mut_or_alloc, write_loop, write, in_bounds,
  out_of_range, addr_space,
}
use provework.Rvcore.Mem.Invariant.{IsMem, byte_at}
use provework.Rvcore.Mem.Allocate.{Allocated, slot_mut_or_alloc-Allocated}

module _ (m : Mem) (a s b : ℕ) (valid : IsMem m)
    (there : dir_get m.page_dir (a / page_size) ≡ some s) where
  put_byte-IsMem : IsMem (put_byte m s (a % page_size) b)
  put_byte-IsMem = record {
    ascending = valid.ascending;
    in_use = λ p t e. rw (length-set m.page_slots s new) (valid.in_use p t e);
    apart = valid.apart;
    sized = λ t h. elim (ℕ_discrete s t) [
      | yes same ↦ rw (← same) (
          rw (get_or-set_self m.page_slots s new [] used)
            (length-set (get_or m.page_slots s []) (a % page_size) b ∙ valid.sized s used))
      | no other ↦
          rw (get_or-set_ne m.page_slots s t new [] other)
            (valid.sized t (rw (length-set m.page_slots s new) at h))
    ];
    few = rw (length-set m.page_slots s new) valid.few;
    slots = valid.slots;
    cached = valid.cached;
  }
    where
      new : Page
      new = set (get_or m.page_slots s []) (a % page_size) b

      used : s < length m.page_slots
      used = valid.in_use _ s there

  byte_at-put_byte :
      (c : ℕ) → byte_at (put_byte m s (a % page_size) b) c ≡ (if a == c then b else byte_at m c)
  byte_at-put_byte c = elim (ℕ_discrete a c) [
    | yes same ↦
        rw (← same) (rw there (rw (get_or-set_self m.page_slots s new [] used) (hit ∙ self _)))
    | no other ↦ elim (Option-cases (dir_get m.page_dir (c / page_size))) [
      | inl nothing ↦ rw nothing (ground arith)
      | inr (t, found) ↦ rw found (elim (ℕ_discrete s t) [
        | no apart ↦ rw (get_or-set_ne m.page_slots s t new [] apart) (miss _ other)
        | yes same ↦ rw (← same) (
            rw (get_or-set_self m.page_slots s new [] used) (
              rw
                (get_or-set_ne (get_or m.page_slots s []) (a % page_size) (c % page_size) b 0
                  (offsets other (valid.apart _ _ s there (found ∙ ap some (sym same)))))
                (miss _ other)))
      ])
    ]
  ]
    where
      new : Page
      new = set (get_or m.page_slots s []) (a % page_size) b

      used : s < length m.page_slots
      used = valid.in_use _ s there

      hit : get_or new (a % page_size) 0 ≡ b
      hit =
          get_or-set_self (get_or m.page_slots s []) (a % page_size) b 0
            (rw (valid.sized s used) (omega arith))

      self : (x : ℕ) → b ≡ (if a == a then b else x)
      self x = ground arith

      miss : (x : ℕ) → a ≢ c → x ≡ (if a == c then b else x)
      miss x h = ground arith

      offsets : a ≢ c → a / page_size ≡ c / page_size → a % page_size ≢ c % page_size
      offsets h e = omega arith

-- The bytes that a write puts at an address.
abbrev pub written : Mem → List ℕ → ℕ → ℕ → ℕ
written m bytes addr a =
    if leb addr a && ltb a (addr + length bytes) then get_or bytes (a - addr) 0 else byte_at m a

-- What a write leaves.
pub record Written (m : Mem) (addr : ℕ) (bytes : List ℕ) (m' : Mem) : Type 0 where
  pub valid : IsMem m'
  pub bytes_after : (a : ℕ) → byte_at m' a ≡ written m bytes addr a
  pub grown : length m'.page_slots ≤ length m.page_slots + length bytes
  pub log_same : m'.syscall_log ≡ m.syscall_log

get_or-here : (b : ℕ) (bytes : List ℕ) (addr a : ℕ) → addr ≡ a → get_or (b ∷ bytes) (a - addr) 0 ≡ b
get_or-here b bytes addr a e =
    ap (λ (i : ℕ). get_or (b ∷ bytes) i 0) (let z : a - addr ≡ 0 = omega arith in z)

get_or-there :
    (b : ℕ) (bytes : List ℕ) (addr a : ℕ)
    → addr < a
    → get_or (b ∷ bytes) (a - addr) 0 ≡ get_or bytes (a - (addr + 1)) 0
get_or-there b bytes addr a h =
    ap (λ (i : ℕ). get_or (b ∷ bytes) i 0)
      (let z : a - addr ≡ suc (a - (addr + 1)) = omega arith in z)

-- One byte written before the rest, over what stood there.
written_step :
    (x y b : ℕ) (bytes : List ℕ) (addr a : ℕ)
    → x ≡ (if addr == a then b else y)
    → (if leb (addr + 1) a && ltb a (addr + 1 + length bytes)
        then get_or bytes (a - (addr + 1)) 0
        else x)
      ≡ (if leb addr a && ltb a (addr + suc (length bytes))
          then get_or (b ∷ bytes) (a - addr) 0
          else y)
written_step x y b bytes addr a e =
    ground (arith, get_or-here b bytes addr a, get_or-there b bytes addr a)

pub write_loop-Written :
    (bytes : List ℕ) (addr : ℕ) (m : Mem)
    → IsMem m
    → addr + length bytes ≤ addr_space
    → length m.page_slots + length bytes < no_slot
    → Written m addr bytes (write_loop bytes addr m)
unfolding write_loop
write_loop-Written [] addr m valid fits room = record {
  valid = valid;
  bytes_after = λ a. ground arith;
  grown = omega arith;
  log_same = refl;
}
write_loop-Written (b ∷ bytes) addr m valid fits room =
    let al : Allocated m (addr / page_size) valid (slot_mut_or_alloc m (addr / page_size)).0
        (slot_mut_or_alloc m (addr / page_size)).1 =
      slot_mut_or_alloc-Allocated m (addr / page_size) valid (λ e. absurd (omega arith))
        (omega arith) in
    let ih : Written
        (put_byte (slot_mut_or_alloc m (addr / page_size)).1
          (slot_mut_or_alloc m (addr / page_size)).0 (addr % page_size) b)
        (addr + 1) bytes (write_loop (b ∷ bytes) addr m) =
      write_loop-Written bytes (addr + 1) _ (put_byte-IsMem _ addr _ b al.valid al.there)
        (omega arith) (rw (length-set _ _ _) (omega (arith, al.grown))) in
    record {
      valid = ih.valid;
      bytes_after = λ a.
          ih.bytes_after a
          ∙ written_step _ (byte_at m a) b bytes addr a
              (byte_at-put_byte _ addr _ b al.valid al.there a ∙ rw (al.bytes_same a) refl);
      grown = omega (
        arith,
        ih.grown,
        al.grown,
        length-set (slot_mut_or_alloc m (addr / page_size)).1.page_slots
            (slot_mut_or_alloc m (addr / page_size)).0 _,
      );
      log_same = ih.log_same ∙ al.log_same;
    }

-- On a well-formed memory with room for its pages, a write inside the pinned space succeeds,
-- changes the addressed bytes and no others, and keeps the memory well formed; a write that ends
-- past the bound is refused and leaves the memory as it was.
pub write_lem :
    (m : Mem) (addr : ℕ) (bytes : List ℕ)
    → IsMem m
    → length m.page_slots + length bytes < no_slot
    → (addr + length bytes ≤ addr_space
        → ((write m addr bytes).0 ≡ ok tt) × Written m addr bytes (write m addr bytes).1)
      × (addr_space < addr + length bytes → write m addr bytes ≡ (err out_of_range, m))
write_lem m addr bytes valid room = (
  λ fits.
      (rw (inside fits) refl, rw (inside fits) (write_loop-Written bytes addr m valid fits room)),
  λ past. unfold write in rw (bounds_past past) refl,
)
  where
    bounds_in : addr + length bytes ≤ addr_space → in_bounds addr (length bytes) ≡ true
    bounds_in h = ground arith

    bounds_past : addr_space < addr + length bytes → in_bounds addr (length bytes) ≡ false
    bounds_past h = ground arith

    inside :
        addr + length bytes ≤ addr_space → write m addr bytes ≡ (ok tt, write_loop bytes addr m)
    inside h = unfold write in rw (bounds_in h) refl
