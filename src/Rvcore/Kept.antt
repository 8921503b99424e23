-- ===== src/Rvcore/Kept.antt =====
-- The invariant of a machine, and the rules by which the arms of a step keep it.
use provework.Prelude.{
  ℕ, zero, suc, ◌+◌, ◌^◌, ◌<◌, ◌≤◌, List, [], ◌∷◌, Bool, true, false, ◌≡◌, refl, sym, ap, ◌∙◌,
  arith, if◌then◌else◌, length, take, All, IsByte, length-take, to_le_bytes, length-to_le_bytes,
  to_le_bytes-IsByte, from_le_bytes, from_le_bytes-lt, Result, ok, err, inl, inr, ◌⊎◌,
}
use provework.Rvcore.Cpu.{Cpu, IsCpu, set_reg-IsCpu}
use provework.Rvcore.Mem
use provework.Rvcore.Mem.{MemError, out_of_range, no_slot, addr_space, read_width}
use provework.Rvcore.Mem.Invariant.{IsMem}
use provework.Rvcore.Mem.Store.{write_lem}
use provework.Rvcore.Mem.Access.{
  AllBytes, AllBytes-Written, byte_at-SameBytes, read_lem, region, length-region,
}
use provework.Rvcore.Machine.{Machine, Outcome, done, trapped, Step, commit, trap_load, trap_store}
use provework.Rvcore.Interp.{load_into, store_from, extend_load}

pub record IsMachine (m : Machine) : Type 0 where
  pub cpu : IsCpu m.cpu
  pub mem : IsMem m.mem
  pub bytes : AllBytes m.mem

-- The step leaves a well-formed machine and takes at most eight page slots.
pub record Kept (m : Machine) (s : Step) : Type 0 where
  pub valid : IsMachine s.1
  pub grown : length s.1.mem.page_slots ≤ length m.mem.page_slots + 8

pub Kept-stay : (m : Machine) (o : Outcome) → IsMachine m → Kept m (o, m)
Kept-stay m o h = record { valid = h; grown = omega arith }

pub Kept-if :
    (m : Machine) (b : Bool) (s t : Step) → Kept m s → Kept m t → Kept m (if b then s else t)
Kept-if m true s t p q = p
Kept-if m false s t p q = q

pub pc-IsCpu : (cpu : Cpu) (pc : ℕ) → pc < 2 ^ 64 → IsCpu cpu → IsCpu (record cpu { pc = pc })
pc-IsCpu cpu pc h valid = record {
  count = valid.count;
  words = valid.words;
  x0 = valid.x0;
  pc_word = h;
  mtvec_word = valid.mtvec_word;
  mepc_word = valid.mepc_word;
  mcause_word = valid.mcause_word;
  mstatus_word = valid.mstatus_word;
}

pub Kept-jump :
    (m : Machine) (target : ℕ)
    → IsMachine m
    → target < 2 ^ 64
    → Kept m (done false, record m { cpu = record m.cpu { pc = target } })
Kept-jump m target h t = record {
  valid = record { cpu = pc-IsCpu m.cpu target t h.cpu; mem = h.mem; bytes = h.bytes };
  grown = omega arith;
}

pub Kept-commit :
    (m : Machine) (rd v next : ℕ)
    → IsMachine m
    → v < 2 ^ 64
    → next < 2 ^ 64
    → Kept m (commit m rd v next)
unfolding commit
Kept-commit m rd v next h fits t = record {
  valid = record {
    cpu = pc-IsCpu _ next t (set_reg-IsCpu m.cpu rd v fits h.cpu);
    mem = h.mem;
    bytes = h.bytes;
  };
  grown = omega arith;
}

-- A step from a machine that differs in its lookaside, or in registers, alone.
pub Kept-from :
    (m m' : Machine) (s : Step) → m'.mem.page_slots ≡ m.mem.page_slots → Kept m' s → Kept m s
Kept-from m m' s e k = record { valid = k.valid; grown = omega (arith, k.grown, ap length e) }

-- What a read answers: a value that fits its width, or a refusal, and the same bytes.
pub record Reads (m : Machine) (len : ℕ) (r : Result MemError ℕ × Mem.Mem) : Type 0 where
  pub valid : IsMachine (record m { mem = r.1 })
  pub slots_same : r.1.page_slots ≡ m.mem.page_slots
  pub fits : (v : ℕ) → r.0 ≡ ok v → v < 256 ^ len

region-IsByte : (m : Mem.Mem) → AllBytes m → (n a : ℕ) → All IsByte (region m n a)
unfolding region
region-IsByte m h zero a = tt
region-IsByte m h (suc n) a = (h a, region-IsByte m h n (a + 1))

ok_bound : (x : Result MemError ℕ) (v bound w : ℕ) → x ≡ ok w → x ≡ ok v → w < bound → v < bound
ok_bound x v bound w e q h = rw (← ok_same) h
  where
    got : Result MemError ℕ → ℕ
    got (ok n) = n
    got (err _) = 0

    ok_same : w ≡ v
    ok_same = ap got (sym e ∙ q)

from_le_bytes_within :
    (bs : List ℕ) (len : ℕ) → length bs ≡ len → All IsByte bs → from_le_bytes bs < 256 ^ len
from_le_bytes_within bs len e all = rw (← e) (from_le_bytes-lt bs all)

pub read-Reads : (m : Machine) (addr len : ℕ) → IsMachine m → Reads m len (Mem.read m.mem addr len)
read-Reads m addr len h = elim (in_or_out (read_width len) (addr + len)) [
  | inl (w, fits) ↦
      let (e, same, valid) = (read_lem m.mem addr len h.mem h.bytes).0 w fits in
      record {
        valid = record {
          cpu = h.cpu;
          mem = valid;
          bytes = λ a. rw (byte_at-SameBytes m.mem _ same a) (h.bytes a);
        };
        slots_same = same.slots_same;
        fits = λ v q. ok_bound _ v _ _ e q (bound m.mem h.bytes);
      }
  | inr bad ↦
      rw ((read_lem m.mem addr len h.mem h.bytes).1 bad)
        (record { valid = h; slots_same = refl; fits = λ v q. absurd cc })
]
  where
    in_or_out :
        (w : Bool) (e : ℕ) → ((w ≡ true) × (e ≤ addr_space)) ⊎ ((w ≡ false) ⊎ (addr_space < e))
    in_or_out w e = ground arith

    bound : (mem : Mem.Mem) → AllBytes mem → from_le_bytes (region mem len addr) < 256 ^ len
    bound mem all =
        from_le_bytes_within (region mem len addr) len (length-region mem len addr)
          (region-IsByte mem all len addr)

extend_load-lt :
    (len : ℕ) (sign : Bool) (v : ℕ)
    → read_width len ≡ true
    → v < 256 ^ len
    → extend_load len sign v < 2 ^ 64
extend_load-lt len sign v w h = elim (widths len w) [
  | inl e ↦ rw e (byte sign v (rw e at h))
  | inr (inl e) ↦ rw e (half sign v (rw e at h))
  | inr (inr (inl e)) ↦ rw e (word sign v (rw e at h))
  | inr (inr (inr e)) ↦ rw e (double sign v (rw e at h))
]
  where
    widths : (len : ℕ) → read_width len ≡ true → (len ≡ 1) ⊎ ((len ≡ 2) ⊎ ((len ≡ 4) ⊎ (len ≡ 8)))
    widths len e = ground arith

    byte : (sign : Bool) (v : ℕ) → v < 256 ^ 1 → extend_load 1 sign v < 2 ^ 64
    byte sign v h = ground arith

    half : (sign : Bool) (v : ℕ) → v < 256 ^ 2 → extend_load 2 sign v < 2 ^ 64
    half sign v h = ground arith

    word : (sign : Bool) (v : ℕ) → v < 256 ^ 4 → extend_load 4 sign v < 2 ^ 64
    word sign v h = ground arith

    double : (sign : Bool) (v : ℕ) → v < 256 ^ 8 → extend_load 8 sign v < 2 ^ 64
    double sign v h = ground arith

pub Kept-load_into :
    (m : Machine) (rd addr len : ℕ) (sign : Bool) (next : ℕ)
    → IsMachine m
    → read_width len ≡ true
    → next < 2 ^ 64
    → Kept m (load_into m rd addr len sign next)
unfolding load_into
Kept-load_into m rd addr len sign next h w t =
    answered (Mem.read m.mem addr len) (read-Reads m addr len h)
  where
    answered :
        (r : Result MemError ℕ × Mem.Mem)
        → Reads m len r
        → Kept m (elim r.0 [
          | ok v ↦ commit (record m { mem = r.1 }) rd (extend_load len sign v) next
          | err e ↦ (trapped (trap_load e addr), record m { mem = r.1 })
        ])
    answered (ok v, mem') reads =
        Kept-from m _ _ reads.slots_same
          (Kept-commit _ rd _ next reads.valid (extend_load-lt len sign v w (reads.fits v refl)) t)
    answered (err e, mem') reads = Kept-from m _ _ reads.slots_same (Kept-stay _ _ reads.valid)

All-take : (n : ℕ) (xs : List ℕ) → All IsByte xs → All IsByte (take n xs)
All-take zero xs h = tt
All-take (suc n) [] h = tt
All-take (suc n) (x ∷ xs) h = (h.0, All-take n xs h.1)

-- What a write of at most eight bytes answers, whether it is refused or not.
record Writes (m : Machine) (mem : Mem.Mem) : Type 0 where
  valid : IsMem mem
  bytes : AllBytes mem
  grown : length mem.page_slots ≤ length m.mem.page_slots + 8

write-Writes :
    (m : Machine) (addr : ℕ) (bytes : List ℕ)
    → IsMachine m
    → All IsByte bytes
    → length bytes ≤ 8
    → length m.mem.page_slots + 8 < no_slot
    → Writes m (Mem.write m.mem addr bytes).1
write-Writes m addr bytes h all short room = elim (fits_or_past (addr + length bytes)) [
  | inl fits ↦
      let w = ((write_lem m.mem addr bytes h.mem small).0 fits).1 in
      record {
        valid = w.valid;
        bytes = AllBytes-Written m.mem _ addr bytes h.bytes all w;
        grown = omega (arith, w.grown);
      }
  | inr past ↦
      rw ((write_lem m.mem addr bytes h.mem small).1 past)
        (record { valid = h.mem; bytes = h.bytes; grown = omega arith })
]
  where
    fits_or_past : (e : ℕ) → (e ≤ addr_space) ⊎ (addr_space < e)
    fits_or_past e = ground arith

    small : length m.mem.page_slots + length bytes < no_slot
    small = omega arith

pub Kept-store_from :
    (m : Machine) (val addr len next : ℕ)
    → IsMachine m
    → length m.mem.page_slots + 8 < no_slot
    → next < 2 ^ 64
    → Kept m (store_from m val addr len next)
unfolding store_from
Kept-store_from m val addr len next h room t =
    answered (Mem.write m.mem addr (take len (to_le_bytes 8 val))) (
      write-Writes m addr _ h (All-take len _ (to_le_bytes-IsByte 8 val))
        (omega (arith, length-take len (to_le_bytes 8 val), length-to_le_bytes 8 val)) room)
  where
    answered :
        (r : Result MemError Unit × Mem.Mem)
        → Writes m r.1
        → Kept m (elim r.0 [
          | ok _ ↦ (done false, record m { mem = r.1; cpu = record m.cpu { pc = next } })
          | err e ↦ (trapped (trap_store e addr), record m { mem = r.1 })
        ])
    answered (ok v, mem') w = record {
      valid = record { cpu = pc-IsCpu m.cpu next t h.cpu; mem = w.valid; bytes = w.bytes };
      grown = w.grown;
    }
    answered (err e, mem') w = record {
      valid = record { cpu = h.cpu; mem = w.valid; bytes = w.bytes };
      grown = w.grown;
    }
