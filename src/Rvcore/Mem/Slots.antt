-- ===== src/Rvcore/Mem/Slots.antt =====
-- The lookaside is invisible: a probe answers what the directory says, and only fills the lookaside.
use mathlib.Core.Path.{subst}
use native.Mathlib.Decide.{ℕ_discrete}
use provework.Prelude.{
  ℕ, ◌%◌, ◌^◌, ◌<◌, some, true, ◌≡◌, ◌≢◌, refl, ap, sym, ◌∙◌, arith, ◌==◌, ==_iff, get_or,
  length-set, get_or-set_self, get_or-set_ne, Bool-cases, Option-cases, inl, inr, ◌⊎◌,
}
use provework.Rvcore.Mem.{
  Mem, lookaside_slots, no_slot, no_page, probe, fill, dir_get, slot_of, slot_of_ro,
}
use provework.Rvcore.Mem.Invariant.{IsMem}

-- The same memory but for the lookaside.
pub record SameBytes (m m' : Mem) : Type 0 where
  pub slots_same : m'.page_slots ≡ m.page_slots
  pub dir_same : m'.page_dir ≡ m.page_dir
  pub log_same : m'.syscall_log ≡ m.syscall_log

pub SameBytes-refl : (m : Mem) → SameBytes m m
SameBytes-refl m = record { slots_same = refl; dir_same = refl; log_same = refl }

pub SameBytes-trans : (a b c : Mem) → SameBytes a b → SameBytes b c → SameBytes a c
SameBytes-trans a b c p q = record {
  slots_same = q.slots_same ∙ p.slots_same;
  dir_same = q.dir_same ∙ p.dir_same;
  log_same = q.log_same ∙ p.log_same;
}

module _ (m : Mem) (page : ℕ) (ok : IsMem m) where
  fill-cached :
      (s : ℕ)
      → dir_get m.page_dir page ≡ some s
      → (i : ℕ)
      → ((get_or (fill m page s).lookaside i (no_page, no_slot) ≡ (no_page, no_slot)))
        ⊎ (dir_get m.page_dir (get_or (fill m page s).lookaside i (no_page, no_slot)).0
            ≡ some (get_or (fill m page s).lookaside i (no_page, no_slot)).1)
  fill-cached s e i = elim (ℕ_discrete (page % lookaside_slots) i) [
    | yes same ↦ inr (
        rw (← same) (
          rw
            (get_or-set_self m.lookaside (page % lookaside_slots) (page, s % 2 ^ 32)
              (no_page, no_slot) (rw ok.slots (omega arith)))
            (e ∙ ap some (omega (arith, ok.few, ok.in_use page s e)))))
    | no other ↦
        rw
          (get_or-set_ne m.lookaside (page % lookaside_slots) i (page, s % 2 ^ 32)
            (no_page, no_slot) other)
          (ok.cached i)
  ]

  pub fill-IsMem : (s : ℕ) → dir_get m.page_dir page ≡ some s → IsMem (fill m page s)
  fill-IsMem s e = record {
    ascending = ok.ascending;
    in_use = ok.in_use;
    apart = ok.apart;
    sized = ok.sized;
    few = ok.few;
    slots = length-set m.lookaside (page % lookaside_slots) (page, s % 2 ^ 32) ∙ ok.slots;
    cached = fill-cached s e;
  }

  -- A hit in the lookaside is the directory's slot.
  pub probe_hit :
      page ≢ no_page
      → ((probe m page).0 == page) ≡ true
      → (dir_get m.page_dir page ≡ some (probe m page).1) × ((probe m page).1 < no_slot)
  probe_hit real hit = elim (ok.cached (page % lookaside_slots)) [
    | inl empty ↦ absurd (real (sym ((==_iff _ page).0 hit) ∙ ap (λ (x : ℕ × ℕ). x.0) empty))
    | inr entry ↦
        let e : dir_get m.page_dir page ≡ some (probe m page).1 =
          subst (λ t. dir_get m.page_dir t ≡ some (probe m page).1) ((==_iff _ page).0 hit) entry in
        (e, omega (arith, ok.few, ok.in_use page _ e))
  ]

  pub slot_of_lem :
      page ≢ no_page
      → (slot_of m page ≡ (dir_get m.page_dir page, m))
        ⊎ ((s : ℕ) × (dir_get m.page_dir page ≡ some s)
            × (slot_of m page ≡ (some s, fill m page s)))
  unfolding slot_of
  slot_of_lem real = elim (Bool-cases ((probe m page).0 == page)) [
    | inl hit ↦ inl (ground (arith, probe_hit real hit))
    | inr miss ↦ elim (Option-cases (dir_get m.page_dir page)) [
      | inl nothing ↦ inl (ground (arith, nothing))
      | inr (s, found) ↦ inr (s, found, ground (arith, found))
    ]
  ]

  pub slot_of_keeps : page ≢ no_page → SameBytes m (slot_of m page).1 × IsMem (slot_of m page).1
  slot_of_keeps real = elim (slot_of_lem real) [
    | inl e ↦ rw e (SameBytes-refl m, ok)
    | inr (s, found, e) ↦
        rw e (record { slots_same = refl; dir_same = refl; log_same = refl }, fill-IsMem s found)
  ]

  pub slot_of-dir_get : page ≢ no_page → (slot_of m page).0 ≡ dir_get m.page_dir page
  slot_of-dir_get real = elim (slot_of_lem real) [
    | inl e ↦ rw e refl
    | inr (s, found, e) ↦ rw (e, found) refl
  ]

  pub slot_of_ro-dir_get : page ≢ no_page → slot_of_ro m page ≡ dir_get m.page_dir page
  unfolding slot_of_ro
  slot_of_ro-dir_get real = elim (Bool-cases ((probe m page).0 == page)) [
    | inl hit ↦ ground (arith, probe_hit real hit)
    | inr miss ↦ ground arith
  ]
