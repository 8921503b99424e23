-- ===== src/Rvcore/Mem/Allocate.antt =====
-- `slot_mut_or_alloc`: a new page reads as the zeros that it had before.
use native.Mathlib.Decide.{ℕ_discrete}
use provework.Prelude.{
  ℕ, suc, ◌+◌, ◌/◌, ◌%◌, ◌<◌, ◌≤◌, Option, none, some, [], ◌∷◌, true, false, ◌≡◌, ◌≢◌, refl, ap,
  sym, ◌∙◌, arith, if◌then◌else◌, ◌==◌, ◌&&◌, not, get_or, length, length-append, length-replicate,
  get_or-append_left, get_or-append_last, get_or-replicate, replicate, Bool-cases, Option-cases,
  inl, inr, ◌⊎◌,
}
use provework.Rvcore.Mem.{
  Mem, Page, page_size, no_slot, no_page, probe, fill, allocate, slot_byte, dir_get, dir_insert,
  slot_mut_or_alloc,
}
use provework.Rvcore.Mem.Directory.{dir_get-insert, Ascending-insert}
use provework.Rvcore.Mem.Invariant.{IsMem, byte_at}
use provework.Rvcore.Mem.Slots.{fill-IsMem, probe_hit}

module _ (m : Mem) (page : ℕ) (bytes : Page) (ok : IsMem m)
    (fresh : dir_get m.page_dir page ≡ none) where
  dir_get-allocate :
      (q : ℕ)
      → dir_get (allocate m page bytes).page_dir q
        ≡ (if page == q then some (length m.page_slots) else dir_get m.page_dir q)
  dir_get-allocate q = dir_get-insert page (length m.page_slots) q m.page_dir

  dir_get-allocate_old :
      (q s : ℕ)
      → dir_get m.page_dir q ≡ some s
      → dir_get (allocate m page bytes).page_dir q ≡ some s
  dir_get-allocate_old q s e = elim (Bool-cases (page == q)) [
    | inl same ↦ absurd (clash (sym fresh ∙ (ap (dir_get m.page_dir) (eq_of same) ∙ e)))
    | inr other ↦ rw (dir_get-allocate q) (rw other e)
  ]
    where
      clash : none ≡ some s → ⊥
      clash x = cc

      eq_of : (page == q) ≡ true → page ≡ q
      eq_of h = ground arith

  -- A directory entry is the new one, or an old one.
  entry_cases :
      (q s : ℕ)
      → dir_get (allocate m page bytes).page_dir q ≡ some s
      → ((page ≡ q) × (s ≡ length m.page_slots)) ⊎ (dir_get m.page_dir q ≡ some s)
  entry_cases q s e = ground (arith, dir_get-allocate q)

  pub allocate-IsMem :
      length bytes ≡ page_size → suc (length m.page_slots) < no_slot → IsMem (allocate m page bytes)
  allocate-IsMem full room = record {
    ascending = Ascending-insert page _ m.page_dir ok.ascending;
    in_use = λ p s e. elim (entry_cases p s e) [
      | inl (_, last) ↦ rw (length-append m.page_slots (bytes ∷ [])) (omega (arith, last))
      | inr old ↦ rw (length-append m.page_slots (bytes ∷ [])) (omega (arith, ok.in_use p s old))
    ];
    apart = λ p q s e f. elim (entry_cases p s e) [
      | inl (same, last) ↦ elim (entry_cases q s f) [
        | inl (same', _) ↦ sym same ∙ same'
        | inr old ↦ absurd (omega (arith, last, ok.in_use q s old))
      ]
      | inr old ↦ elim (entry_cases q s f) [
        | inl (_, last) ↦ absurd (omega (arith, last, ok.in_use p s old))
        | inr old' ↦ ok.apart p q s old old'
      ]
    ];
    sized = λ s h. elim (ℕ_discrete s (length m.page_slots)) [
      | yes last ↦ rw last (rw (get_or-append_last m.page_slots bytes []) full)
      | no before ↦
          let h' : s < length m.page_slots + 1 =
            rw (length-append m.page_slots (bytes ∷ [])) at h in
          rw (get_or-append_left m.page_slots (bytes ∷ []) s [] (omega arith))
            (ok.sized s (omega arith))
    ];
    few = rw (length-append m.page_slots (bytes ∷ [])) (omega arith);
    slots = ok.slots;
    cached = λ i. elim (ok.cached i) [
      | inl empty ↦ inl empty
      | inr entry ↦ inr (dir_get-allocate_old _ _ entry)
    ];
  }

module _ (m : Mem) (page : ℕ) (ok : IsMem m) where
  byte_at-allocate :
      dir_get m.page_dir page ≡ none
      → (a : ℕ) → byte_at (allocate m page (replicate page_size 0)) a ≡ byte_at m a
  byte_at-allocate fresh a = elim (Bool-cases (page == a / page_size)) [
    | inl same ↦ rw (dir_get-insert page (length m.page_slots) (a / page_size) m.page_dir) (
        rw same (
          rw (get_or-append_last m.page_slots (replicate page_size 0) []) (
            get_or-replicate page_size (a % page_size) 0
            ∙ ap (λ (o : Option ℕ). slot_byte m o a)
                (sym fresh ∙ ap (dir_get m.page_dir) (eq_of same)))))
    | inr other ↦
        rw (dir_get-insert page (length m.page_slots) (a / page_size) m.page_dir)
          (rw other (old_page other))
  ]
    where
      eq_of : (page == a / page_size) ≡ true → page ≡ a / page_size
      eq_of h = ground arith

      old_page :
          (page == a / page_size) ≡ false
          → slot_byte
              (allocate m page (replicate page_size 0))
              (dir_get m.page_dir (a / page_size))
              a
            ≡ byte_at m a
      old_page h = elim (Option-cases (dir_get m.page_dir (a / page_size))) [
        | inl nothing ↦ rw nothing refl
        | inr (s, found) ↦ rw found (
            ap (λ (p : Page). get_or p (a % page_size) 0)
              (get_or-append_left m.page_slots _ s [] (ok.in_use _ s found)))
      ]

  -- What the probe for a write leaves: the page has a slot, and no byte has changed.
  pub record Allocated (s : ℕ) (m' : Mem) : Type 0 where
    pub valid : IsMem m'
    pub there : dir_get m'.page_dir page ≡ some s
    pub bytes_same : (a : ℕ) → byte_at m' a ≡ byte_at m a
    pub grown : length m'.page_slots ≤ length m.page_slots + 1
    pub log_same : m'.syscall_log ≡ m.syscall_log

  hit_Allocated : (s : ℕ) → dir_get m.page_dir page ≡ some s → Allocated s m
  hit_Allocated s e = record {
    valid = ok;
    there = e;
    bytes_same = λ a. refl;
    grown = omega arith;
    log_same = refl;
  }

  found_Allocated : (s : ℕ) → dir_get m.page_dir page ≡ some s → Allocated s (fill m page s)
  found_Allocated s e = record {
    valid = fill-IsMem m page ok s e;
    there = e;
    bytes_same = λ a. refl;
    grown = omega arith;
    log_same = refl;
  }

  new_Allocated :
      dir_get m.page_dir page ≡ none
      → suc (length m.page_slots) < no_slot
      → Allocated
          (length m.page_slots)
          (fill (allocate m page (replicate page_size 0)) page (length m.page_slots))
  new_Allocated fresh room = record {
    valid = fill-IsMem _ page valid' (length m.page_slots) there';
    there = there';
    bytes_same = byte_at-allocate fresh;
    grown = rw (length-append m.page_slots (replicate page_size 0 ∷ [])) (omega arith);
    log_same = refl;
  }
    where
      valid' : IsMem (allocate m page (replicate page_size 0))
      valid' =
          allocate-IsMem m page (replicate page_size 0) ok fresh
            (length-replicate {A = ℕ} page_size 0) room

      there' :
          dir_get (dir_insert page (length m.page_slots) m.page_dir) page
          ≡ some (length m.page_slots)
      there' = rw (dir_get-insert page (length m.page_slots) page m.page_dir) (ground arith)

  pub slot_mut_or_alloc-Allocated :
      page ≢ no_page
      → suc (length m.page_slots) < no_slot
      → Allocated (slot_mut_or_alloc m page).0 (slot_mut_or_alloc m page).1
  slot_mut_or_alloc-Allocated real room =
      elim (Bool-cases ((probe m page).0 == page && not ((probe m page).1 == no_slot))) [
        | inl hit ↦
            rw (hit_eq hit)
              (hit_Allocated (probe m page).1 (probe_hit m page ok real (ground arith)).0)
        | inr miss ↦ elim (Option-cases (dir_get m.page_dir page)) [
          | inl nothing ↦ rw (new_eq miss nothing) (new_Allocated nothing room)
          | inr (s, found) ↦ rw (found_eq miss s found) (found_Allocated s found)
        ]
      ]
    where
      hit_eq :
          ((probe m page).0 == page && not ((probe m page).1 == no_slot)) ≡ true
          → slot_mut_or_alloc m page ≡ ((probe m page).1, m)
      hit_eq h = unfold slot_mut_or_alloc in rw h refl

      new_eq :
          ((probe m page).0 == page && not ((probe m page).1 == no_slot)) ≡ false
          → dir_get m.page_dir page ≡ none
          → slot_mut_or_alloc m page ≡ (
            length m.page_slots,
            fill (allocate m page (replicate page_size 0)) page (length m.page_slots),
          )
      new_eq h e = unfold slot_mut_or_alloc in rw h (ground (arith, e))

      found_eq :
          ((probe m page).0 == page && not ((probe m page).1 == no_slot)) ≡ false
          → (s : ℕ) → dir_get m.page_dir page ≡ some s
          → slot_mut_or_alloc m page ≡ (s, fill m page s)
      found_eq h s e = unfold slot_mut_or_alloc in rw h (ground (arith, e))
