-- ===== src/Rvcore/Step/Compressed.antt =====
-- The 16-bit instructions keep a machine well formed.
use provework.Prelude.{ℕ, ◌+◌, ◌*◌, ◌/◌, ◌%◌, ◌^◌, ◌<◌, true, ◌≡◌, refl, arith, length, bit_or}
use provework.Rvcore.Cpu.{get, get-lt}
use provework.Rvcore.Mem.{no_slot, read_width}
use provework.Rvcore.Words.{bits, sext}
use provework.Rvcore.Machine.{Machine}
use provework.Rvcore.Alu.Bounds.{pick-lt, word_bounds}
use provework.Rvcore.Compressed.{
  imm6, lui_imm, step_c0, step_c1_alu, step_c1_lui, step_c1, step_c2_jump, step_c2, step_c,
}
use provework.Rvcore.Kept.{
  IsMachine, Kept, Kept-stay, Kept-if, Kept-jump, Kept-commit, Kept-load_into, Kept-store_from,
}

imm6-lt : (hw : ℕ) → imm6 hw < 2 ^ 64
imm6-lt hw = omega arith

sext18-lt : (v : ℕ) → v < 2 ^ 18 → sext 18 v < 2 ^ 64
sext18-lt v h = ground arith

lui_imm-lt : (hw : ℕ) → lui_imm hw < 2 ^ 64
lui_imm-lt hw =
    sext18-lt (bit_or (bits hw 12 1 * 2 ^ 17) (bits hw 2 5 * 2 ^ 12) % 2 ^ 18) (omega arith)

even-lt : (v : ℕ) → v < 2 ^ 64 → v / 2 * 2 < 2 ^ 64
even-lt v h = omega arith

load_word : read_width 4 ≡ true
load_word = refl

load_double : read_width 8 ≡ true
load_double = refl

module _ (m : Machine) (h : IsMachine m) where
  register-lt : (r : ℕ) → get m.cpu r < 2 ^ 64
  register-lt r = get-lt m.cpu r h.cpu

  Kept-step_c0 : (pc hw : ℕ) → length m.mem.page_slots + 8 < no_slot → Kept m (step_c0 m pc hw)
  unfolding step_c0
  Kept-step_c0 pc hw room =
      search
        (
          Kept-if, Kept-stay, Kept-commit, Kept-load_into, Kept-store_from, h, room, load_word,
          load_double, word_bounds,
        )
        depth 12

  Kept-step_c1_alu : (pc hw : ℕ) → Kept m (step_c1_alu m pc hw)
  unfolding step_c1_alu
  Kept-step_c1_alu pc hw =
      search (Kept-if, Kept-stay, Kept-commit, h, word_bounds, pick-lt, imm6-lt, register-lt) depth
        14

  Kept-step_c1_lui : (pc hw : ℕ) → Kept m (step_c1_lui m pc hw)
  unfolding step_c1_lui
  Kept-step_c1_lui pc hw =
      search (Kept-if, Kept-stay, Kept-jump, Kept-commit, h, word_bounds, lui_imm-lt) depth 12

  Kept-step_c1 : (pc hw : ℕ) → Kept m (step_c1 m pc hw)
  unfolding step_c1
  Kept-step_c1 pc hw =
      search
        (
          Kept-if, Kept-jump, Kept-commit, Kept-step_c1_alu, Kept-step_c1_lui, h, word_bounds,
          imm6-lt, pick-lt,
        )
        depth 14

  Kept-step_c2_jump : (pc hw : ℕ) → Kept m (step_c2_jump m pc hw)
  unfolding step_c2_jump
  Kept-step_c2_jump pc hw =
      search (Kept-if, Kept-stay, Kept-jump, Kept-commit, h, word_bounds, even-lt, register-lt)
        depth 12

  Kept-step_c2 : (pc hw : ℕ) → length m.mem.page_slots + 8 < no_slot → Kept m (step_c2 m pc hw)
  unfolding step_c2
  Kept-step_c2 pc hw room =
      search
        (
          Kept-if, Kept-stay, Kept-commit, Kept-load_into, Kept-store_from, Kept-step_c2_jump, h,
          room, load_word, load_double, word_bounds,
        )
        depth 14

  pub Kept-step_c : (pc hw : ℕ) → length m.mem.page_slots + 8 < no_slot → Kept m (step_c m pc hw)
  unfolding step_c
  Kept-step_c pc hw room = search (Kept-if, Kept-step_c0, Kept-step_c1, Kept-step_c2, room) depth 6
