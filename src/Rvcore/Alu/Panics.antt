-- ===== src/Rvcore/Alu/Panics.antt =====
-- Which arithmetic instructions end the emulator in a Rust panic.
use provework.Prelude.{
  ℕ, ◌%◌, ◌^◌, Bool, true, false, ◌≡◌, refl, arith, if◌then◌else◌, ◌==◌, ◌&&◌, ◌||◌, not,
}
use provework.Rvcore.Alu.{
  Value, value, illegal, panics, op_imm_value, op_imm_32_value, op_value, op_32_muldiv, op_32_value,
}

abbrev pub is_panic : Value → Bool
is_panic panics = true
is_panic illegal = false
is_panic (value _) = false

is_panic-if :
    (b : Bool) (v w : Value)
    → is_panic (if b then v else w) ≡ (if b then is_panic v else is_panic w)
is_panic-if true v w = refl
is_panic-if false v w = refl

never-if :
    (b : Bool) (v w : Value)
    → is_panic v ≡ false
    → is_panic w ≡ false
    → is_panic (if b then v else w) ≡ false
never-if true v w p q = p
never-if false v w p q = q

never-value : (v : ℕ) → is_panic (value v) ≡ false
never-value v = refl

never-illegal : is_panic illegal ≡ false
never-illegal = refl

op_32_muldiv-panics :
    (f3 a b : ℕ)
    → is_panic (op_32_muldiv f3 a b) ≡ ((f3 == 5 || f3 == 7) && (b % 2 ^ 32 == 0 && not (b == 0)))
unfolding op_32_muldiv
op_32_muldiv-panics f3 a b = simp is_panic-if (ground arith)

-- DIVUW and REMUW panic exactly where the low 32 bits of the divisor are 0 and the divisor is not,
-- and no other OP, OP-IMM, OP-IMM-32 or OP-32 instruction ever does.
pub panics_lem :
    (inst f7 f3 a b : ℕ)
    → ((is_panic (op_value f7 f3 a b) ≡ false)
        × ((is_panic (op_imm_value inst f3 a) ≡ false)
            × (is_panic (op_imm_32_value inst f7 f3 a) ≡ false)))
      × (is_panic (op_32_value f7 f3 a b)
          ≡ (f7 == 1 && ((f3 == 5 || f3 == 7) && (b % 2 ^ 32 == 0 && not (b == 0)))))
unfolding op_value op_imm_value op_imm_32_value op_32_value
panics_lem inst f7 f3 a b = (
  (
    search (never-if, never-value, never-illegal) depth 14,
    (
      search (never-if, never-value, never-illegal) depth 14,
      search (never-if, never-value, never-illegal) depth 14,
    ),
  ),
  simp (is_panic-if, op_32_muldiv-panics f3 a b) (ground arith),
)
