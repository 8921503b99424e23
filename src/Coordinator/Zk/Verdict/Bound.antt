-- ===== src/Coordinator/Zk/Verdict/Bound.antt =====
-- crates/coordinator/src/zk_judge.rs: a decision is bound to the job, and its digest is computed from the
-- verdict's count and output.
use provework.Prelude.{
  Result-cases, ok_injective, lower_hex, ◌≢◌, [], ℕ, ◌/◌, Bytes, Option, none, some, List, [], ◌∷◌,
  Bool, true, false, ◌≡◌, ◌⊎◌, refl, ap, sym, ◌∙◌, arith, ◌==◌, ==_iff, length, get_or, bytes_eq,
  bytes_eq→≡, ok, err, Bool-cases, Option-cases, inl, inr,
}
use provework.Jobfmt.Encodings.{HexError, journal, from_hex}
use provework.Coordinator.Quorum.{Decision, accept, reject}
use provework.Coordinator.Zk.Verdict.{
  JudgeVerdict, JudgeError, check_ids, check_binding, digest_hex, status_decision, fields_decision,
  judge_decision,
}

-- The texts are the hex of the ids, in order and as many.
abbrev pub Names : List Bytes → List Bytes → Type 0
Names [] [] = Unit
Names [] (e ∷ es) = ⊥
Names (h ∷ hs) [] = ⊥
Names (h ∷ hs) (e ∷ es) = (from_hex h 32 ≡ ok e) × Names hs es

check_ids-err :
    (h : Bytes) (hs : List Bytes) (e : Bytes) (es : List Bytes) (x : HexError)
    → from_hex h 32 ≡ err x
    → check_ids (h ∷ hs) (e ∷ es) ≡ some (JudgeError.bad_hex x)
unfolding check_ids
check_ids-err h hs e es x p = rw (check_ids, p) refl

check_ids-same :
    (h : Bytes) (hs : List Bytes) (e : Bytes) (es : List Bytes) (bytes : Bytes)
    → from_hex h 32 ≡ ok bytes
    → bytes_eq bytes e ≡ true
    → check_ids (h ∷ hs) (e ∷ es) ≡ check_ids hs es
unfolding check_ids
check_ids-same h hs e es bytes p q = rw (check_ids, p, q) refl

check_ids-other :
    (h : Bytes) (hs : List Bytes) (e : Bytes) (es : List Bytes) (bytes : Bytes)
    → from_hex h 32 ≡ ok bytes
    → bytes_eq bytes e ≡ false
    → check_ids (h ∷ hs) (e ∷ es) ≡ some JudgeError.other_job
unfolding check_ids
check_ids-other h hs e es bytes p q = rw (check_ids, p, q) refl

check_ids-Names :
    (ids expected : List Bytes)
    → length ids ≡ length expected
    → check_ids ids expected ≡ none
    → Names ids expected
check_ids-Names [] [] l c = tt
check_ids-Names [] (e ∷ es) l c = absurd (omega arith)
check_ids-Names (h ∷ hs) [] l c = absurd (omega arith)
check_ids-Names (h ∷ hs) (e ∷ es) l c = elim (Result-cases (from_hex h 32)) [
  | inl (x, p) ↦ absurd (cc (check_ids-err h hs e es x p, c))
  | inr (bytes, p) ↦ elim (Bool-cases (bytes_eq bytes e)) [
    | inl same ↦ (
      p ∙ ap ok (bytes_eq→≡ _ _ same),
      check_ids-Names hs es (omega arith) (sym (check_ids-same h hs e es bytes p same) ∙ c),
    )
    | inr other ↦ absurd (cc (check_ids-other h hs e es bytes p other, c))
  ]
]

-- The ids that a verdict names: the input's alone for a job of the second format, all three otherwise.
abbrev pub IsBound : (v2 : Bool) → List Bytes → List Bytes → Type 0
IsBound true ids expected = Names ids (get_or expected 2 [] ∷ [])
IsBound false ids expected = Names ids expected

check_binding-IsBound :
    (v2 : Bool) (ids expected : List Bytes)
    → length expected ≡ 3
    → check_binding v2 ids expected ≡ none
    → IsBound v2 ids expected
unfolding check_binding
check_binding-IsBound true ids expected l c = elim (Bool-cases (length ids == 1)) [
  | inl one ↦ check_ids-Names ids _ ((==_iff _ _).0 one) (rw one at c)
  | inr other ↦ absurd (cc (rw other at c))
]
check_binding-IsBound false ids expected l c = elim (Bool-cases (length ids == 3)) [
  | inl three ↦ check_ids-Names ids expected ((==_iff _ _).0 three ∙ sym l) (rw three at c)
  | inr other ↦ absurd (cc (rw other at c))
]

module _ (sha256 : Bytes → Bytes) where
  -- A clean halt is accepted, under the hex of the digest and without workers; any other is rejected.
  abbrev pub Decides : (status : ℕ) (digest output_hex : Bytes) → Decision → Type 0
  Decides status digest output_hex d =
      ((status ≡ 0) × (d ≡ accept (lower_hex digest) (some output_hex) [] true))
      ⊎ ((status ≢ 0) × (reason : Bytes) × (d ≡ reject reason))

  nonzero : (n : ℕ) → (n == 0) ≡ false → n ≢ 0
  nonzero n e = ground arith

  status_decision-Decides :
      (status n : ℕ) (output_hex output : Bytes)
      → Decides status
          (sha256 (journal n output))
          output_hex
          (status_decision sha256 status n output_hex output)
  unfolding status_decision digest_hex
  status_decision-Decides status n output_hex output = elim (Bool-cases (status == 0)) [
    | inl clean ↦ rw (status_decision, clean) (inl ((==_iff _ _).0 clean, refl))
    | inr other ↦ rw (status_decision, other) (inr (nonzero status other, _, refl))
  ]

  -- A decision that a verdict for the job implies: its own status decides between an acceptance
  -- without workers, under the digest of its own count and output, and a rejection.
  pub record IsImplied (v : JudgeVerdict) (expected : List Bytes) (v2 : Bool) (d : Decision)
      : Type 0 where
    pub ids : List Bytes
    pub status : ℕ
    pub instructions : ℕ
    pub output_hex : Bytes
    pub output : Bytes
    pub said_ok : v.ok_flag ≡ true
    pub named : v.binding ≡ some ids
    pub bound : IsBound v2 ids expected
    pub has_status : v.status ≡ some status
    pub has_count : v.instructions ≡ some instructions
    pub has_output : v.output_hex ≡ some output_hex
    pub decoded : from_hex output_hex (length output_hex / 2) ≡ ok output
    pub decided : Decides status (sha256 (journal instructions output)) output_hex d

  abbrev Parts : Option ℕ → Option ℕ → Option Bytes → Decision → Type 0
  Parts s i o d =
      (status : ℕ) × (instructions : ℕ) × (output_hex : Bytes) × (output : Bytes) × (s
        ≡ some status)
      × (i ≡ some instructions)
      × (o ≡ some output_hex)
      × (from_hex output_hex (length output_hex / 2) ≡ ok output)
      × Decides status (sha256 (journal instructions output)) output_hex d

  fields_decision-err :
      (s i : ℕ) (o : Bytes) (x : HexError)
      → from_hex o (length o / 2) ≡ err x
      → fields_decision sha256 (some s) (some i) (some o) ≡ err (JudgeError.bad_hex x)
  unfolding fields_decision
  fields_decision-err s i o x p = rw (fields_decision, p) refl

  fields_decision-decoded :
      (s i : ℕ) (o output : Bytes)
      → from_hex o (length o / 2) ≡ ok output
      → fields_decision sha256 (some s) (some i) (some o) ≡ ok (status_decision sha256 s i o output)
  unfolding fields_decision
  fields_decision-decoded s i o output p = rw (fields_decision, p) refl

  fields_decision-ok :
      (s i : Option ℕ) (o : Option Bytes) {d : Decision}
      → fields_decision sha256 s i o ≡ ok d
      → Parts s i o d
  unfolding fields_decision
  fields_decision-ok none i o h = absurd cc
  fields_decision-ok (some s) none o h = absurd cc
  fields_decision-ok (some s) (some i) none h = absurd cc
  fields_decision-ok (some s) (some i) (some o) {d} h =
      elim (Result-cases (from_hex o (length o / 2))) [
        | inl (x, p) ↦ absurd (cc (fields_decision-err s i o x p, h))
        | inr (output, p) ↦ (
          s,
          i,
          o,
          output,
          refl,
          refl,
          refl,
          p,
          rw (ok_injective _ _ h (fields_decision-decoded s i o output p))
              (status_decision-Decides s i o output),
        )
      ]

  -- A verdict leads to a decision only if it says it is good and names the three ids of the job, or the
  -- input's id for a job of the second format; the decision is then an acceptance for status 0 and a
  -- rejection otherwise, and an acceptance has the SHA-256 of the verdict's own journal as its digest.
  pub judge_decision_sound :
      (v : JudgeVerdict) (expected : List Bytes) (v2 : Bool) {d : Decision}
      → length expected ≡ 3
      → judge_decision sha256 v expected v2 ≡ ok d
      → IsImplied v expected v2 d
  unfolding judge_decision
  judge_decision_sound v expected v2 {d} l h = elim (Bool-cases v.ok_flag) [
    | inr bad ↦ absurd (cc (rw (judge_decision, bad) at h))
    | inl good ↦ elim (Option-cases v.binding) [
      | inl unnamed ↦ absurd (cc (rw (judge_decision, good, unnamed) at h))
      | inr (ids, n) ↦ elim (Option-cases (check_binding v2 ids expected)) [
        | inr (e, c) ↦ absurd (cc (rw (judge_decision, good, n, c) at h))
        | inl c ↦
            let (s, i, o, output, hs, hi, ho, p, q) =
              fields_decision-ok v.status v.instructions v.output_hex
                (rw (judge_decision, good, n, c) at h) in
            record {
              ids = ids;
              status = s;
              instructions = i;
              output_hex = o;
              output = output;
              said_ok = good;
              named = n;
              bound = check_binding-IsBound v2 ids expected l c;
              has_status = hs;
              has_count = hi;
              has_output = ho;
              decoded = p;
              decided = q;
            }
      ]
    ]
  ]
