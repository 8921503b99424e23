-- ===== src/Coordinator/Quorum/Outcomes.antt =====
-- The outcomes of `decide`, each with the counts that lead to it.
use provework.Prelude.{
  ℕ, ◌-◌, ◌*◌, ◌≤◌, ◌<◌, Bytes, Option, none, some, List, [], ◌∷◌, Bool, true, false, ◌≡◌, ◌≢◌,
  refl, ap, ◌∙◌, sym, arith, ltb, bytes_eq_refl, bytes_eq→≡, all, length, length-map, All,
  Bool-cases, inl, inr, ◌⊎◌, ◌↔◌, &&_split,
}
use mathlib.Core.Path.{subst}
use provework.Jobfmt.{WorkerResult}
use provework.Coordinator.Quorum.{
  Decision, accept, escalate, reject, dedup, group_by, sort_groups, accept_group, fall_through,
  decide, bytes_list_eq, chain_dispute,
}
use provework.Coordinator.Quorum.Groups.{votes, longest}
use provework.Coordinator.Quorum.Decide.{
  ballots, pool, ids, sorted_found, sorted_largest, fallback, decide_majority, decide_minority,
}

bytes_list_eq→≡ : (xs ys : List Bytes) → bytes_list_eq xs ys ≡ true → xs ≡ ys
bytes_list_eq→≡ [] [] h = refl
bytes_list_eq→≡ [] (y ∷ ys) h = cc
bytes_list_eq→≡ (x ∷ xs) [] h = cc
bytes_list_eq→≡ (x ∷ xs) (y ∷ ys) h = ground (arith, bytes_eq→≡ x y, bytes_list_eq→≡ xs ys)

bytes_list_eq_refl : (xs : List Bytes) → bytes_list_eq xs xs ≡ true
bytes_list_eq_refl [] = refl
bytes_list_eq_refl (x ∷ xs) = rw (bytes_eq_refl x) (bytes_list_eq_refl xs)

-- Every result of the list commits to one chunk chain.
abbrev pub SameChain : List Bytes → List WorkerResult → Type 0
SameChain chain = All (λ r. r.chunk_hashes ≡ chain)

abbrev pub first_output : List WorkerResult → Option Bytes
first_output [] = none
first_output (r ∷ rs) = r.output_hex

consistent : List Bytes → List WorkerResult → Bool
consistent chain = all (λ r. bytes_list_eq r.chunk_hashes chain)

consistent→SameChain :
    (chain : List Bytes) (g : List WorkerResult) → consistent chain g ≡ true → SameChain chain g
unfolding consistent
consistent→SameChain chain [] h = tt
consistent→SameChain chain (r ∷ rs) h =
    let (one, rest) = &&_split _ _ h in
    (bytes_list_eq→≡ _ _ one, consistent→SameChain chain rs rest)

SameChain→consistent :
    (chain : List Bytes) (g : List WorkerResult) → SameChain chain g → consistent chain g ≡ true
unfolding consistent
SameChain→consistent chain [] h = refl
SameChain→consistent chain (r ∷ rs) h =
    rw (h.0, bytes_list_eq_refl chain) (SameChain→consistent chain rs h.1)

abbrev AcceptOf : Bytes → List WorkerResult → Bytes → Option Bytes → List Bytes → Bool → Type 0
AcceptOf k g h o a z =
    (k ≡ h)
    × (z ≡ false)
    × (a ≡ ids g)
    × (o ≡ first_output g)
    × ((chain : List Bytes) × SameChain chain g)

accept_group_same :
    (k : Bytes) (r : WorkerResult) (rs : List WorkerResult)
    → consistent r.chunk_hashes (r ∷ rs) ≡ true
    → accept_group k (r ∷ rs) ≡ some (accept k r.output_hex (ids (r ∷ rs)) false)
unfolding accept_group consistent
accept_group_same k r rs e = rw e refl

accept_group_differ :
    (k : Bytes) (r : WorkerResult) (rs : List WorkerResult)
    → consistent r.chunk_hashes (r ∷ rs) ≡ false
    → accept_group k (r ∷ rs) ≡ some (reject chain_dispute)
unfolding accept_group consistent
accept_group_differ k r rs e = rw e refl

accept_group_inv :
    (k : Bytes) (g : List WorkerResult) {h : Bytes} {o : Option Bytes} {a : List Bytes} {z : Bool}
    → accept_group k g ≡ some (accept h o a z)
    → AcceptOf k g h o a z
accept_group_inv k [] e = unfold accept_group in cc
accept_group_inv k (r ∷ rs) e = elim (Bool-cases (consistent r.chunk_hashes (r ∷ rs))) [
  | inl same ↦
      let f = accept_group_same k r rs same in
      (cc, cc, cc, cc, (r.chunk_hashes, consistent→SameChain _ _ same))
  | inr differ ↦ absurd (apart (sym (accept_group_differ k r rs differ) ∙ e))
]
  where
    apart :
        {d : Bytes} {h : Bytes} {o : Option Bytes} {a : List Bytes} {z : Bool}
        → some (reject d) ≡ some (accept h o a z)
        → ⊥
    apart x = cc

-- A group that is not empty ends the round with a decision that asks for no escalation.
accept_group_final :
    (k : Bytes) (g : List WorkerResult)
    → 0 < length g
    → (d : Decision) × (accept_group k g ≡ some d) × (d ≢ escalate)
accept_group_final k [] pos = absurd (omega arith)
accept_group_final k (r ∷ rs) pos = elim (Bool-cases (consistent r.chunk_hashes (r ∷ rs))) [
  | inl same ↦ (_, accept_group_same k r rs same, λ e. cc)
  | inr differ ↦ (_, accept_group_differ k r rs differ, λ e. cc)
]

some_inj : {c d : Decision} → some c ≡ some d → c ≡ d
some_inj e = cc

module _ (results : List WorkerResult) (expected : ℕ) where
  abbrev pub Majority : Bytes → Type 0
  Majority h = pool results expected < 2 * length (votes h (ballots results))

  abbrev pub NoMajority : Type 0
  NoMajority = (h : Bytes) → 2 * length (votes h (ballots results)) ≤ pool results expected

  Majority-of_head :
      (xs : List (Bytes × List WorkerResult))
      → All (λ x. x.1 ≡ votes x.0 (ballots results)) xs
      → ((h : Bytes) → length (votes h (ballots results)) ≤ longest xs)
      → ((h : Bytes) × Majority h) ⊎ NoMajority
  Majority-of_head [] found largest = inr (λ h. omega (arith, largest h))
  Majority-of_head ((k, g) ∷ xs) found largest =
      elim (Bool-cases (ltb (pool results expected) (2 * length g))) [
        | inl more ↦ inl (k, ground (arith, ap length found.0))
        | inr less ↦ inr (λ h. ground (arith, largest h))
      ]

  -- Some hash has a strict majority of the pool, or none has.
  Majority-cases : ((h : Bytes) × Majority h) ⊎ NoMajority
  Majority-cases =
      Majority-of_head (sort_groups (group_by (ballots results))) (sorted_found results expected)
        (sorted_largest results expected)

  fallback_not_accept :
      {h : Bytes} {o : Option Bytes} {a : List Bytes} {z : Bool}
      → some (fallback results expected) ≢ some (accept h o a z)
  unfolding fall_through
  fallback_not_accept e = ground arith

  -- An acceptance, for whatever results arrive: it is a quorum acceptance, the agreed workers are
  -- those of the counted halted results under the accepted hash, they are more than half of the
  -- larger of the dispatched pool and the counted results, they committed to one chunk chain, and
  -- the output is that of the first of them.
  pub decide-accept_sound :
      {h : Bytes} {o : Option Bytes} {a : List Bytes} {z : Bool}
      → decide results expected ≡ some (accept h o a z)
      → (z ≡ false)
        × (a ≡ ids (votes h (ballots results)))
        × (pool results expected < 2 * length a)
        × (o ≡ first_output (votes h (ballots results)))
        × ((chain : List Bytes) × SameChain chain (votes h (ballots results)))
  decide-accept_sound {h} {o} {a} {z} e = elim Majority-cases [
    | inl (k, m) ↦
        let inv : AcceptOf k (votes k (ballots results)) h o a z =
          accept_group_inv k _ (sym (decide_majority results expected k m) ∙ e) in
        rw (← inv.0) (
          inv.1,
          inv.2,
          rw inv.2
              (rw (length-map (λ (r : WorkerResult). r.worker_id) (votes k (ballots results))) m),
          inv.3,
          inv.4,
        )
    | inr few ↦ absurd (fallback_not_accept (sym (decide_minority results expected few) ∙ e))
  ]

  -- Where more than half of the pool reports one hash with one chunk chain, `decide` accepts
  -- that hash, with all those workers and the first one's output.
  pub decide-accept_complete :
      (h : Bytes) (chain : List Bytes)
      → pool results expected < 2 * length (votes h (ballots results))
      → SameChain chain (votes h (ballots results))
      → decide results expected
        ≡ some (
            accept h
              (first_output (votes h (ballots results)))
              (ids (votes h (ballots results)))
              false)
  decide-accept_complete h chain m same =
      decide_majority results expected h m ∙ accepted (votes h (ballots results)) same (omega arith)
    where
      accepted :
          (g : List WorkerResult)
          → SameChain chain g
          → 0 < length g
          → accept_group h g ≡ some (accept h (first_output g) (ids g) false)
      accepted [] s pos = absurd (omega arith)
      accepted (r ∷ rs) s pos =
          accept_group_same h r rs
            (SameChain→consistent _ (r ∷ rs) (subst (λ c. SameChain c (r ∷ rs)) (sym s.0) s))

  -- `decide` never indexes an empty group list, whatever the results and the pool size.
  pub decide_total : decide results expected ≢ none
  decide_total e = elim Majority-cases [
    | inl (k, m) ↦
        let (d, same, _) = accept_group_final k _ (omega (arith, m)) in
        apart (sym same ∙ (sym (decide_majority results expected k m) ∙ e))
    | inr few ↦ apart (sym (decide_minority results expected few) ∙ e)
  ]
    where
      apart : {d : Decision} → some d ≡ none → ⊥
      apart x = cc

  -- Escalation is asked for exactly where no hash has a strict majority of the pool, at most half
  -- of the pool trapped, and the pool is still smaller than five.
  pub decide-escalate_iff : (decide results expected ≡ some escalate) ↔ (
      ((h : Bytes) → 2 * length (votes h (ballots results)) ≤ pool results expected)
      × (2 * (length (dedup [] results) - length (ballots results)) ≤ pool results expected)
      × (pool results expected < 5))
  decide-escalate_iff = (forth, back)
    where
      trapped : ℕ
      trapped = length (dedup [] results) - length (ballots results)

      forth :
          decide results expected ≡ some escalate
          → NoMajority × (2 * trapped ≤ pool results expected) × (pool results expected < 5)
      forth e = elim Majority-cases [
        | inl (k, m) ↦
            let (d, same, final) = accept_group_final k _ (omega (arith, m)) in
            absurd (final (some_inj (sym same ∙ (sym (decide_majority results expected k m) ∙ e))))
        | inr few ↦
            let f : some (fallback results expected) ≡ some escalate =
              sym (decide_minority results expected few) ∙ e in
            (few, unfold fall_through in ground arith, unfold fall_through in ground arith)
      ]

      back :
          NoMajority × (2 * trapped ≤ pool results expected) × (pool results expected < 5)
          → decide results expected ≡ some escalate
      back h = decide_minority results expected h.0 ∙ (unfold fall_through in ground arith)
