-- ===== src/Coordinator/Quorum/Decide.antt =====
-- `decide` against a plain count: the halted results under one hash, one for each worker, and the
-- strict majority of the pool.
use provework.Prelude.{
  ℕ, ◌+◌, ◌-◌, ◌*◌, ◌/◌, ◌≤◌, ◌<◌, max, Bytes, some, List, [], ◌∷◌, map, true, false, ◌≡◌, refl, ap,
  ◌∙◌, sym, arith, leb, le→leb, leb→le, bytes_eq, bytes_eq_refl, bytes_eq→≡, filter, length,
  length-filter_le, length-filter_disjoint, All, Bool-cases, inl, inr,
}
use provework.Jobfmt.{WorkerResult}
use provework.Coordinator.Quorum.{
  Decision, dedup, is_halted, group_by, sort_groups, accept_group, fall_through, weigh, decide,
}
use provework.Coordinator.Quorum.Groups.{
  votes, lookup_group-group_by, All-votes-group_by, All-sort_groups, longest,
  lookup_group-le-longest,
}

-- The halted results that count, one for each worker.
abbrev pub ballots : List WorkerResult → List WorkerResult
ballots results = filter is_halted (dedup [] results)

abbrev pub pool : List WorkerResult → ℕ → ℕ
pool results expected = max expected (length (dedup [] results))

abbrev pub ids : List WorkerResult → List Bytes
ids = map (λ r. r.worker_id)

-- One hash holds at most one strict majority.
majority_unique :
    (h k : Bytes) (rs : List WorkerResult)
    → length rs < length (votes h rs) + length (votes k rs)
    → h ≡ k
majority_unique h k rs m = elim (Bool-cases (bytes_eq h k)) [
  | inl same ↦ bytes_eq→≡ h k same
  | inr other ↦ absurd (omega (arith, length-filter_disjoint _ _ (apart other) rs))
]
  where
    apart :
        bytes_eq h k ≡ false
        → (r : WorkerResult) → bytes_eq h r.result_hash ≡ true
        → bytes_eq k r.result_hash ≡ false
    apart e r p = elim (Bool-cases (bytes_eq k r.result_hash)) [
      | inl q ↦ absurd (false_not_true (sym e ∙ both p q))
      | inr q ↦ q
    ]
      where
        false_not_true : false ≡ true → ⊥
        false_not_true x = cc

        both :
            bytes_eq h r.result_hash ≡ true → bytes_eq k r.result_hash ≡ true → bytes_eq h k ≡ true
        both p q = rw (bytes_eq→≡ h _ p, bytes_eq→≡ k _ q) (bytes_eq_refl r.result_hash)

-- The head of the sorted groups wins exactly where some hash has the threshold.
weigh_majority :
    (threshold : ℕ) (other : Decision) (rs : List WorkerResult)
    (xs : List (Bytes × List WorkerResult)) (h : Bytes)
    → All (λ x. x.1 ≡ votes x.0 rs) xs
    → length (votes h rs) ≤ longest xs
    → 0 < threshold
    → threshold ≤ length (votes h rs)
    → length rs < 2 * threshold
    → weigh threshold other xs ≡ accept_group h (votes h rs)
weigh_majority threshold other rs [] h found largest pos enough strict = absurd (omega arith)
weigh_majority threshold other rs ((k, g) ∷ xs) h found largest pos enough strict =
    rw passes (rw found.0 (ap (λ (t : Bytes). accept_group t (votes t rs)) (sym same)))
  where
    passes : weigh threshold other ((k, g) ∷ xs) ≡ accept_group k g
    passes = unfold weigh in ground arith

    same : h ≡ k
    same = majority_unique h k rs (omega (arith, ap length found.0))

weigh_minority :
    (threshold : ℕ) (other : Decision) (rs : List WorkerResult)
    (xs : List (Bytes × List WorkerResult)) (h : Bytes)
    → All (λ x. x.1 ≡ votes x.0 rs) xs
    → length (votes h rs) ≤ longest xs
    → 0 < length (votes h rs)
    → ((k : Bytes) → length (votes k rs) < threshold)
    → weigh threshold other xs ≡ some other
weigh_minority threshold other rs [] h found largest pos few = absurd (omega arith)
weigh_minority threshold other rs ((k, g) ∷ xs) h found largest pos few =
    unfold weigh in ground (arith, few k, ap length found.0)

module _ (results : List WorkerResult) (expected : ℕ) where
  pub sorted_found :
      All (λ x. x.1 ≡ votes x.0 (ballots results)) (sort_groups (group_by (ballots results)))
  sorted_found = All-sort_groups _ _ (All-votes-group_by (ballots results))

  pub sorted_largest :
      (h : Bytes)
      → length (votes h (ballots results)) ≤ longest (sort_groups (group_by (ballots results)))
  sorted_largest h =
      rw (lookup_group-group_by h (ballots results)) at
        (lookup_group-le-longest h (group_by (ballots results)))

  abbrev threshold : ℕ
  threshold = pool results expected / 2 + 1

  -- The outcome when no group is large enough, by the counts alone.
  abbrev pub fallback : Decision
  fallback =
      fall_through (length (dedup [] results) - length (ballots results))
        (pool results expected / 2 + 1) (pool results expected)

  -- A hash with a strict majority of the pool is the group that is weighed, consistent or not.
  pub decide_majority :
      (h : Bytes)
      → pool results expected < 2 * length (votes h (ballots results))
      → decide results expected ≡ accept_group h (votes h (ballots results))
  unfolding decide
  decide_majority h m = rw (le→leb threshold (length (ballots results)) (omega (arith, votes-le))) (
      weigh_majority threshold fallback (ballots results) _ h sorted_found (sorted_largest h)
        (omega arith) (omega arith) (omega (arith, length-filter_le is_halted (dedup [] results))))
    where
      votes-le : length (votes h (ballots results)) ≤ length (ballots results)
      votes-le = length-filter_le (λ r. bytes_eq h r.result_hash) (ballots results)

  -- With no such hash the outcome follows from the counts alone.
  pub decide_minority :
      ((h : Bytes) → 2 * length (votes h (ballots results)) ≤ pool results expected)
      → decide results expected ≡ some fallback
  unfolding decide
  decide_minority few = elim (Bool-cases (leb threshold (length (ballots results)))) [
    | inr short ↦ rw short refl
    | inl enough ↦ rw enough (
        weigh_minority threshold fallback (ballots results) _ (head_hash (ballots results))
          sorted_found (sorted_largest _)
          (head_voted (ballots results) (omega (arith, leb→le _ _ enough)))
          (λ k. omega (arith, few k)))
  ]
    where
      head_hash : List WorkerResult → Bytes
      head_hash [] = []
      head_hash (r ∷ rs) = r.result_hash

      head_voted : (rs : List WorkerResult) → 0 < length rs → 0 < length (votes (head_hash rs) rs)
      head_voted [] h = absurd (omega arith)
      head_voted (r ∷ rs) h = rw (bytes_eq_refl r.result_hash) (omega arith)
