-- ===== src/Coordinator/Quorum/Groups.antt =====
-- What `group_by` and the sort give `decide`: the head of the sorted groups is the largest set of
-- results with one hash.
use mathlib.Core.List.{append_assoc, append-nil}
use provework.Prelude.{
  ℕ, ◌≤◌, Bytes, List, [], ◌∷◌, ◌++◌, false, ◌≡◌, refl, ap, ◌∙◌, sym, arith, if◌then◌else◌, ltb,
  bytes_eq, bytes_eq_refl, bytes_eq_iff, filter, length, All, Bool-cases, inl, inr,
}
use provework.Jobfmt.{WorkerResult}
use provework.Coordinator.Quorum.{join, group_from, group_by, insert_group, sort_groups}

-- The results under one hash, in their order.
abbrev pub votes : Bytes → List WorkerResult → List WorkerResult
votes h = filter (λ r. bytes_eq h r.result_hash)

pub lookup_group : Bytes → List (Bytes × List WorkerResult) → List WorkerResult
lookup_group h [] = []
lookup_group h ((k, g) ∷ rest) = if bytes_eq k h then g else lookup_group h rest

lookup_group-join :
    (h : Bytes) (groups : List (Bytes × List WorkerResult)) (r : WorkerResult)
    → lookup_group h (join groups r)
      ≡ lookup_group h groups ++ (if bytes_eq h r.result_hash then r ∷ [] else [])
unfolding lookup_group join
lookup_group-join h [] r =
    ground (arith, bytes_eq_iff h r.result_hash, bytes_eq_iff r.result_hash h)
lookup_group-join h ((k, g) ∷ groups) r = ground (
  arith,
  bytes_eq_iff h r.result_hash,
  bytes_eq_iff k r.result_hash,
  bytes_eq_iff k h,
  lookup_group-join h groups r,
  append-nil g,
  append-nil (lookup_group h groups),
)

lookup_group-group_from :
    (h : Bytes) (groups : List (Bytes × List WorkerResult)) (rs : List WorkerResult)
    → lookup_group h (group_from groups rs) ≡ lookup_group h groups ++ votes h rs
unfolding group_from
lookup_group-group_from h groups [] = sym (append-nil _)
lookup_group-group_from h groups (r ∷ rs) =
    lookup_group-group_from h (join groups r) rs
    ∙ rw (lookup_group-join h groups r) (push h r (lookup_group h groups) (votes h rs))
  where
    push :
        (h : Bytes) (r : WorkerResult) (g v : List WorkerResult)
        → (g ++ (if bytes_eq h r.result_hash then r ∷ [] else [])) ++ v
          ≡ g ++ (if bytes_eq h r.result_hash then r ∷ v else v)
    push h r g v = elim (Bool-cases (bytes_eq h r.result_hash)) [
      | inl e ↦ rw e (append_assoc g (r ∷ []) v)
      | inr e ↦ rw e (ap (λ (t : List WorkerResult). t ++ v) (append-nil g))
    ]

pub lookup_group-group_by :
    (h : Bytes) (rs : List WorkerResult) → lookup_group h (group_by rs) ≡ votes h rs
unfolding group_by
lookup_group-group_by h rs = rw (lookup_group-group_from h [] rs) (unfold lookup_group in refl)

-- No hash heads two groups.
abbrev Distinct : List (Bytes × List WorkerResult) → Type 0
Distinct [] = Unit
Distinct ((h, g) ∷ rest) = All (λ x. bytes_eq h x.0 ≡ false) rest × Distinct rest

All-key-join :
    (h : Bytes) (groups : List (Bytes × List WorkerResult)) (r : WorkerResult)
    → All (λ x. bytes_eq h x.0 ≡ false) groups
    → bytes_eq h r.result_hash ≡ false
    → All (λ x. bytes_eq h x.0 ≡ false) (join groups r)
unfolding join
All-key-join h [] r a e = (e, tt)
All-key-join h ((k, g) ∷ groups) r a e = elim (Bool-cases (bytes_eq k r.result_hash)) [
  | inl same ↦ rw same a
  | inr other ↦ rw other (a.0, All-key-join h groups r a.1 e)
]

Distinct-join :
    (groups : List (Bytes × List WorkerResult)) (r : WorkerResult)
    → Distinct groups
    → Distinct (join groups r)
unfolding join
Distinct-join [] r d = (tt, tt)
Distinct-join ((k, g) ∷ groups) r d = elim (Bool-cases (bytes_eq k r.result_hash)) [
  | inl same ↦ rw same d
  | inr other ↦ rw other (All-key-join k groups r d.0 other, Distinct-join groups r d.1)
]

Distinct-group_from :
    (groups : List (Bytes × List WorkerResult)) (rs : List WorkerResult)
    → Distinct groups
    → Distinct (group_from groups rs)
unfolding group_from
Distinct-group_from groups [] d = d
Distinct-group_from groups (r ∷ rs) d =
    Distinct-group_from (join groups r) rs (Distinct-join groups r d)

-- In a list of distinct groups each is the one that its hash finds.
module _ (k : Bytes) (g : List WorkerResult) (rest : List (Bytes × List WorkerResult)) where
  All-found_behind :
      (xs : List (Bytes × List WorkerResult))
      → All (λ x. bytes_eq k x.0 ≡ false) xs
      → All (λ x. x.1 ≡ lookup_group x.0 rest) xs
      → All (λ x. x.1 ≡ lookup_group x.0 ((k, g) ∷ rest)) xs
  unfolding lookup_group
  All-found_behind [] a b = tt
  All-found_behind (x ∷ xs) a b = (rw a.0 b.0, All-found_behind xs a.1 b.1)

All-found :
    (groups : List (Bytes × List WorkerResult))
    → Distinct groups
    → All (λ x. x.1 ≡ lookup_group x.0 groups) groups
All-found [] d = tt
All-found ((k, g) ∷ rest) d = (
  unfold lookup_group in rw (bytes_eq_refl k) refl,
  All-found_behind k g rest rest d.0 (All-found rest d.1),
)

pub All-votes-group_by : (rs : List WorkerResult) → All (λ x. x.1 ≡ votes x.0 rs) (group_by rs)
All-votes-group_by rs =
    restate (group_by rs) (All-found _ (unfold group_by in Distinct-group_from [] rs tt))
  where
    restate :
        (xs : List (Bytes × List WorkerResult))
        → All (λ x. x.1 ≡ lookup_group x.0 (group_by rs)) xs
        → All (λ x. x.1 ≡ votes x.0 rs) xs
    restate [] a = tt
    restate (x ∷ xs) a = (a.0 ∙ lookup_group-group_by x.0 rs, restate xs a.1)

module _ (P : Bytes × List WorkerResult → Type 0) where
  All-insert_group :
      (x : Bytes × List WorkerResult) (xs : List (Bytes × List WorkerResult))
      → P x
      → All P xs
      → All P (insert_group x xs)
  unfolding insert_group
  All-insert_group x [] p a = (p, tt)
  All-insert_group (h, g) ((k, f) ∷ xs) p a = elim (Bool-cases (ltb (length g) (length f))) [
    | inl less ↦ rw less (a.0, All-insert_group (h, g) xs p a.1)
    | inr more ↦ rw more (p, a)
  ]

  pub All-sort_groups : (xs : List (Bytes × List WorkerResult)) → All P xs → All P (sort_groups xs)
  unfolding sort_groups
  All-sort_groups [] a = tt
  All-sort_groups (x ∷ xs) a = All-insert_group x (sort_groups xs) a.0 (All-sort_groups xs a.1)

abbrev pub longest : List (Bytes × List WorkerResult) → ℕ
longest [] = 0
longest ((h, g) ∷ xs) = length g

longest-insert_group :
    (x : Bytes × List WorkerResult) (xs : List (Bytes × List WorkerResult))
    → (length x.1 ≤ longest (insert_group x xs)) × (longest xs ≤ longest (insert_group x xs))
unfolding insert_group
longest-insert_group x [] = omega arith
longest-insert_group (h, g) ((k, f) ∷ xs) = ground arith

pub lookup_group-le-longest :
    (h : Bytes) (xs : List (Bytes × List WorkerResult))
    → length (lookup_group h xs) ≤ longest (sort_groups xs)
unfolding lookup_group sort_groups
lookup_group-le-longest h [] = omega arith
lookup_group-le-longest h ((k, g) ∷ xs) =
    ground (arith, longest-insert_group (k, g) (sort_groups xs), lookup_group-le-longest h xs)
