-- ===== src/Coordinator/Quorum/Workers.antt =====
-- One vote for each worker in `decide`, and what `slashing` pays for the messages that arrive.
use provework.Prelude.{
  ℕ, ◌+◌, ◌%◌, ◌^◌, Bytes, Option, some, List, [], ◌∷◌, ◌++◌, Bool, true, false, ◌≡◌, refl, ap, ◌∙◌,
  arith, if◌then◌else◌, ◌||◌, bytes_eq, bytes_eq_refl, bytes_eq_iff, filter, Bool-cases, inl, inr,
  ◌⊎◌,
}
use provework.Jobfmt.{WorkerResult}
use provework.Coordinator.Quorum.{
  accept, contains, dedup, is_halted, decide, slashing, reward, burn,
}
use provework.Coordinator.Ledger.Balances.{delta_sum, delta_sum-append}
use provework.Coordinator.Quorum.Decide.{ballots, ids}
use provework.Coordinator.Quorum.Outcomes.{decide-accept_sound}

-- No two entries are the same worker.
abbrev pub Unique : List Bytes → Type 0
Unique [] = Unit
Unique (x ∷ xs) = (contains xs x ≡ false) × Unique xs

||_left : (a b : Bool) → (a || b) ≡ false → a ≡ false
||_left a b h = ground arith

||_right : (a b : Bool) → (a || b) ≡ false → b ≡ false
||_right a b h = ground arith

||_false : (a b : Bool) → a ≡ false → b ≡ false → (a || b) ≡ false
||_false a b p q = ground arith

||_drop : (a b c : Bool) → a ≡ false → ((a || b) ≡ true) ⊎ (c ≡ true) → (b ≡ true) ⊎ (c ≡ true)
||_drop a b c p h = ground arith

||_shift : (a b c : Bool) → ((a || b) ≡ true) ⊎ (c ≡ true) → (b ≡ true) ⊎ ((a || c) ≡ true)
||_shift a b c h = ground arith

-- No worker of the list is among those seen.
abbrev Apart : List Bytes → List Bytes → Type 0
Apart seen [] = Unit
Apart seen (x ∷ xs) = (contains seen x ≡ false) × Apart seen xs

Apart-tail : (s : Bytes) (seen xs : List Bytes) → Apart (s ∷ seen) xs → Apart seen xs
Apart-tail s seen [] h = tt
Apart-tail s seen (x ∷ xs) h = (||_right _ _ h.0, Apart-tail s seen xs h.1)

Apart-head : (s : Bytes) (seen xs : List Bytes) → Apart (s ∷ seen) xs → contains xs s ≡ false
Apart-head s seen [] h = refl
Apart-head s seen (x ∷ xs) h =
    ground (arith, bytes_eq_iff x s, bytes_eq_iff s x, h.0, Apart-head s seen xs h.1)

dedup-Apart : (seen : List Bytes) (rs : List WorkerResult) → Apart seen (ids (dedup seen rs))
unfolding dedup
dedup-Apart seen [] = tt
dedup-Apart seen (r ∷ rs) = elim (Bool-cases (contains seen r.worker_id)) [
  | inl old ↦ rw old (dedup-Apart seen rs)
  | inr new ↦ rw new (new, Apart-tail r.worker_id seen _ (dedup-Apart (r.worker_id ∷ seen) rs))
]

dedup-Unique : (seen : List Bytes) (rs : List WorkerResult) → Unique (ids (dedup seen rs))
unfolding dedup
dedup-Unique seen [] = tt
dedup-Unique seen (r ∷ rs) = elim (Bool-cases (contains seen r.worker_id)) [
  | inl old ↦ rw old (dedup-Unique seen rs)
  | inr new ↦ rw new (
    Apart-head r.worker_id seen _ (dedup-Apart (r.worker_id ∷ seen) rs),
    dedup-Unique (r.worker_id ∷ seen) rs,
  )
]

contains-filter :
    (p : WorkerResult → Bool) (x : Bytes) (rs : List WorkerResult)
    → contains (ids rs) x ≡ false
    → contains (ids (filter p rs)) x ≡ false
contains-filter p x [] h = refl
contains-filter p x (r ∷ rs) h = elim (Bool-cases (p r)) [
  | inl kept ↦ rw kept (||_false _ _ (||_left _ _ h) (contains-filter p x rs (||_right _ _ h)))
  | inr gone ↦ rw gone (contains-filter p x rs (||_right _ _ h))
]

Unique-filter :
    (p : WorkerResult → Bool) (rs : List WorkerResult)
    → Unique (ids rs)
    → Unique (ids (filter p rs))
Unique-filter p [] u = tt
Unique-filter p (r ∷ rs) u = elim (Bool-cases (p r)) [
  | inl kept ↦ rw kept (contains-filter p r.worker_id rs u.0, Unique-filter p rs u.1)
  | inr gone ↦ rw gone (Unique-filter p rs u.1)
]

-- The workers that an acceptance names are different workers, however often each one reported.
pub decide-accept_Unique :
    (results : List WorkerResult) (expected : ℕ) {h : Bytes} {o : Option Bytes} {a : List Bytes}
    {z : Bool}
    → decide results expected ≡ some (accept h o a z)
    → Unique a
decide-accept_Unique results expected {h} e = rw ((decide-accept_sound results expected e).1) (
    Unique-filter (λ r. bytes_eq h r.result_hash) (ballots results)
      (Unique-filter is_halted (dedup [] results) (dedup-Unique [] results)))

dedup-append_seen :
    (seen : List Bytes) (rs : List WorkerResult) (r : WorkerResult)
    → (contains (ids rs) r.worker_id ≡ true) ⊎ (contains seen r.worker_id ≡ true)
    → dedup seen (rs ++ r ∷ []) ≡ dedup seen rs
unfolding dedup
dedup-append_seen seen [] r (inl h) = cc
dedup-append_seen seen [] r (inr h) = rw h refl
dedup-append_seen seen (x ∷ rs) r h = elim (Bool-cases (contains seen x.worker_id)) [
  | inl old ↦ rw old (dedup-append_seen seen rs r (old_case old h))
  | inr new ↦ rw new (
      ap (λ (t : List WorkerResult). x ∷ t)
        (dedup-append_seen (x.worker_id ∷ seen) rs r (new_case h)))
]
  where
    old_case :
        contains seen x.worker_id ≡ true
        → (contains (ids (x ∷ rs)) r.worker_id ≡ true) ⊎ (contains seen r.worker_id ≡ true)
        → (contains (ids rs) r.worker_id ≡ true) ⊎ (contains seen r.worker_id ≡ true)
    old_case old h = elim (Bool-cases (bytes_eq r.worker_id x.worker_id)) [
      | inl same ↦ inr (rw ((bytes_eq_iff r.worker_id x.worker_id).0 same) old)
      | inr other ↦ ||_drop _ _ _ other h
    ]

    new_case :
        (contains (ids (x ∷ rs)) r.worker_id ≡ true) ⊎ (contains seen r.worker_id ≡ true)
        → (contains (ids rs) r.worker_id ≡ true)
          ⊎ (contains (x.worker_id ∷ seen) r.worker_id ≡ true)
    new_case h = ||_shift _ _ _ h

-- A further message of a worker that has reported already changes no decision.
pub decide-append_duplicate :
    (results : List WorkerResult) (r : WorkerResult) (expected : ℕ)
    → contains (ids results) r.worker_id ≡ true
    → decide (results ++ r ∷ []) expected ≡ decide results expected
unfolding decide
decide-append_duplicate results r expected h = rw (dedup-append_seen [] results r (inl h)) refl

slashing-append :
    (h : Bytes) (o : Option Bytes) (a : List Bytes) (z : Bool) (rs : List WorkerResult)
    (r : WorkerResult)
    → contains a r.worker_id ≡ true
    → slashing (accept h o a z) (rs ++ r ∷ [])
      ≡ slashing (accept h o a z) rs ++ (r.worker_id, reward) ∷ []
unfolding slashing
slashing-append h o a z [] r c = rw c refl
slashing-append h o a z (x ∷ rs) r c =
    ap
      (λ (t : List (Bytes × ℕ)). (x.worker_id, if contains a x.worker_id then reward else burn) ∷ t)
      (slashing-append h o a z rs r c)

-- `slashing` pays each message and not each worker: where a worker that an acceptance names reports
-- once more, the decision stays the same and the worker is rewarded a second time.
pub slashing_pays_duplicates :
    (results : List WorkerResult) (r : WorkerResult) (expected : ℕ) {h : Bytes} {o : Option Bytes}
    {a : List Bytes} {z : Bool}
    → decide results expected ≡ some (accept h o a z)
    → contains a r.worker_id ≡ true
    → contains (ids results) r.worker_id ≡ true
    → (decide (results ++ r ∷ []) expected ≡ some (accept h o a z))
      × (delta_sum r.worker_id (slashing (accept h o a z) (results ++ r ∷ []))
          ≡ (delta_sum r.worker_id (slashing (accept h o a z) results) + 10) % 2 ^ 64)
slashing_pays_duplicates results r expected {h} {o} {a} {z} e c seen = (
  decide-append_duplicate results r expected seen ∙ e,
  rw (slashing-append h o a z results r c) (
      delta_sum-append r.worker_id (slashing (accept h o a z) results) r.worker_id reward
      ∙ rw (bytes_eq_refl r.worker_id) refl),
)
