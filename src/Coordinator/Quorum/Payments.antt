-- ===== src/Coordinator/Quorum/Payments.antt =====
-- What `slashing` pays for results of different workers.
use provework.Prelude.{
  ℕ, ◌+◌, ◌%◌, ◌^◌, Bytes, Option, List, [], ◌∷◌, Bool, true, false, ◌||◌, ◌≡◌, refl, ◌∙◌, arith,
  if◌then◌else◌, bytes_eq, bytes_eq_iff, Bool-cases, inl, inr,
}
use provework.Jobfmt.{WorkerResult}
use provework.Coordinator.Quorum.{accept, contains, slashing, reward, burn}
use provework.Coordinator.Quorum.Decide.{ids}
use provework.Coordinator.Quorum.Workers.{Unique}
use provework.Coordinator.Ledger.Balances.{delta_sum}

-- What a worker gets for an acceptance that names some workers.
abbrev pub share : List Bytes → Bytes → ℕ
share agreed id = if contains agreed id then reward else burn

share_reduced :
    (b : Bool) → ((if b then reward else burn) + 0) % 2 ^ 64 ≡ (if b then reward else burn)
share_reduced true = refl
share_reduced false = refl

delta_sum-head :
    (id k : Bytes) (d : ℕ) (ds : List (Bytes × ℕ))
    → delta_sum id ((k, d) ∷ ds)
      ≡ (if bytes_eq k id then (d + delta_sum id ds) % 2 ^ 64 else delta_sum id ds)
unfolding delta_sum
delta_sum-head id k d ds = refl

or_parts : (a b : Bool) → (a || b) ≡ false → (a ≡ false) × (b ≡ false)
or_parts a b h = ground arith

or_right : (a b : Bool) → (a || b) ≡ true → a ≡ false → b ≡ true
or_right a b h k = ground arith

flip_eq : (x y : Bytes) (b : Bool) → bytes_eq x y ≡ b → bytes_eq y x ≡ b
flip_eq x y true h = ground (arith, bytes_eq_iff x y, bytes_eq_iff y x)
flip_eq x y false h = ground (arith, bytes_eq_iff x y, bytes_eq_iff y x)

module _ (h : Bytes) (o : Option Bytes) (agreed : List Bytes) (zk : Bool) (id : Bytes) where
  abbrev paid : List WorkerResult → ℕ
  paid rs = delta_sum id (slashing (accept h o agreed zk) rs)

  paid-cons :
      (r : WorkerResult) (rs : List WorkerResult)
      → paid (r ∷ rs) ≡ (
          if bytes_eq r.worker_id id
          then (share agreed r.worker_id + paid rs) % 2 ^ 64
          else paid rs)
  unfolding slashing
  paid-cons r rs = delta_sum-head id r.worker_id (share agreed r.worker_id) _

  paid_absent : (rs : List WorkerResult) → contains (ids rs) id ≡ false → paid rs ≡ 0
  unfolding slashing delta_sum
  paid_absent [] n = refl
  paid_absent (r ∷ rs) n =
      let (here, rest) = or_parts (bytes_eq id r.worker_id) _ n in
      paid-cons r rs ∙ rw (flip_eq id r.worker_id false here) (paid_absent rs rest)

  -- A worker with one result gets one share.
  pub paid_once :
      (rs : List WorkerResult)
      → Unique (ids rs)
      → contains (ids rs) id ≡ true
      → paid rs ≡ share agreed id
  paid_once [] u m = absurd cc
  paid_once (r ∷ rs) u m = elim (Bool-cases (bytes_eq id r.worker_id)) [
    | inl here ↦
        let same : id ≡ r.worker_id = (bytes_eq_iff id r.worker_id).0 here in
        paid-cons r rs
        ∙ rw (flip_eq id r.worker_id true here, paid_absent rs (rw same u.0), same)
            (share_reduced (contains agreed r.worker_id))
    | inr other ↦
        paid-cons r rs
        ∙ rw (flip_eq id r.worker_id false other) (paid_once rs u.1 (or_right _ _ m other))
  ]

  pub paid_total :
      (rs : List WorkerResult)
      → Unique (ids rs)
      → paid rs ≡ (if contains (ids rs) id then share agreed id else 0)
  paid_total rs u = elim (Bool-cases (contains (ids rs) id)) [
    | inl m ↦ rw m (paid_once rs u m)
    | inr n ↦ rw n (paid_absent rs n)
  ]
