-- ===== src/Coordinator/Net/Votes/Fair.antt =====
-- What holds of a pending job's results and receipt claims, and that a vote and a claim keep it.
use provework.Prelude.{
  Bytes, Option, none, some, List, [], ◌∷◌, ◌++◌, Bool, true, false, not, ◌||◌, ◌≡◌, ◌⊎◌, refl, ap,
  ◌∙◌, arith, if◌then◌else◌, any, All, All-append, bytes_eq, bytes_eq_iff, bytes_eq→≡, &&_split,
  Bool-cases, inl, inr,
}
use provework.Jobfmt.{WorkerResult}
use provework.Coordinator.Quorum.{contains}
use provework.Coordinator.Quorum.Decide.{ids}
use provework.Coordinator.Quorum.Workers.{Unique}
use provework.Coordinator.Net.{Crypto, PendingJob}
use provework.Coordinator.Net.Auth.{verify_signature}
use provework.Coordinator.Net.Votes.{votes, shows_prefix, count_vote, with_result}
use provework.Coordinator.Net.Receipts.{Verifier, claim, claimable, receipt_claim_gate}

-- The results of a job are signed, for this job, and of different workers that it was dispatched to;
-- so are the workers that have claimed a receipt. An escalated job has nobody left in reserve.
pub record IsFair (crypto : Crypto) (job : PendingJob) : Type 0 where
  pub unique : Unique (ids job.results)
  pub known : All (λ r. contains job.dispatched_ids r.worker_id ≡ true) job.results
  pub signed : All (λ r. verify_signature crypto r ≡ true) job.results
  pub own_job : All (λ r. r.job_id ≡ job.descriptor.job_id) job.results
  pub claims_unique : Unique job.receipt_claimed
  pub claims_known : All (λ w. contains job.dispatched_ids w ≡ true) job.receipt_claimed
  pub one_round : (job.escalated ≡ false) ⊎ ((job.dispatched ≡ true) × (job.reserves ≡ []))

-- A statement about what is there.
abbrev pub OnSome {ℓ κ} : {A : Type ℓ} → (A → Type κ) → Option A → Type κ
OnSome P none = Unit
OnSome P (some a) = P a

pub contains-append :
    (xs ys : List Bytes) (x : Bytes) → contains xs x ≡ true → contains (xs ++ ys) x ≡ true
contains-append [] ys x h = cc
contains-append (y ∷ xs) ys x h = ground (arith, contains-append xs ys x)

contains-append_last :
    (xs : List Bytes) (y x : Bytes) → contains (xs ++ y ∷ []) x ≡ (contains xs x || bytes_eq x y)
contains-append_last [] y x = ground arith
contains-append_last (z ∷ xs) y x = ground (arith, contains-append_last xs y x)

bytes_eq_apart : (x y : Bytes) → bytes_eq x y ≡ false → bytes_eq y x ≡ false
bytes_eq_apart x y h = ground (arith, bytes_eq_iff x y, bytes_eq_iff y x)

or_false : (a b : Bool) → a ≡ false → b ≡ false → (a || b) ≡ false
or_false a b h k = ground arith

or_parts : (a b : Bool) → (a || b) ≡ false → (a ≡ false) × (b ≡ false)
or_parts a b h = ground arith

pub Unique-append_last :
    (xs : List Bytes) (x : Bytes) → Unique xs → contains xs x ≡ false → Unique (xs ++ x ∷ [])
Unique-append_last [] x u n = (refl, tt)
Unique-append_last (y ∷ xs) x u n =
    let (here, rest) = or_parts (bytes_eq x y) (contains xs x) n in
    (
      contains-append_last xs x y ∙ or_false _ _ u.0 (bytes_eq_apart x y here),
      Unique-append_last xs x u.1 rest,
    )

ids-append :
    (rs : List WorkerResult) (r : WorkerResult) → ids (rs ++ r ∷ []) ≡ ids rs ++ r.worker_id ∷ []
ids-append [] r = refl
ids-append (x ∷ rs) r = ap (λ (t : List Bytes). x.worker_id ∷ t) (ids-append rs r)

voted-contains :
    (rs : List WorkerResult) (wid : Bytes)
    → any (λ x. bytes_eq x.worker_id wid) rs ≡ false
    → contains (ids rs) wid ≡ false
voted-contains [] wid h = refl
voted-contains (x ∷ rs) wid h =
    let (here, rest) = or_parts (bytes_eq x.worker_id wid) _ h in
    or_false _ _ (bytes_eq_apart x.worker_id wid here) (voted-contains rs wid rest)

not-true : (b : Bool) → not b ≡ true → b ≡ false
not-true b h = ground arith

-- The gate keeps claims different and known, and records only those that pass the other gates.
gated :
    (open_gate : Bool) (known claimed : List Bytes) (wid : Bytes)
    → (open_gate ≡ true → contains known wid ≡ true)
    → Unique claimed
    → All (λ w. contains known w ≡ true) claimed
    → Unique (if open_gate then (receipt_claim_gate claimed wid).1 else claimed)
      × All
          (λ w. contains known w ≡ true)
          (if open_gate then (receipt_claim_gate claimed wid).1 else claimed)
unfolding receipt_claim_gate
gated false known claimed wid k u a = (u, a)
gated true known claimed wid k u a = elim (Bool-cases (contains claimed wid)) [
  | inl old ↦ rw old (u, a)
  | inr new ↦
      rw new (Unique-append_last claimed wid u new, All-append _ claimed (wid ∷ []) a (k refl, tt))
]

claimable-known :
    (job : PendingJob) (wid job_id : Bytes)
    → claimable job wid job_id ≡ true
    → contains job.dispatched_ids wid ≡ true
unfolding claimable
claimable-known job wid job_id h = (&&_split _ _ (&&_split _ _ h).1).1

votes-parts :
    (job : PendingJob) (wid : Bytes) (r : WorkerResult)
    → votes job wid r ≡ true
    → (r.job_id ≡ job.descriptor.job_id)
      × (contains job.dispatched_ids wid ≡ true)
      × (contains (ids job.results) wid ≡ false)
unfolding votes
votes-parts job wid r v =
    let (own, rest) = &&_split _ _ v in
    let (dispatched, fresh) = &&_split _ _ rest in
    (bytes_eq→≡ _ _ own, dispatched, voted-contains job.results wid (not-true _ fresh))

module _ (crypto : Crypto) where
  with_result-IsFair :
      (r : WorkerResult) (job : PendingJob)
      → verify_signature crypto r ≡ true
      → votes job r.worker_id r ≡ true
      → IsFair crypto job
      → IsFair crypto (with_result r job)
  with_result-IsFair r job s v f =
      let (own, dispatched, fresh) = votes-parts job r.worker_id r v in
      record {
        unique =
            rw (ids-append job.results r)
              (Unique-append_last (ids job.results) r.worker_id f.unique fresh);
        known = All-append _ job.results (r ∷ []) f.known (dispatched, tt);
        signed = All-append _ job.results (r ∷ []) f.signed (s, tt);
        own_job = All-append _ job.results (r ∷ []) f.own_job (own, tt);
        claims_unique = f.claims_unique;
        claims_known = f.claims_known;
        one_round = f.one_round;
      }

  -- A vote that the gates let through leaves the job fair.
  pub count_vote-IsFair :
      (wid : Bytes) (r : WorkerResult) (job : PendingJob)
      → r.worker_id ≡ wid
      → verify_signature crypto r ≡ true
      → IsFair crypto job
      → OnSome (IsFair crypto) (count_vote wid r job)
  unfolding count_vote
  count_vote-IsFair wid r job w s f = elim (Bool-cases (votes job wid r)) [
    | inr out ↦ rw out f
    | inl counted ↦ elim (Bool-cases (shows_prefix r.result_hash)) [
      | inr panics ↦ rw (counted, panics) tt
      | inl shown ↦ rw (counted, shown) (with_result-IsFair r job s (rw w counted) f)
    ]
  ]

  pub claim-IsFair :
      (verifier : Verifier) (wid job_id receipt : Bytes) (job : PendingJob)
      → IsFair crypto job
      → IsFair crypto (claim verifier wid job_id receipt job)
  unfolding claim
  claim-IsFair verifier wid job_id receipt job f =
      let (u, k) =
        gated (claimable job wid job_id) job.dispatched_ids job.receipt_claimed wid
          (claimable-known job wid job_id) f.claims_unique f.claims_known in
      record {
        unique = f.unique;
        known = f.known;
        signed = f.signed;
        own_job = f.own_job;
        claims_unique = u;
        claims_known = k;
        one_round = f.one_round;
      }

  -- More workers dispatched to leave the job fair, and so does a change of the other fields.
  pub IsFair-same :
      (job job' : PendingJob)
      → IsFair crypto job
      → job'.results ≡ job.results
      → job'.descriptor ≡ job.descriptor
      → job'.receipt_claimed ≡ job.receipt_claimed
      → (more : List Bytes) → job'.dispatched_ids ≡ job.dispatched_ids ++ more
      → (job'.escalated ≡ false) ⊎ ((job'.dispatched ≡ true) × (job'.reserves ≡ []))
      → IsFair crypto job'
  IsFair-same job job' f r d c more i o = record {
    one_round = o;
    unique = rw r f.unique;
    known = rw (r, i) (widen_results job.results f.known);
    signed = rw r f.signed;
    own_job = rw (r, d) f.own_job;
    claims_unique = rw c f.claims_unique;
    claims_known = rw (c, i) (widen job.receipt_claimed f.claims_known);
  }
    where
      widen :
          (ws : List Bytes)
          → All (λ w. contains job.dispatched_ids w ≡ true) ws
          → All (λ w. contains (job.dispatched_ids ++ more) w ≡ true) ws
      widen [] h = tt
      widen (w ∷ ws) h = (contains-append job.dispatched_ids more w h.0, widen ws h.1)

      widen_results :
          (rs : List WorkerResult)
          → All (λ x. contains job.dispatched_ids x.worker_id ≡ true) rs
          → All (λ x. contains (job.dispatched_ids ++ more) x.worker_id ≡ true) rs
      widen_results [] h = tt
      widen_results (x ∷ rs) h =
          (contains-append job.dispatched_ids more x.worker_id h.0, widen_results rs h.1)
