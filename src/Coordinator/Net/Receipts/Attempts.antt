-- ===== src/Coordinator/Net/Receipts/Attempts.antt =====
-- One attempt at a receipt claim for each worker.
use provework.Prelude.{
  Bytes, List, [], ◌∷◌, ◌++◌, true, ◌≡◌, refl, arith, Bool-cases, inl, inr, bytes_eq_refl,
}
use provework.Coordinator.Quorum.{contains}
use provework.Coordinator.Net.{PendingJob}
use provework.Coordinator.Net.Receipts.{Verifier, claim, claimable, receipt_claim_gate}

-- A claim of a worker that has claimed before changes nothing.
claim_repeated :
    (verifier : Verifier) (wid job_id receipt : Bytes) (job : PendingJob)
    → contains job.receipt_claimed wid ≡ true
    → claim verifier wid job_id receipt job ≡ job
unfolding claim receipt_claim_gate
claim_repeated verifier wid job_id receipt job old = elim (Bool-cases (claimable job wid job_id)) [
  | inl due ↦ rw (due, old) refl
  | inr out ↦ rw out refl
]

contains-append_self : (xs : List Bytes) (x : Bytes) → contains (xs ++ x ∷ []) x ≡ true
contains-append_self [] x = rw (bytes_eq_refl x) refl
contains-append_self (y ∷ xs) x = ground (arith, contains-append_self xs x)

claim-recorded :
    (verifier : Verifier) (wid job_id receipt : Bytes) (job : PendingJob)
    → claimable job wid job_id ≡ true
    → contains (claim verifier wid job_id receipt job).receipt_claimed wid ≡ true
unfolding claim receipt_claim_gate
claim-recorded verifier wid job_id receipt job due =
    elim (Bool-cases (contains job.receipt_claimed wid)) [
      | inl old ↦ rw (due, old) old
      | inr new ↦ rw (due, new) (contains-append_self job.receipt_claimed wid)
    ]

-- After a claim that came to the gate, whatever the verifier made of it, no further claim of that
-- worker has an effect on the job, for whatever job id, with whatever receipt.
pub claim-claim :
    (verifier : Verifier) (wid job_id receipt job_id' receipt' : Bytes) (job : PendingJob)
    → claimable job wid job_id ≡ true
    → claim verifier wid job_id' receipt' (claim verifier wid job_id receipt job)
      ≡ claim verifier wid job_id receipt job
claim-claim verifier wid job_id receipt job_id' receipt' job due =
    claim_repeated verifier wid job_id' receipt' _
      (claim-recorded verifier wid job_id receipt job due)
