-- ===== src/Coordinator/Net/Finish.antt =====
-- crates/coordinator/src/net.rs: the completion of a job, the two network judges, and
-- `finish_decided_job`. What the judges find when they run a job again is an interface: the decision
-- of the proved verdict, and the digest and the output of a full replay; either judge may not be available,
-- or never give the thread back.
pub mod Judged
use provework.Prelude.{
  ℕ, ◌+◌, Bytes, Option, none, some, List, [], ◌∷◌, ◌++◌, map, Bool, true, false, not, ◌&&◌,
  if◌then◌else◌, any, bytes_eq, filter, length, text, bytes_eq_refl,
}
use provework.Jobfmt.{WorkerResult}
use provework.Coordinator.Quorum.{
  Decision, accept, escalate, reject, contains, decide, slashing, bytes_list_eq,
}
use provework.Coordinator.Dispute.{Attempt, answered, unavailable, lost}
use provework.Coordinator.Ledger.{finish_ledger}
use provework.Coordinator.Net.{
  ServeConfig, Conn, PendingJob, JobOutcome, Server, map_or, find_conn, send, job_outcome,
  between_jobs, shut_down, Message,
}
use provework.Coordinator.Net.Dispatch.{all_in}

pub record Courts : Type 0 where
  pub by_proof : PendingJob → Attempt Decision
  pub by_replay : PendingJob → Attempt (Bytes × Bytes)

-- Whether the chain of a result is the judge's digest alone.
abbrev pub has_digest : Bytes → WorkerResult → Bool
has_digest digest r = bytes_list_eq r.chunk_hashes (digest ∷ [])

-- The workers with the judge's digest, each once.
unfoldable pub vindicated : Bytes → List Bytes → List WorkerResult → List Bytes
vindicated digest agreed [] = agreed
vindicated digest agreed (r ∷ rs) =
    vindicated digest
      (if has_digest digest r && not (contains agreed r.worker_id)
        then agreed ++ r.worker_id ∷ []
        else agreed)
      rs

-- `judge_by_replay_network`, from the replay on.
unfoldable pub replay_verdict : Courts → PendingJob → Attempt Decision
unfolding vindicated
replay_verdict courts job = elim (courts.by_replay job) [
  | unavailable ↦ unavailable
  | lost ↦ lost
  | answered (digest, output_hex) ↦
      answered (accept digest (some output_hex) (vindicated digest [] job.results) false)
]

-- `zk_judge_network`, from the verdict on: a proved acceptance names the workers that match it.
unfoldable pub with_matching : PendingJob → Decision → Decision
with_matching job (accept hash output_hex agreed true) =
    accept hash output_hex (map (λ r. r.worker_id) (filter (has_digest hash) job.results)) true
with_matching job (accept hash output_hex agreed false) = accept hash output_hex agreed false
with_matching job escalate = escalate
with_matching job (reject reason) = reject reason

unfoldable pub proof_verdict : Courts → PendingJob → Attempt Decision
unfolding with_matching
proof_verdict courts job = elim (courts.by_proof job) [
  | unavailable ↦ unavailable
  | lost ↦ lost
  | answered d ↦ answered (with_matching job d)
]

abbrev pub judgment_failed : Bytes
judgment_failed = text "no majority; dispute judgment failed"

-- The judges of a job without a majority: the proof first, then the replay; none where one of
-- them is lost, and the server with it.
unfoldable pub arbitrate : Courts → PendingJob → Option Decision
unfolding replay_verdict proof_verdict
arbitrate courts job = elim (proof_verdict courts job) [
  | answered d ↦ some d
  | lost ↦ none
  | unavailable ↦ elim (replay_verdict courts job) [
    | answered d ↦ some d
    | unavailable ↦ some (reject judgment_failed)
    | lost ↦ none
  ]
]

-- What follows the decision of the quorum.
unfoldable pub after_quorum : Courts → PendingJob → Decision → Option Decision
unfolding arbitrate
after_quorum courts job escalate = arbitrate courts job
after_quorum courts job (accept h o a z) = some (accept h o a z)
after_quorum courts job (reject reason) = some (reject reason)

-- The decision of a finished job: a verified receipt, the quorum, or a judge.
unfoldable pub final_decision : Courts → PendingJob → Option Decision
unfolding after_quorum
final_decision courts job = elim job.zk_accept [
  | some d ↦ some d
  | none ↦ elim (decide job.results (length job.dispatched_ids)) [
    | none ↦ none
    | some d ↦ after_quorum courts job d
  ]
]

-- A message to every connection of a list that is still there.
unfoldable pub notify : Message → List ℕ → Server → Server
notify message [] s = s
notify message (conn ∷ conns) s =
    notify message conns (map_or (find_conn s.conns conn) s (λ c. send conn message s))

-- `broadcast_between_jobs` and `shutdown_all`
unfoldable pub broadcast : Message → Server → Server
unfolding notify
broadcast message s = notify message (map (λ p. p.0) s.conns) s

-- Submitters hear of an acceptance, and of nothing else.
unfoldable pub notify_subscribers : PendingJob → Decision → Server → Server
unfolding notify
notify_subscribers job (accept hash output_hex agreed zk) s =
    notify (job_outcome job.descriptor.job_id hash agreed output_hex zk) job.subscribers s
notify_subscribers job escalate s = s
notify_subscribers job (reject reason) s = s

abbrev pub outcome_of : PendingJob → Decision → JobOutcome
outcome_of job decision = record {
  job_id = job.descriptor.job_id;
  decision = decision;
  results = job.results;
  bond_deltas = slashing decision job.results;
}

-- `finish_decided_job`
unfoldable pub finish_decided_job : ServeConfig → PendingJob → Decision → Server → Server
unfolding notify_subscribers finish_ledger
finish_decided_job cfg job decision s =
    let told = notify_subscribers job decision s in
    let deltas = slashing decision job.results in
    record told {
      ledger_file = finish_ledger cfg.ledger told.ledger_file job.descriptor.job_id deltas;
      outcomes = told.outcomes ++ outcome_of job decision ∷ [];
      jobs_done = told.jobs_done + 1;
    }
