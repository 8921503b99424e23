-- ===== src/Coordinator/Net/Provers/Arbitrated.antt =====
-- crates/coordinator/src/net.rs: the judgement of a job without a majority, by the judges of the server.
use provework.Prelude.{Bytes, Option, none, some, [], false, ◌≡◌, ◌⊎◌}
use provework.Contentstore.{Disk}
use provework.Coordinator.Dispute.{Attempt, unavailable, lost}
use provework.Coordinator.Quorum.{Decision, accept, reject}
use provework.Coordinator.Zk.Verdict.{ZkJudge}
use provework.Coordinator.Net.{PendingJob}
use provework.Coordinator.Net.Finish.{vindicated, with_matching, judgment_failed}
use provework.Coordinator.Net.Provers.{ProofEnv}
use provework.Coordinator.Net.Provers.Disputes.{
  judge_dir, replay_dir, dispute_by_proof, dispute_by_replay,
}
use provework.Coordinator.Net.Provers.Replays.{IsReplayed}
use provework.Coordinator.Net.Provers.Verdicts.{IsJudged}

module _ (env : ProofEnv) (zk : Option ZkJudge) (disk : Disk) (job : PendingJob) where
  -- The zk judge's attempt, and the replay judge's on the disk that it leaves.
  abbrev pub first_attempt : Attempt Decision
  first_attempt = (dispute_by_proof env zk disk job).0

  abbrev pub disk_between : Disk
  disk_between = (dispute_by_proof env zk disk job).1

  abbrev pub second_attempt : Attempt (Bytes × Bytes)
  second_attempt = dispute_by_replay env disk_between job

  -- A proved verdict for the job, naming the workers that match it.
  abbrev pub ByProof : Option Decision → Type 0
  ByProof decision =
      (judge : ZkJudge) × (d : Decision) × (zk ≡ some judge)
      × (decision ≡ some (with_matching job d))
      × IsJudged env judge job (env.remove_dir_all disk (judge_dir env job)) d

  -- A replay of the job, naming the workers with its digest.
  abbrev pub ByReplay : Option Decision → Type 0
  ByReplay decision =
      (digest : Bytes) × (output_hex : Bytes) × (decision
        ≡ some (accept digest (some output_hex) (vindicated digest [] job.results) false))
      × IsReplayed env job (env.remove_dir_all disk_between (replay_dir env job)) digest output_hex

  -- What a judgement may be: a proved verdict, or where the zk judge is not available a replay, or where
  -- the replay is not available either a rejection; and none where the judge that is asked is lost.
  abbrev pub IsJudgement : Option Decision → Type 0
  IsJudgement decision =
      ByProof decision
      ⊎ (((first_attempt ≡ lost) × (decision ≡ none))
          ⊎ ((first_attempt ≡ unavailable)
              × (ByReplay decision
                  ⊎ (((second_attempt ≡ unavailable) × (decision ≡ some (reject judgment_failed)))
                      ⊎ ((second_attempt ≡ lost) × (decision ≡ none))))))
