-- ===== src/Coordinator/Net/Provers/Disputes.antt =====
-- crates/coordinator/src/net.rs: `zk_judge_network` and `judge_by_replay_network` up to the results of the
-- workers, which Net.Finish compares, and the judges of the server that they make.
use provework.Prelude.{
  ℕ, Bytes, Option, none, some, List, true, false, ◌++◌, if◌then◌else◌, text, lower_hex, Result, ok,
  err,
}
use provework.Jobfmt.{JobManifest, is_sp1_v2}
use provework.Contentstore.{Disk, StoreError, join}
use provework.Rvcore.Elf.{parse}
use provework.Coordinator.Quorum.{Decision}
use provework.Coordinator.Dispute.{Attempt, answered, unavailable, lost}
use provework.Coordinator.Dispute.Reexecution.{replay_journal}
use provework.Coordinator.Zk.Verdict.{
  ZkJudge, JudgeVerdict, JudgeError, digest_hex, run_judge, judge_decision,
}
use provework.Coordinator.Net.{PendingJob}
use provework.Coordinator.Net.Receipts.{expected_binding}
use provework.Coordinator.Net.Finish.{Courts}
use provework.Coordinator.Net.Provers.{
  is_unending, ProofEnv, ProveError, read_manifest, work_dir, place_job,
}

module _ (env : ProofEnv) where
  abbrev pub judge_dir : PendingJob → Bytes
  judge_dir job = work_dir env (text "p2pc-zkjudge-") job.descriptor.job_id

  abbrev pub evidence_path : PendingJob → Option Bytes → Option Bytes
  evidence_path job none = none
  evidence_path job (some rd) = some (join rd (job.descriptor.job_id ++ text ".receipt.bin"))

  -- The decision of a verdict, by the descriptor's ids and the manifest that the judge leaves.
  unfoldable pub verdict_decision :
      Option (List Bytes)
      → Result ProveError JobManifest
      → Result JudgeError JudgeVerdict
      → Attempt Decision
  unfolding judge_decision
  verdict_decision binding m (err e) = elim (is_unending e) [ true ↦ lost | false ↦ unavailable ]
  verdict_decision none m (ok v) = unavailable
  verdict_decision (some binding) (err e) (ok v) = unavailable
  verdict_decision (some binding) (ok m) (ok v) =
      elim (judge_decision env.sha256 v binding (is_sp1_v2 m)) [
        | err e ↦ unavailable
        | ok d ↦ answered d
      ]

  -- `zk_judge_network` on the files of a job, without the workers that match, and the disk that it leaves.
  unfoldable pub prove_placed_dispute :
      ZkJudge → PendingJob → Result StoreError Unit × Disk → Attempt Decision × Disk
  unfolding verdict_decision run_judge read_manifest
  prove_placed_dispute zk job (err e, left) = (unavailable, left)
  prove_placed_dispute zk job (ok done, placed) =
      let (verdict, left) =
        run_judge env.parse_judge env.host env.parent zk placed (judge_dir job)
          (evidence_path job zk.receipt_dir) in
      (
        verdict_decision (expected_binding job)
            (read_manifest env.parse_manifest left (judge_dir job)) verdict,
        env.remove_dir_all left (judge_dir job),
      )

  unfoldable pub dispute_by_proof : Option ZkJudge → Disk → PendingJob → Attempt Decision × Disk
  unfolding prove_placed_dispute place_job
  dispute_by_proof none disk job = (unavailable, disk)
  dispute_by_proof (some zk) disk job =
      prove_placed_dispute zk job
        (place_job env (judge_dir job) job (env.remove_dir_all disk (judge_dir job)))

  abbrev pub replay_dir : PendingJob → Bytes
  replay_dir job = work_dir env (text "p2pc-judge-") job.descriptor.job_id

  -- The digest and the output of a replay.
  unfoldable pub replayed : Attempt (ℕ × Bytes) → Attempt (Bytes × Bytes)
  unfolding digest_hex
  replayed unavailable = unavailable
  replayed lost = lost
  replayed (answered (instructions, output)) =
      answered (digest_hex env.sha256 instructions output, lower_hex output)

  -- The replay of the two files that a manifest names.
  unfoldable pub replay_files : JobManifest → Option Bytes → Option Bytes → Attempt (Bytes × Bytes)
  unfolding replayed
  replay_files m none input = unavailable
  replay_files m (some elf) none = unavailable
  replay_files m (some elf) (some input) = elim (parse elf) [
    | err e ↦ unavailable
    | ok image ↦
        replayed (replay_journal env.blake3 elf image.entry input m.chunk_size m.max_instructions)
  ]

  unfoldable pub replay_manifest :
      Disk → PendingJob → Result ProveError JobManifest → Attempt (Bytes × Bytes)
  unfolding replay_files join
  replay_manifest disk job (err e) = unavailable
  replay_manifest disk job (ok m) =
      if is_sp1_v2 m
      then unavailable
      else replay_files m (disk (join (replay_dir job) m.elf))
          (disk (join (replay_dir job) m.input))

  unfoldable pub replay_placed :
      PendingJob → Result StoreError Unit × Disk → Attempt (Bytes × Bytes)
  unfolding replay_manifest read_manifest
  replay_placed job (err e, left) = unavailable
  replay_placed job (ok done, placed) =
      replay_manifest placed job (read_manifest env.parse_manifest placed (replay_dir job))

  -- `judge_by_replay_network`, up to the results of the workers.
  unfoldable pub dispute_by_replay : Disk → PendingJob → Attempt (Bytes × Bytes)
  unfolding replay_placed place_job
  dispute_by_replay disk job =
      replay_placed job
        (place_job env (replay_dir job) job (env.remove_dir_all disk (replay_dir job)))

  -- The judges of the server, on the disk at the time of the judgement: the replay judge is asked after the
  -- other, and finds the disk as that one left it.
  unfoldable pub network_courts : Option ZkJudge → Disk → Courts
  unfolding dispute_by_proof dispute_by_replay
  network_courts zk disk = record {
    by_proof = λ job. (dispute_by_proof zk disk job).0;
    by_replay = λ job. dispute_by_replay ((dispute_by_proof zk disk job).1) job;
  }
