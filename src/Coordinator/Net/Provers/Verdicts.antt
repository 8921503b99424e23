-- ===== src/Coordinator/Net/Provers/Verdicts.antt =====
-- crates/coordinator/src/net.rs: what a decision of the zk judge of the server rests on.
use provework.Prelude.{
  Result-cases, Bytes, Option, none, some, List, ◌≡◌, refl, ap, ◌∙◌, Result, ok, err, inl, inr,
  Bool-cases,
}
use provework.Jobfmt.{JobManifest, is_sp1_v2}
use provework.Contentstore.{Disk, StoreError}
use provework.Contentstore.Memory.{IsWriter}
use provework.Coordinator.Dispute.{answered}
use provework.Coordinator.Quorum.{Decision}
use provework.Coordinator.Zk.Verdict.{ZkJudge, JudgeVerdict, JudgeError, run_judge, judge_decision}
use provework.Coordinator.Zk.Verdict.Bound.{IsImplied, judge_decision_sound}
use provework.Coordinator.Zk.Verdict.Ran.{IsRun, run_judge_sound}
use provework.Coordinator.Net.{PendingJob}
use provework.Coordinator.Net.Receipts.{expected_binding}
use provework.Coordinator.Net.Provers.{is_unending, ProofEnv, ProveError, read_manifest, place_job}
use provework.Coordinator.Net.Provers.Proved.{Ids, expected_binding-Ids, length-binding}
use provework.Coordinator.Net.Provers.Replays.{IsPlaced, place_job_sound}
use provework.Coordinator.Net.Provers.Disputes.{
  judge_dir, evidence_path, verdict_decision, prove_placed_dispute, dispute_by_proof,
}

module _ (env : ProofEnv) (zk : ZkJudge) (job : PendingJob) where
  -- The run of the judge behind a decision: it ran on the files of the job, and its verdict names the
  -- job's ids and implies the decision.
  pub record IsJudged (start : Disk) (d : Decision) : Type 0 where
    pub placed : Disk
    pub left : Disk
    pub binding : List Bytes
    pub manifest : JobManifest
    pub verdict : JudgeVerdict
    pub files : IsPlaced env job (judge_dir env job) start placed
    pub ids : Ids job.descriptor binding
    pub read : read_manifest env.parse_manifest left (judge_dir env job) ≡ ok manifest
    pub run :
        IsRun env.parse_judge env.host env.parent zk placed
          (judge_dir env job)
          (evidence_path env job zk.receipt_dir)
          verdict
    pub implied : IsImplied env.sha256 verdict binding (is_sp1_v2 manifest) d

  answered_injective : (x d : Decision) → answered x ≡ answered d → x ≡ d
  answered_injective x d h = cc

  verdict_decision-answered :
      (o : Option (List Bytes)) (m : Result ProveError JobManifest)
      (r : Result JudgeError JudgeVerdict) {d : Decision}
      → verdict_decision env o m r ≡ answered d
      → (binding : List Bytes) × (manifest : JobManifest) × (v : JudgeVerdict) × (o ≡ some binding)
        × (m ≡ ok manifest)
        × (r ≡ ok v)
        × (judge_decision env.sha256 v binding (is_sp1_v2 manifest) ≡ ok d)
  unfolding verdict_decision
  verdict_decision-answered o m (err e) h = elim (Bool-cases (is_unending e)) [
    | inl endless ↦ absurd (cc (rw (verdict_decision, endless) at h))
    | inr ended ↦ absurd (cc (rw (verdict_decision, ended) at h))
  ]
  verdict_decision-answered none m (ok v) h = absurd cc
  verdict_decision-answered (some binding) (err e) (ok v) h = absurd cc
  verdict_decision-answered (some binding) (ok m) (ok v) {d} h =
      elim (Result-cases (judge_decision env.sha256 v binding (is_sp1_v2 m))) [
        | inl (e, p) ↦ absurd (cc (rw (verdict_decision, p) at h))
        | inr (x, p) ↦ (
          binding,
          m,
          v,
          refl,
          refl,
          refl,
          p ∙ ap ok (answered_injective x d (rw (verdict_decision, p) at h)),
        )
      ]

  prove_placed_dispute-IsJudged :
      (start : Disk) (r : Result StoreError Unit × Disk) {d : Decision}
      → IsWriter env.store.write
      → place_job env (judge_dir env job) job start ≡ r
      → (prove_placed_dispute env zk job r).0 ≡ answered d
      → IsJudged start d
  unfolding prove_placed_dispute
  prove_placed_dispute-IsJudged start (err e, left) law w h = absurd cc
  prove_placed_dispute-IsJudged start (ok tt, placed) law w h =
      let (binding, m, v, b, r, run, j) = verdict_decision-answered (expected_binding job) _ _ h in
      let ids = expected_binding-Ids job b in
      record {
        placed = placed;
        left =
            (run_judge env.parse_judge env.host env.parent zk placed (judge_dir env job)
              (evidence_path env job zk.receipt_dir)).1;
        binding = binding;
        manifest = m;
        verdict = v;
        files = place_job_sound env job (judge_dir env job) start law w;
        ids = ids;
        read = r;
        run =
            run_judge_sound env.parse_judge env.host env.parent zk placed (judge_dir env job)
              (evidence_path env job zk.receipt_dir) run;
        implied =
            judge_decision_sound env.sha256 v binding (is_sp1_v2 m)
              (length-binding env zk job binding ids) j;
      }

  -- The zk judge of the server decides a dispute only where a run of the external judge, on the job's
  -- blobs as the store has them under the descriptor's hashes, ended with a verdict for the job's ids,
  -- and as the status in that verdict says.
  pub dispute_by_proof_sound :
      (disk : Disk) {d : Decision}
      → IsWriter env.store.write
      → (dispute_by_proof env (some zk) disk job).0 ≡ answered d
      → IsJudged (env.remove_dir_all disk (judge_dir env job)) d
  unfolding dispute_by_proof
  dispute_by_proof_sound disk law h = prove_placed_dispute-IsJudged _ _ law refl h
