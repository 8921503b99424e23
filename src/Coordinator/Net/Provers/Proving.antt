-- ===== src/Coordinator/Net/Provers/Proving.antt =====
-- crates/coordinator/src/net.rs: `prove_one` and a round of `proving_worker`.
use provework.Prelude.{
  Bytes, Option, none, some, List, ◌++◌, Bool, true, false, text, Result, ok, err,
}
use provework.Jobfmt.{JobManifest, is_sp1_v2}
use provework.Contentstore.{Disk, StoreError, join}
use provework.Coordinator.Dispute.{Attempt, answered, unavailable, lost}
use provework.Coordinator.Quorum.{Decision, reject}
use provework.Coordinator.Zk.Receipt.{Files}
use provework.Coordinator.Zk.Verdict.{ZkJudge, JudgeVerdict, JudgeError, run_judge, judge_decision}
use provework.Coordinator.Zk.Cache.{receipt_cache_key, cache_paths, verify_cached}
use provework.Coordinator.Net.{PendingJob}
use provework.Coordinator.Net.Receipts.{expected_binding}
use provework.Coordinator.Net.Provers.{
  ProofEnv, ProveError, store_error, bad_id, no_manifest, bad_manifest, no_return, is_unending,
  judge_error, panicked, read_manifest, work_dir, place_job,
}

module _ (env : ProofEnv) where
  module _ (zk : ZkJudge) (job : PendingJob) where
    abbrev pub prove_dir : Bytes
    prove_dir = work_dir env (text "p2pc-zkprove-") job.descriptor.job_id

    -- The sidecar of a receipt that is there, and the copy under the job's id.
    unfoldable pub with_sidecar : (key : Bytes) → Option Bytes → JudgeVerdict → Disk → Disk
    unfolding cache_paths join
    with_sidecar key none v disk = disk
    with_sidecar key (some rd) v disk =
        let path = (cache_paths rd key).0 in
        elim (disk path) [
          | none ↦ disk
          | some _ ↦
              env.copy
                ((env.host.write_all disk ((cache_paths rd key).1)
                  (env.sidecar key job.descriptor.job_id v)).1)
                path (join rd (job.descriptor.job_id ++ text ".receipt.bin"))
        ]

    unfoldable pub as_proof : Result JudgeError Decision → Result ProveError Decision
    as_proof (err e) = err (judge_error e)
    as_proof (ok d) = ok d

    -- The verdict of a fresh proof.
    unfoldable pub finish_proof :
        (key : Bytes)
        → Option Bytes
        → (binding : List Bytes) (v2 : Bool) → Result JudgeError JudgeVerdict
        → Files
        → Result ProveError Decision × Files
    unfolding with_sidecar as_proof judge_decision
    finish_proof key receipt_dir binding v2 (err e) files = (err (judge_error e), files)
    finish_proof key receipt_dir binding v2 (ok v) files = (
      as_proof (judge_decision env.sha256 v binding v2),
      record files {
        disk = with_sidecar key receipt_dir v (env.remove_dir_all files.disk prove_dir);
      },
    )

    -- `receipt_dir.as_ref().map(..)`
    abbrev pub receipt_out : Bytes → Option Bytes → Option Bytes
    receipt_out key none = none
    receipt_out key (some rd) = some ((cache_paths rd key).0)

    unfoldable pub prove_fresh :
        (key : Bytes)
        → Option Bytes
        → (binding : List Bytes) (v2 : Bool) → Files
        → Result ProveError Decision × Files
    unfolding finish_proof run_judge
    prove_fresh key receipt_dir binding v2 files =
        let (verdict, disk) =
          run_judge env.parse_judge env.host env.parent zk files.disk prove_dir
            (receipt_out key receipt_dir) in
        finish_proof key receipt_dir binding v2 verdict (record files { disk = disk })

    -- What a look at the cache leads to.
    unfoldable pub after_cache :
        (key receipt_dir : Bytes) (binding : List Bytes) (v2 : Bool)
        → Attempt Decision × Files
        → Result ProveError Decision × Files
    unfolding prove_fresh
    after_cache key receipt_dir binding v2 (lost, files) = (err no_return, files)
    after_cache key receipt_dir binding v2 (answered d, files) =
        (ok d, record files { disk = env.remove_dir_all files.disk prove_dir })
    after_cache key receipt_dir binding v2 (unavailable, files) =
        prove_fresh key (some receipt_dir) binding v2 files

    unfoldable pub prove_keyed :
        Option Bytes
        → Option Bytes
        → (binding : List Bytes) (v2 : Bool) → Files
        → Result ProveError Decision × Files
    unfolding after_cache verify_cached
    prove_keyed none receipt_dir binding v2 files = (err panicked, files)
    prove_keyed (some key) none binding v2 files = prove_fresh key none binding v2 files
    prove_keyed (some key) (some rd) binding v2 files =
        after_cache key rd binding v2
          (verify_cached env.sha256 v2 env.host env.parse_verdict zk binding rd key files)

    unfoldable pub prove_bound :
        Option (List Bytes)
        → Result ProveError JobManifest
        → Files
        → Result ProveError Decision × Files
    unfolding prove_keyed receipt_cache_key
    prove_bound none m files = (err bad_id, files)
    prove_bound (some binding) (err e) files = (err e, files)
    prove_bound (some binding) (ok m) files =
        prove_keyed (receipt_cache_key env.blake3 job.descriptor) zk.receipt_dir binding
          (is_sp1_v2 m) files

    unfoldable pub prove_placed :
        Result StoreError Unit × Disk → Files → Result ProveError Decision × Files
    unfolding prove_bound read_manifest
    prove_placed (err e, left) files = (err (store_error e), record files { disk = left })
    prove_placed (ok done, placed) files =
        prove_bound (expected_binding job) (read_manifest env.parse_manifest placed prove_dir)
          (record files { disk = placed })

    unfoldable pub prove_one : Files → Result ProveError Decision × Files
    unfolding prove_placed place_job
    prove_one files =
        let emptied = env.remove_dir_all files.disk prove_dir in
        prove_placed (place_job env prove_dir job emptied) files

    -- Whether the proving thread is lost in a round, to a panic or to a process that never ends.
    abbrev pub is_lost : ProveError → Bool
    is_lost panicked = true
    is_lost no_return = true
    is_lost (judge_error e) = is_unending e
    is_lost (store_error e) = false
    is_lost bad_id = false
    is_lost no_manifest = false
    is_lost bad_manifest = false

    -- A round of `proving_worker`: an error is a rejection with its message; none where the thread is lost.
    unfoldable pub proved :
        (explain : ProveError → Bytes) → Result ProveError Decision → Option Decision
    proved explain (ok d) = some d
    proved explain (err e) = elim (is_lost e) [
      | true ↦ none
      | false ↦ some (reject (text "zk proving failed: " ++ explain e))
    ]
