-- ===== src/Coordinator/Net/Provers.antt =====
-- crates/coordinator/src/net.rs: `proving_worker` and `prove_one`, and the two network judges
-- `zk_judge_network` and `judge_by_replay_network` up to the results of the workers. The file system is
-- one disk, which the calls of the operating system change; what a materialized job writes is laid on
-- it, and the reads that follow see it.
pub mod Proving
pub mod Proved
pub mod Disputes
pub mod Replays
pub mod Verdicts
pub mod Arbitrated
mod Examples
use provework.Prelude.{
  ℕ, Bytes, Option, none, some, List, [], ◌∷◌, ◌++◌, Bool, true, false, if◌then◌else◌, text,
  bytes_eq, decimal, lower_hex, Result, ok, err,
}
use provework.Jobfmt.{JobManifest, is_sp1_v2}
use provework.Contentstore.{Disk, StoreError, join, materialize}
use provework.Contentstore.Memory.{put_file}
use provework.Rvcore.Elf.{ElfImage, ElfError, parse}
use provework.Coordinator.Quorum.{Decision, reject}
use provework.Coordinator.Dispute.Reexecution.{replay_journal}
use provework.Coordinator.Zk.Process.{Host}
use provework.Coordinator.Zk.Receipt.{Files, Verdict}
use provework.Coordinator.Zk.Verdict.{
  ZkJudge, JudgeVerdict, JudgeError, no_answer, digest_hex, run_judge, judge_decision,
}
use provework.Coordinator.Zk.Cache.{receipt_cache_key, cache_paths, verify_cached}
use provework.Coordinator.Net.{PendingJob}
use provework.Coordinator.Net.Uploads.{StoreEnv}
use provework.Coordinator.Net.Receipts.{expected_binding}
use provework.Coordinator.Net.Finish.{Courts}

-- What the provers call that is not under the repository's own code: the hashes, the JSON of a manifest
-- and of the two verdicts, the parent of a path, and the file system.
pub record ProofEnv : Type 0 where
  pub host : Host
  pub blake3 : Bytes → Bytes
  pub sha256 : Bytes → Bytes
  pub store : StoreEnv
  pub parse_manifest : Bytes → Option JobManifest
  pub parse_verdict : Bytes → Option Verdict
  pub parse_judge : Bytes → Option JudgeVerdict
  pub parent : Bytes → Option Bytes
  pub remove_dir_all : Disk → Bytes → Disk
  pub copy : Disk → (from to : Bytes) → Disk
  -- The JSON of a sidecar: the key, the job and its proof.
  pub sidecar : (key job_id : Bytes) → JudgeVerdict → Bytes

pub data ProveError : Type 0 where
  store_error : StoreError → ProveError
  bad_id : ProveError
  no_manifest : ProveError
  bad_manifest : ProveError
  judge_error : JudgeError → ProveError
  -- `receipt_cache_key` panics.
  panicked : ProveError
  -- The verifier of a cached receipt never ends.
  no_return : ProveError

-- Whether a run of the judge never gives the thread back.
abbrev pub is_unending : JudgeError → Bool
is_unending no_answer = true
is_unending _ = false

-- The manifest in a job's directory.
unfoldable pub read_manifest :
    (Bytes → Option JobManifest) → Disk → (dir : Bytes) → Result ProveError JobManifest
unfolding join
read_manifest parse_manifest disk dir = elim (disk (join dir (text "job.json"))) [
  | none ↦ err no_manifest
  | some bytes ↦ elim (parse_manifest bytes) [ none ↦ err bad_manifest | some m ↦ ok m ]
]

module _ (env : ProofEnv) where
  -- The directory of a job under a prefix.
  unfoldable pub work_dir : (prefix job_id : Bytes) → Bytes
  unfolding join decimal
  work_dir prefix job_id =
      join env.host.temp_dir (prefix ++ decimal env.host.process_id ++ text "-" ++ job_id)

  -- The files of a job written into a directory.
  unfoldable pub place_job : (dir : Bytes) → PendingJob → Disk → Result StoreError Unit × Disk
  unfolding materialize
  place_job dir job disk =
      materialize env.blake3 env.store.write env.store.root env.parse_manifest
        env.host.create_dir_all disk job.descriptor dir
