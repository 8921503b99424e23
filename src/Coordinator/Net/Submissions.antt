-- ===== src/Coordinator/Net/Submissions.antt =====
-- crates/coordinator/src/net.rs: `handle_job_submission`. The JSON of a descriptor, whether the file of
-- an accepted descriptor can be created and written, and whether the proving queue runs and takes a
-- job are parameters.
use provework.Prelude.{
  ℕ, Bytes, Option, none, some, List, [], ◌∷◌, ◌++◌, Bool, true, false, not, ◌&&◌, if◌then◌else◌,
  ◌==◌, any, bytes_eq, Result, ok, err,
}
use provework.Jobfmt.Encodings.{submission_message}
use provework.Jobfmt.Confined.{confined_name}
use provework.Contentstore.{ContentId, JobDescriptor, StoreError, slice_panic, content_id, has}
use provework.Coordinator.Net.{
  Crypto, ServeConfig, Conn, PendingJob, Server, map_or, find_conn, send, change_pending,
  submission_ack, new_job,
}
use provework.Coordinator.Net.Auth.{verify_nonce}
use provework.Coordinator.Net.Uploads.{StoreEnv}

pub record SubmitEnv : Type 0 where
  pub descriptor_json : JobDescriptor → Option Bytes
  -- Whether the jobs directory takes the file of a job id.
  pub lands : Bytes → Bool
  pub prover_runs : Bool
  pub queue_open : Bool

-- The key of the connection, where it has one, is the one claimed.
abbrev pub claims_own_key : Conn → Bytes → Bool
claims_own_key c pubkey_hex = map_or c.pubkey true (λ key. bytes_eq key pubkey_hex)

-- The gates before the blobs: the settings, the identity, the signature and the job id.
unfoldable pub submission_admitted :
    Crypto → ServeConfig → SubmitEnv → Conn → JobDescriptor → (pubkey_hex sig_hex : Bytes) → Bool
submission_admitted crypto cfg env c desc pubkey_hex sig_hex =
    cfg.accept_submissions
    && (c.authed
        && (claims_own_key c pubkey_hex
            && (map_or (env.descriptor_json desc) false (λ json.
                  verify_nonce crypto pubkey_hex
                    (submission_message desc.job_id (crypto.blake3 json)) sig_hex)
                && confined_name desc.job_id)))

-- What a look for a blob of the descriptor comes to.
pub data Blob : Type 0 where
  there : Blob
  missing : Blob
  malformed : Blob
  panicking : Blob

abbrev pub look_up : (ContentId → Bool) → Result StoreError ContentId → Blob
look_up present (ok id) = if present id then there else missing
look_up present (err slice_panic) = panicking
look_up present (err _) = malformed

-- The first of a list of blobs that is not there, and `there` where all are.
unfoldable pub look_for : (ContentId → Bool) → List Bytes → Blob
look_for present [] = there
look_for present (hex ∷ hexes) =
    let rest = look_for present hexes in
    elim (look_up present (content_id hex)) [ there ↦ rest | b ↦ b ]

-- `submitter_subs.entry(job_id).or_default().push(conn)`
unfoldable pub subscribe : Bytes → ℕ → List (Bytes × List ℕ) → List (Bytes × List ℕ)
subscribe job_id conn [] = (job_id, conn ∷ []) ∷ []
subscribe job_id conn ((id, conns) ∷ subs) =
    let rest = subscribe job_id conn subs in
    if bytes_eq id job_id then (id, conns ++ conn ∷ []) ∷ subs else (id, conns) ∷ rest

-- A submitter joins the pending job of its id.
unfoldable pub join_subscribers : Bytes → ℕ → PendingJob → PendingJob
join_subscribers job_id conn job = record job {
  subscribers =
      if bytes_eq job.descriptor.job_id job_id && not (any (λ k. k == conn) job.subscribers)
      then job.subscribers ++ conn ∷ []
      else job.subscribers;
}

-- A job of the proving queue: dispatched to nobody.
unfoldable pub proving_job : JobDescriptor → ℕ → PendingJob
unfolding new_job
proving_job desc conn = record (new_job desc none (conn ∷ [])) { dispatched = true }

-- High assurance: the job goes to the proving queue.
unfoldable pub submit_zk : SubmitEnv → (conn : ℕ) → JobDescriptor → Server → Server
unfolding proving_job
submit_zk env conn desc s =
    if not env.prover_runs
    then send conn (submission_ack desc.job_id false false) s
    else if not env.queue_open
    then s
    else send conn (submission_ack desc.job_id true true)
        (record s { proving = s.proving ++ proving_job desc conn ∷ [] })

-- The descriptor lands in the watched directory, and the submitter waits for the outcome.
unfoldable pub submit_queued : SubmitEnv → (conn : ℕ) → JobDescriptor → Server → Server
unfolding subscribe join_subscribers
submit_queued env conn desc s =
    if not (env.lands desc.job_id)
    then s
    else change_pending (join_subscribers desc.job_id conn) (
        send conn (submission_ack desc.job_id true false)
          (record s { submitter_subs = subscribe desc.job_id conn s.submitter_subs }))

unfoldable pub after_blobs :
    SubmitEnv → (conn : ℕ) → JobDescriptor → (require_zk : Bool) → Server → Blob → Option Server
unfolding submit_zk submit_queued
after_blobs env conn desc require_zk s there =
    some (if require_zk then submit_zk env conn desc s else submit_queued env conn desc s)
after_blobs env conn desc require_zk s missing =
    some (send conn (submission_ack desc.job_id false false) s)
after_blobs env conn desc require_zk s malformed = some s
after_blobs env conn desc require_zk s panicking = none

-- `handle_job_submission`
unfoldable pub on_job_submission :
    Crypto
    → ServeConfig
    → StoreEnv
    → SubmitEnv
    → (conn : ℕ) → JobDescriptor
    → (pubkey_hex sig_hex : Bytes) (require_zk : Bool) → Server
    → Option Server
unfolding submission_admitted look_for after_blobs
on_job_submission crypto cfg store env conn desc pubkey_hex sig_hex require_zk s =
    map_or (find_conn s.conns conn) (some s) (λ c.
      if submission_admitted crypto cfg env c desc pubkey_hex sig_hex
      then after_blobs env conn desc require_zk s (
          look_for (has crypto.blake3 store.write store.root s.disk)
            (desc.manifest ∷ desc.elf ∷ desc.input ∷ []))
      else some s)
