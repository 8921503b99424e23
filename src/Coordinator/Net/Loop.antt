-- ===== src/Coordinator/Net/Loop.antt =====
-- crates/coordinator/src/net.rs: the event loop of `serve`, one turn at a time. A turn takes what the
-- world answers in it: a connection that the acceptor inserts, what the scan of the jobs directory
-- finds, the random draws, whether the deadline of the job has passed, and the event received. An
-- acceptance falls between two turns, at any place of the map.
pub mod Sound
mod Handlers
mod Jobs
pub mod Reached
use provework.Prelude.{
  ℕ, zero, suc, Bytes, Option, none, some, List, [], ◌∷◌, ◌++◌, Bool, true, false, not, ◌&&◌,
  if◌then◌else◌, leb, bytes_eq,
}
use provework.Jobfmt.{WorkerResult}
use provework.Contentstore.{JobDescriptor}
use provework.Coordinator.Quorum.{Decision}
use provework.Coordinator.Net.{
  Crypto, ServeConfig, Conn, Conns, PendingJob, Server, map_or, find_conn, remove_conn, new_conn,
  new_job, between_jobs, shut_down,
}
use provework.Coordinator.Net.Auth.{on_hello, on_nonce_sig}
use provework.Coordinator.Net.Votes.{on_result}
use provework.Coordinator.Net.Receipts.{Verifier, on_receipt_claim}
use provework.Coordinator.Net.Uploads.{StoreEnv, on_blob_upload, on_blob_request}
use provework.Coordinator.Net.Submissions.{SubmitEnv, on_job_submission}
use provework.Coordinator.Net.Dispatch.{dispatch_job, escalate_job, owes_escalation, all_in}
use provework.Coordinator.Net.Finish.{Courts, final_decision, finish_decided_job, broadcast}

pub data Event : Type 0 where
  hello :
      (conn : ℕ) (pubkey worker_id : Bytes) (listen_port : Option Bytes) (role fresh : Bytes)
      → Event
  nonce_sig : (conn : ℕ) (sig : Option Bytes) (pow_counter : ℕ) → Event
  job_submission :
      (conn : ℕ) → JobDescriptor → (pubkey_hex sig_hex : Bytes) (require_zk : Bool) → Event
  blob_upload : (conn : ℕ) (id_hex bytes_hex : Bytes) → Event
  receipt_claim : (conn : ℕ) (worker_id job_id pubkey_hex sig_hex receipt_hex : Bytes) → Event
  blob_request : (conn : ℕ) (id : Bytes) → Event
  result : (conn : ℕ) → WorkerResult → Event
  closed : (conn : ℕ) → Event
  -- The proving thread delivers the decision of the oldest job of its queue.
  proved : Decision → Event

pub record Env : Type 0 where
  pub crypto : Crypto
  pub cfg : ServeConfig
  pub store : StoreEnv
  pub submit : SubmitEnv
  pub verifier : Verifier
  pub courts : Courts

abbrev pub without_oldest : List PendingJob → Server → Server
without_oldest jobs s = record s { proving = jobs }

-- `Event::Proved`
unfoldable pub on_proved : ServeConfig → Decision → List PendingJob → Server → Server
on_proved cfg decision [] s = s
on_proved cfg decision (job ∷ jobs) s =
    broadcast between_jobs (finish_decided_job cfg job decision (without_oldest jobs s))

abbrev pub drop_conn : ℕ → Server → Server
drop_conn conn s = record s { conns = remove_conn s.conns conn }

-- The dispatch on the event; none is a panic.
unfoldable pub handle : Env → Event → Server → Option Server
unfolding on_proved
handle env (hello conn pubkey worker_id port role fresh) s =
    some (on_hello env.cfg fresh conn pubkey worker_id port role s)
handle env (nonce_sig conn sig counter) s =
    some (on_nonce_sig env.crypto env.cfg conn sig counter s)
handle env (job_submission conn desc key sig zk) s =
    on_job_submission env.crypto env.cfg env.store env.submit conn desc key sig zk s
handle env (blob_upload conn id_hex bytes_hex) s =
    some (on_blob_upload env.crypto env.store conn id_hex bytes_hex s)
handle env (receipt_claim conn wid job_id key sig receipt) s =
    some (on_receipt_claim env.crypto env.cfg env.verifier conn wid job_id key sig receipt s)
handle env (blob_request conn id) s = on_blob_request env.crypto env.store conn id s
handle env (result conn r) s = on_result env.crypto env.cfg conn r s
handle env (closed conn) s = some (drop_conn conn s)
handle env (proved decision) s = some (on_proved env.cfg decision s.proving s)

pub data Scan : Type 0 where
  broken : Scan
  nothing : Scan
  found : JobDescriptor → (targets : Option (List Bytes)) → Scan

pub record Input : Type 0 where
  -- The place in the map, the id, the address and the default worker id of a new connection.
  pub accepted : Option (ℕ × ℕ × Bytes × Bytes)
  pub scan : Scan
  pub draws : List ℕ
  pub late : Bool
  pub event : Option Event

unfoldable pub insert_conn : ℕ → ℕ × Conn → Conns → Conns
insert_conn zero c conns = c ∷ conns
insert_conn (suc n) c [] = c ∷ []
insert_conn (suc n) c (d ∷ conns) = d ∷ insert_conn n c conns

unfoldable pub accept_conn : Option (ℕ × ℕ × Bytes × Bytes) → Server → Server
unfolding insert_conn new_conn
accept_conn none s = s
accept_conn (some (place, id, ip, name)) s = record s {
  conns = insert_conn place (id, new_conn ip name) s.conns;
}

-- The submitters that wait for a job id, and the others.
unfoldable pub waiting_for : Bytes → List (Bytes × List ℕ) → List ℕ
waiting_for job_id [] = []
waiting_for job_id ((id, conns) ∷ subs) =
    let rest = waiting_for job_id subs in if bytes_eq id job_id then conns else rest

unfoldable pub without_job : Bytes → List (Bytes × List ℕ) → List (Bytes × List ℕ)
without_job job_id [] = []
without_job job_id ((id, conns) ∷ subs) =
    let rest = without_job job_id subs in if bytes_eq id job_id then subs else (id, conns) ∷ rest

-- A job found by the scan becomes the pending one.
unfoldable pub queue_found : Scan → Server → Server
unfolding waiting_for without_job new_job
queue_found broken s = s
queue_found nothing s = s
queue_found (found desc targets) s = record s {
  pending = some (new_job desc targets (waiting_for desc.job_id s.submitter_subs));
  submitter_subs = without_job desc.job_id s.submitter_subs;
}

-- How a turn ends: with `serve` over, in its error or in a panic, or with the next turn.
pub data Turn : Type 0 where
  stopped : Server → Turn
  halted : Turn
  panicked : Turn
  next : Server → Turn

abbrev pub or_panic : Option Server → Turn
or_panic none = panicked
or_panic (some s) = next s

unfoldable pub receive_event : Env → Option Event → Server → Turn
unfolding handle
receive_event env none s = next s
receive_event env (some event) s = or_panic (handle env event s)

abbrev pub without_pending : Server → Server
without_pending s = record s { pending = none }

-- The end of the pending job: its decision and the shared finish.
unfoldable pub finish_job : Env → PendingJob → Server → Turn
finish_job env job s = map_or (final_decision env.courts job) panicked (λ decision.
    next (without_pending (broadcast between_jobs (finish_decided_job env.cfg job decision s))))

-- Escalation, the finish or an event, for a pending job.
unfoldable pub complete : Env → Input → PendingJob → Server → Turn
unfolding receive_event finish_job
complete env input job s =
    if owes_escalation job
    then next (escalate_job job s)
    else if job.dispatched && all_in job
    then finish_job env job s
    else if job.dispatched && input.late
    then finish_job env job s
    else receive_event env input.event s

-- The turn from the dispatch on.
unfoldable pub proceed : Env → Input → Server → Turn
unfolding complete
proceed env input s =
    map_or s.pending (receive_event env input.event s) (λ job. complete env input job s)

unfoldable pub dispatch_pending : Env → Input → Server → Server
dispatch_pending env input s = map_or s.pending s (λ job. dispatch_job env.cfg input.draws job s)

abbrev pub is_broken : Scan → Bool
is_broken broken = true
is_broken _ = false

abbrev pub is_idle : Server → Bool
is_idle s = map_or s.pending true (λ job. false)

unfoldable pub jobs_complete : ServeConfig → Server → Bool
jobs_complete cfg s = map_or cfg.max_jobs false (λ max. leb max s.jobs_done)

-- The turn behind the acceptance.
unfoldable pub take_turn : Env → Input → Server → Turn
unfolding proceed dispatch_pending jobs_complete queue_found
take_turn env input s =
    if jobs_complete env.cfg s
    then stopped (broadcast shut_down s)
    else if is_idle s && is_broken input.scan
    then halted
    else proceed env input
        (dispatch_pending env input (if is_idle s then queue_found input.scan s else s))

unfoldable pub turn : Env → Input → Server → Turn
unfolding take_turn accept_conn
turn env input s = take_turn env input (accept_conn input.accepted s)

abbrev pub and_then : Turn → (Server → Turn) → Turn
and_then (stopped s) f = stopped s
and_then halted f = halted
and_then panicked f = panicked
and_then (next s) f = f s

-- `serve` over the inputs of its turns.
unfoldable pub serve : Env → List Input → Server → Turn
unfolding turn
serve env [] s = next s
serve env (input ∷ inputs) s = and_then (turn env input s) (λ t. serve env inputs t)
