-- ===== src/Coordinator/Net/Votes.antt =====
-- crates/coordinator/src/net.rs: the handler of `Event::Result`. A slice of a hash that is shorter
-- than twelve bytes or is cut inside a character panics, which is none.
pub mod Fair
use provework.Prelude.{
  ℕ, Bytes, Option, none, some, List, [], ◌∷◌, ◌++◌, Bool, true, false, not, ◌&&◌, if◌then◌else◌,
  leb, any, bytes_eq, length, drop, cuts_before,
}
use provework.Jobfmt.{WorkerResult}
use provework.Coordinator.Quorum.{contains}
use provework.Coordinator.Net.{Crypto, ServeConfig, Conn, PendingJob, Server, map_or, find_conn}
use provework.Coordinator.Net.Auth.{verify_signature}

-- Whether the key of a result passes for the key of the connection.
unfoldable pub key_matches : ServeConfig → Option Bytes → Option Bytes → Bool
key_matches cfg (some key) (some claimed) = bytes_eq key claimed
key_matches cfg (some key) none = true
key_matches cfg none claimed = not cfg.require_identity

-- The identity gates of a result.
unfoldable pub result_admitted : Crypto → ServeConfig → Conn → WorkerResult → Bool
unfolding key_matches
result_admitted crypto cfg c r =
    c.authed
    && (bytes_eq r.worker_id c.worker_id
        && (key_matches cfg c.pubkey r.pubkey_hex && verify_signature crypto r))

-- `&result.result_hash[..12]`
unfoldable pub shows_prefix : Bytes → Bool
shows_prefix hash = leb 12 (length hash) && cuts_before (drop 12 hash)

-- Whether the pending job takes a result of a worker: it is for this job, the worker was dispatched
-- to, and has no result yet.
unfoldable pub votes : PendingJob → Bytes → WorkerResult → Bool
votes job wid r =
    bytes_eq r.job_id job.descriptor.job_id
    && (contains job.dispatched_ids wid && not (any (λ x. bytes_eq x.worker_id wid) job.results))

abbrev pub with_result : WorkerResult → PendingJob → PendingJob
with_result r job = record job { results = job.results ++ r ∷ [] }

unfoldable pub count_vote : Bytes → WorkerResult → PendingJob → Option PendingJob
unfolding votes shows_prefix
count_vote wid r job =
    if votes job wid r
    then if shows_prefix r.result_hash then some (with_result r job) else none
    else some job

abbrev pub with_pending : Server → PendingJob → Server
with_pending s job = record s { pending = some job }

-- `Event::Result`
unfoldable pub on_result : Crypto → ServeConfig → (conn : ℕ) → WorkerResult → Server → Option Server
on_result crypto cfg conn r s = map_or (find_conn s.conns conn) (some s) (λ c.
    if result_admitted crypto cfg c r
    then map_or s.pending (some s) (λ job.
      map_or (count_vote c.worker_id r job) none (λ counted. some (with_pending s counted)))
    else some s)
