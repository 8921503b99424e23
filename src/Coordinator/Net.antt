-- ===== src/Coordinator/Net.antt =====
-- crates/coordinator/src/net.rs: the state of the coordinator's event loop. The connections, a
-- `HashMap`, are the list of their ids and entries in the order in which it iterates, whatever that is.
-- A message that the server hands to a connection's queue goes to the outbox. Outside and parameters
-- of the model are Ed25519, BLAKE3, JSON, the clock, the random numbers and the external verifiers.
pub mod Auth
pub mod Votes
pub mod Receipts
pub mod Uploads
pub mod Submissions
pub mod Dispatch
pub mod Finish
pub mod Provers
pub mod Queue
pub mod Loop
mod Examples
use provework.Prelude.{
  ℕ, zero, suc, ◌+◌, Bytes, Option, none, some, List, [], ◌∷◌, ◌++◌, Bool, true, false,
  if◌then◌else◌, ◌==◌, bytes_eq, ◌≡◌, refl,
}
use provework.Jobfmt.{WorkerResult}
use provework.Contentstore.{JobDescriptor, Disk}
use provework.Coordinator.Quorum.{Decision}
use provework.Coordinator.Ledger.{LedgerStore, ReadOutcome}

-- Ed25519 and BLAKE3.
pub record Crypto : Type 0 where
  pub key_valid : Bytes → Bool
  pub verifies : (key message signature : Bytes) → Bool
  pub blake3 : Bytes → Bytes

-- The settings of `ServeConfig` that the handlers read.
pub record ServeConfig : Type 0 where
  pub require_identity : Bool
  pub zk : Bool
  pub accept_submissions : Bool
  pub identity_pow_bits : ℕ
  pub pool : Option ℕ
  pub ledger : Option LedgerStore
  pub max_jobs : Option ℕ
  pub round1_size : Option ℕ
  pub round1_ids : Option (List Bytes)

pub data Message : Type 0 where
  nonce : (hex : Bytes) (pow_bits : ℕ) → Message
  auth_ok : (worker_id : Bytes) → Message
  auth_failed : Message
  job_assignment : JobDescriptor → (peer_hints : List Bytes) → Message
  blob : Option Bytes → Message
  between_jobs : Message
  shut_down : Message
  job_outcome :
      (job_id hash : Bytes) (agreed : List Bytes) (output_hex : Option Bytes) (zk : Bool) → Message
  blob_ack : (id_hex : Bytes) (accepted : Bool) → Message
  submission_ack : (job_id : Bytes) (accepted proving : Bool) → Message

pub data Role : Type 0 where
  worker : Role
  submitter : Role

abbrev pub is_worker : Role → Bool
is_worker worker = true
is_worker submitter = false

-- The key is that of the last Hello and the nonce the one sent in answer to it.
pub record Conn : Type 0 where
  pub pubkey : Option Bytes
  pub nonce : Option Bytes
  pub worker_id : Bytes
  pub authed : Bool
  pub peer_addr : Option Bytes
  pub peer_ip : Bytes
  pub role : Role
  pub uploads : ℕ

pub record PendingJob : Type 0 where
  pub descriptor : JobDescriptor
  pub targets : Option (List Bytes)
  pub dispatched : Bool
  pub escalated : Bool
  pub dispatched_ids : List Bytes
  pub reserves : List Bytes
  pub results : List WorkerResult
  pub zk_accept : Option Decision
  pub receipt_claimed : List Bytes
  pub subscribers : List ℕ

pub record JobOutcome : Type 0 where
  pub job_id : Bytes
  pub decision : Decision
  pub results : List WorkerResult
  pub bond_deltas : List (Bytes × ℕ)

-- `Option::map_or`
abbrev pub map_or {ℓ κ} : {A : Type ℓ} {B : Type κ} → Option A → B → (A → B) → B
map_or none b f = b
map_or (some a) b f = f a

-- A property of both branches is one of the choice.
module _ {ℓ} {B : Type ℓ} (P : B → Type 0) where
  pub map_or-elim :
      {A : Type 0} (o : Option A) (b : B) (f : A → B)
      → P b
      → ((a : A) → o ≡ some a → P (f a))
      → P (map_or o b f)
  map_or-elim none b f p q = p
  map_or-elim (some a) b f p q = q a refl

  pub if-elim : (b : Bool) (x y : B) → (b ≡ true → P x) → (b ≡ false → P y) → P (if b then x else y)
  if-elim true x y p q = p refl
  if-elim false x y p q = q refl

abbrev pub Conns : Type 0
Conns = List (ℕ × Conn)

-- What `serve` holds: the connections, the pending job, the proving queue, the subscriptions of
-- submitters by job id, the store's disk, what a read of the ledger's file finds, and what the server has
-- sent and finished, newest last.
pub record Server : Type 0 where
  pub conns : Conns
  pub pending : Option PendingJob
  pub proving : List PendingJob
  pub submitter_subs : List (Bytes × List ℕ)
  pub disk : Disk
  pub ledger_file : ReadOutcome
  pub outbox : List (ℕ × Message)
  pub outcomes : List JobOutcome
  pub jobs_done : ℕ

-- `map.get(&conn)`
unfoldable pub find_conn : Conns → ℕ → Option Conn
find_conn [] id = none
find_conn ((k, c) ∷ conns) id = let rest = find_conn conns id in if k == id then some c else rest

-- A change of the entry of a key, and none where there is no such entry (`map.get_mut(&conn)`).
unfoldable pub update_conn : (Conn → Conn) → Conns → ℕ → Conns
update_conn f [] id = []
update_conn f ((k, c) ∷ conns) id =
    let rest = update_conn f conns id in if k == id then (k, f c) ∷ conns else (k, c) ∷ rest

-- `map.remove(&conn)`
unfoldable pub remove_conn : Conns → ℕ → Conns
remove_conn [] id = []
remove_conn ((k, c) ∷ conns) id =
    let rest = remove_conn conns id in if k == id then conns else (k, c) ∷ rest

-- The entry that the acceptor inserts.
unfoldable pub new_conn : (peer_ip default_id : Bytes) → Conn
new_conn peer_ip default_id = record {
  pubkey = none;
  nonce = none;
  worker_id = default_id;
  authed = false;
  peer_addr = none;
  peer_ip = peer_ip;
  role = worker;
  uploads = 0;
}

-- A job as the scanner creates it, with the subscribers that wait for it.
unfoldable pub new_job : JobDescriptor → Option (List Bytes) → List ℕ → PendingJob
new_job descriptor targets subscribers = record {
  descriptor = descriptor;
  targets = targets;
  dispatched = false;
  escalated = false;
  dispatched_ids = [];
  reserves = [];
  results = [];
  zk_accept = none;
  receipt_claimed = [];
  subscribers = subscribers;
}

-- `c.outbound.send(message)`
unfoldable pub send : ℕ → Message → Server → Server
send conn message s = record s { outbox = s.outbox ++ (conn, message) ∷ [] }

abbrev pub change_conn : (Conn → Conn) → ℕ → Server → Server
change_conn f conn s = record s { conns = update_conn f s.conns conn }

abbrev pub change_pending : (PendingJob → PendingJob) → Server → Server
change_pending f s = record s { pending = map_or s.pending none (λ job. some (f job)) }
