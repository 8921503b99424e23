-- ===== src/Coordinator/Net/Auth.antt =====
-- crates/coordinator/src/net.rs: the identity checks and the handlers of Hello and NonceSig;
-- crates/coordinator/src/lib.rs: `verify_signature`. A port is the text of its digits.
pub mod Admission
use provework.Prelude.{
  ℕ, Bytes, Option, none, some, List, [], ◌∷◌, ◌++◌, Bool, true, false, not, ◌&&◌, if◌then◌else◌,
  bytes_eq, Result, ok, err, text, lower_hex,
}
use provework.Jobfmt.{WorkerResult}
use provework.Jobfmt.Encodings.{HexError, from_hex, signing_message, receipt_claim_message}
use provework.Wire.{verify_pow}
use provework.Coordinator.Quorum.{contains}
use provework.Coordinator.Net.{
  Crypto, ServeConfig, Conn, PendingJob, Server, map_or, worker, submitter, find_conn, send,
  change_conn, change_pending, nonce, auth_ok, auth_failed, shut_down,
}

abbrev decoded : Result HexError Bytes → (Bytes → Bool) → Bool
decoded (ok bs) check = check bs
decoded (err e) check = false

-- `verify_nonce`: the key and the signature in hex against a message.
unfoldable pub verify_nonce : Crypto → (pubkey_hex message sig_hex : Bytes) → Bool
verify_nonce crypto pubkey_hex message sig_hex = decoded (from_hex pubkey_hex 32) (λ key.
    decoded (from_hex sig_hex 64) (λ sig. crypto.key_valid key && crypto.verifies key message sig))

-- `verify_claim_sig`
unfoldable pub verify_claim_sig : Crypto → (pubkey_hex job_id receipt_hash sig_hex : Bytes) → Bool
verify_claim_sig crypto pubkey_hex job_id receipt_hash sig_hex =
    verify_nonce crypto pubkey_hex (receipt_claim_message job_id receipt_hash) sig_hex

-- `verify_signature`: an unsigned result fails.
unfoldable pub verify_signature : Crypto → WorkerResult → Bool
verify_signature crypto r = elim r.pubkey_hex [
  | none ↦ false
  | some key ↦ elim r.sig_hex [
    | none ↦ false
    | some sig ↦ verify_nonce crypto key (signing_message r) sig
  ]
]

-- The entry of a connection after a Hello, which leaves `authed` as it is.
unfoldable pub greeted :
    (fresh : Bytes) (pubkey worker_id : Bytes) (listen_port : Option Bytes) (role : Bytes)
    → Conn
    → Conn
greeted fresh pubkey worker_id listen_port role c = record c {
  pubkey = if bytes_eq pubkey [] then none else some pubkey;
  worker_id = if bytes_eq worker_id [] then c.worker_id else worker_id;
  role = if bytes_eq role (text "submitter") then submitter else worker;
  nonce = some fresh;
  peer_addr = elim listen_port [ none ↦ c.peer_addr | some p ↦ some (c.peer_ip ++ 58 ∷ p) ];
}

-- `Event::Hello`, with the random nonce that it draws.
unfoldable pub on_hello :
    ServeConfig
    → (fresh : Bytes) (conn : ℕ) (pubkey worker_id : Bytes) (listen_port : Option Bytes)
      (role : Bytes)
    → Server
    → Server
unfolding greeted
on_hello cfg fresh conn pubkey worker_id listen_port role s =
    map_or (find_conn s.conns conn) s (λ c.
      send conn (nonce (lower_hex fresh) cfg.identity_pow_bits)
        (change_conn (greeted fresh pubkey worker_id listen_port role) conn s))

-- The admission proof of work of a connection.
unfoldable pub pow_ok : Crypto → ServeConfig → Conn → ℕ → Bool
pow_ok crypto cfg c pow_counter = elim c.nonce [
  | none ↦ false
  | some n ↦ verify_pow crypto.blake3 n pow_counter cfg.identity_pow_bits
]

-- Possession of the key, for a connection that has one and has a nonce.
unfoldable pub key_ok : Crypto → ServeConfig → Conn → Option Bytes → Bool
key_ok crypto cfg c sig = elim c.nonce [
  | none ↦ false
  | some n ↦ elim c.pubkey [
    | none ↦ not cfg.require_identity
    | some key ↦ elim sig [ none ↦ false | some sg ↦ verify_nonce crypto key n sg ]
  ]
]

-- A worker that authenticates late joins the reserves of the job in flight.
unfoldable pub late_joiner : Bytes → PendingJob → PendingJob
late_joiner wid job = record job {
  reserves =
      if job.dispatched
        && (not job.escalated
            && (elim job.targets [ none ↦ true | some _ ↦ false ]
                && not (contains job.dispatched_ids wid)))
      then job.reserves ++ wid ∷ []
      else job.reserves;
}

abbrev pub admit : Conn → Conn
admit c = record c { authed = true }

-- `Event::NonceSig`
unfoldable pub on_nonce_sig :
    Crypto → ServeConfig → (conn : ℕ) (sig : Option Bytes) (pow_counter : ℕ) → Server → Server
on_nonce_sig crypto cfg conn sig pow_counter s = map_or (find_conn s.conns conn) s (λ c.
    if pow_ok crypto cfg c pow_counter && key_ok crypto cfg c sig
    then change_pending (late_joiner c.worker_id)
        (send conn (auth_ok c.worker_id) (change_conn admit conn s))
    else send conn shut_down (send conn auth_failed s))
