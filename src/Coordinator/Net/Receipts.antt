-- ===== src/Coordinator/Net/Receipts.antt =====
-- crates/coordinator/src/net.rs: `Event::ReceiptClaim`, `receipt_claim_gate` and
-- `handle_receipt_claim`. The verifier of receipts is a parameter: what it answers for the bytes of a
-- receipt and the three ids of the job, none where it refuses.
pub mod Attempts
use provework.Prelude.{
  ℕ, ◌*◌, ◌/◌, ◌^◌, Bytes, Option, none, some, List, [], ◌∷◌, ◌++◌, Bool, true, false, not, ◌&&◌,
  if◌then◌else◌, ◌==◌, ltb, any, bytes_eq, length, Result, ok, err,
}
use provework.Jobfmt.Encodings.{from_hex}
use provework.Coordinator.Zk.Receipt.{ReceiptOutcome, max_receipt_bytes}
use provework.Coordinator.Quorum.{Decision, accept, contains}
use provework.Coordinator.Net.{
  Crypto, ServeConfig, Conn, PendingJob, Server, map_or, find_conn, change_pending,
}
use provework.Coordinator.Net.Auth.{verify_claim_sig}

abbrev pub Verifier : Type 0
Verifier = Bytes → List Bytes → Option ReceiptOutcome

-- `receipt_claim_gate`: whether the claim is the worker's first, and the claims afterwards.
unfoldable pub receipt_claim_gate : List Bytes → Bytes → Bool × List Bytes
receipt_claim_gate claimed worker_id =
    if contains claimed worker_id then (false, claimed) else (true, claimed ++ worker_id ∷ [])

-- `outcome.chunk_hashes.last().cloned().unwrap_or_default()`
unfoldable pub last_hash : List Bytes → Bytes
last_hash [] = []
last_hash (h ∷ []) = h
last_hash (h ∷ k ∷ hs) = last_hash (k ∷ hs)

-- The three ids of the descriptor, none where one is not 32 bytes in hex.
unfoldable pub expected_binding : PendingJob → Option (List Bytes)
expected_binding job = elim (from_hex job.descriptor.manifest 32) [
  | err e ↦ none
  | ok m ↦ elim (from_hex job.descriptor.elf 32) [
    | err e ↦ none
    | ok elf ↦ elim (from_hex job.descriptor.input 32) [
      | err e ↦ none
      | ok i ↦ some (m ∷ elf ∷ i ∷ [])
    ]
  ]
]

-- The decision of a receipt that the verifier passes with status 0.
unfoldable pub receipt_decision : Verifier → Bytes → Bytes → Option (List Bytes) → Option Decision
unfolding last_hash
receipt_decision verifier worker_id receipt none = none
receipt_decision verifier worker_id receipt (some binding) = elim (verifier receipt binding) [
  | none ↦ none
  | some outcome ↦
      if outcome.status == 0
      then some
          (accept (last_hash outcome.chunk_hashes) (some outcome.output_hex) (worker_id ∷ []) true)
      else none
]

abbrev pub is_decided : PendingJob → Bool
is_decided job = elim job.zk_accept [ none ↦ false | some _ ↦ true ]

-- Whether a claim for a job comes to the gate.
unfoldable pub claimable : PendingJob → (worker_id job_id : Bytes) → Bool
claimable job worker_id job_id =
    bytes_eq job_id job.descriptor.job_id
    && (not (is_decided job) && contains job.dispatched_ids worker_id)

-- A claim that comes to the job: the attempt is recorded, and the verifier asked, once a worker.
unfoldable pub claim : Verifier → (worker_id job_id receipt : Bytes) → PendingJob → PendingJob
unfolding receipt_claim_gate expected_binding receipt_decision claimable
claim verifier worker_id job_id receipt job =
    let open_gate = claimable job worker_id job_id in
    let gate = receipt_claim_gate job.receipt_claimed worker_id in
    let decision = receipt_decision verifier worker_id receipt (expected_binding job) in
    record job {
      receipt_claimed = if open_gate then gate.1 else job.receipt_claimed;
      zk_accept = if open_gate && gate.0 then decision else job.zk_accept;
    }

-- The gates of `handle_receipt_claim` before the job: the size, the hex and the signature.
unfoldable pub claimed_receipt :
    Crypto → ServeConfig → (job_id pubkey_hex sig_hex receipt_hex : Bytes) → Option Bytes
claimed_receipt crypto cfg job_id pubkey_hex sig_hex receipt_hex =
    if not cfg.zk
    then none
    else if ltb (2 * max_receipt_bytes) (length receipt_hex)
    then none
    else elim (from_hex receipt_hex (length receipt_hex / 2)) [
      | err e ↦ none
      | ok receipt ↦
          if verify_claim_sig crypto pubkey_hex job_id (crypto.blake3 receipt) sig_hex
          then some receipt
          else none
    ]

-- The identity gates of `Event::ReceiptClaim`.
unfoldable pub claim_admitted : Conn → (worker_id pubkey_hex : Bytes) → Bool
claim_admitted c worker_id pubkey_hex =
    c.authed
    && (bytes_eq worker_id c.worker_id
        && elim c.pubkey [ none ↦ true | some key ↦ bytes_eq key pubkey_hex ])

-- `Event::ReceiptClaim`
unfoldable pub on_receipt_claim :
    Crypto
    → ServeConfig
    → Verifier
    → (conn : ℕ) (worker_id job_id pubkey_hex sig_hex receipt_hex : Bytes) → Server
    → Server
on_receipt_claim crypto cfg verifier conn worker_id job_id pubkey_hex sig_hex receipt_hex s =
    map_or (find_conn s.conns conn) s (λ c.
      if claim_admitted c worker_id pubkey_hex
      then map_or (claimed_receipt crypto cfg job_id pubkey_hex sig_hex receipt_hex) s
          (λ receipt. change_pending (claim verifier worker_id job_id receipt) s)
      else s)
