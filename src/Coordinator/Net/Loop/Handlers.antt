-- ===== src/Coordinator/Net/Loop/Handlers.antt =====
-- Every handler of a message of a connection keeps the server sound.
use provework.Prelude.{
  ℕ, Bytes, Option, none, some, Bool, true, false, not, ◌&&◌, ◌≡◌, inl, refl, leb, All-append,
  bytes_eq→≡, &&_split,
}
use provework.Jobfmt.{WorkerResult}
use provework.Coordinator.Net.{
  map_or-elim, if-elim, Crypto, ServeConfig, Conn, PendingJob, Server, map_or, find_conn,
}
use provework.Coordinator.Net.Auth.{
  pow_ok, key_ok, verify_signature, on_hello, on_nonce_sig, late_joiner,
}
use provework.Coordinator.Net.Votes.{on_result, result_admitted, with_pending}
use provework.Coordinator.Net.Votes.Fair.{IsFair, OnSome, count_vote-IsFair, claim-IsFair}
use provework.Coordinator.Net.Receipts.{Verifier, on_receipt_claim, claim_admitted, claimed_receipt}
use provework.Contentstore.{JobDescriptor}
use provework.Coordinator.Net.Uploads.{
  StoreEnv, served, max_uploads_per_conn, on_blob_upload, on_blob_request, store_upload,
}
use provework.Coordinator.Net.Submissions.{
  SubmitEnv, submission_admitted, on_job_submission, submit_zk, submit_queued, after_blobs,
  proving_job, join_subscribers, Blob, there, missing, malformed, panicking,
}
use provework.Coordinator.Net.Loop.Sound.{
  IsSound, send-IsSound, change_conn-IsSound, change_pending-IsSound, IsSound-same, IsFair-kept,
  late_joiner-IsFair, with_pending-IsSound, pending-IsFair,
}

module _ (crypto : Crypto) where
  pub on_hello-IsSound :
      (cfg : ServeConfig) (fresh : Bytes) (conn : ℕ) (key wid : Bytes) (port : Option Bytes)
      (role : Bytes) (s : Server)
      → IsSound crypto s
      → IsSound crypto (on_hello cfg fresh conn key wid port role s)
  unfolding on_hello
  on_hello-IsSound cfg fresh conn key wid port role s i =
      map_or-elim (IsSound crypto) (find_conn s.conns conn) s _ i
        (λ c e. send-IsSound crypto conn _ _ (change_conn-IsSound crypto _ conn s i))

  pub on_nonce_sig-IsSound :
      (cfg : ServeConfig) (conn : ℕ) (sig : Option Bytes) (counter : ℕ) (s : Server)
      → IsSound crypto s
      → IsSound crypto (on_nonce_sig crypto cfg conn sig counter s)
  unfolding on_nonce_sig
  on_nonce_sig-IsSound cfg conn sig counter s i =
      map_or-elim (IsSound crypto) (find_conn s.conns conn) s _ i (λ c e.
        if-elim (IsSound crypto) (pow_ok crypto cfg c counter && key_ok crypto cfg c sig) _ _
          (λ passed.
            change_pending-IsSound crypto (late_joiner c.worker_id)
              (late_joiner-IsFair crypto c.worker_id) _
              (send-IsSound crypto conn _ _ (change_conn-IsSound crypto _ conn s i)))
          (λ refused. send-IsSound crypto conn _ _ (send-IsSound crypto conn _ s i)))

  admitted-signed :
      (cfg : ServeConfig) (c : Conn) (r : WorkerResult)
      → result_admitted crypto cfg c r ≡ true
      → (r.worker_id ≡ c.worker_id) × (verify_signature crypto r ≡ true)
  unfolding result_admitted
  admitted-signed cfg c r h =
      let (same, rest) = &&_split _ _ (&&_split _ _ h).1 in
      (bytes_eq→≡ _ _ same, (&&_split _ _ rest).1)

  counted-IsSound :
      (s : Server) (o : Option PendingJob)
      → IsSound crypto s
      → OnSome (IsFair crypto) o
      → OnSome (IsSound crypto) (map_or o none (λ counted. some (with_pending s counted)))
  counted-IsSound s none i f = tt
  counted-IsSound s (some job) i f = with_pending-IsSound crypto s job i f

  pub on_result-IsSound :
      (cfg : ServeConfig) (conn : ℕ) (r : WorkerResult) (s : Server)
      → IsSound crypto s
      → OnSome (IsSound crypto) (on_result crypto cfg conn r s)
  unfolding on_result
  on_result-IsSound cfg conn r s i =
      map_or-elim (OnSome (IsSound crypto)) (find_conn s.conns conn) (some s) _ i (λ c e.
        if-elim (OnSome (IsSound crypto)) (result_admitted crypto cfg c r) _ _
          (λ admitted. map_or-elim (OnSome (IsSound crypto)) s.pending (some s) _ i (λ job p.
            let (same, signed) = admitted-signed cfg c r admitted in
            counted-IsSound s _ i (
              count_vote-IsFair crypto c.worker_id r job same signed
                (pending-IsFair crypto s job i p))))
          (λ refused. i))

  pub on_receipt_claim-IsSound :
      (cfg : ServeConfig) (verifier : Verifier) (conn : ℕ) (wid job_id key sig receipt_hex : Bytes)
      (s : Server)
      → IsSound crypto s
      → IsSound crypto (on_receipt_claim crypto cfg verifier conn wid job_id key sig receipt_hex s)
  unfolding on_receipt_claim
  on_receipt_claim-IsSound cfg verifier conn wid job_id key sig receipt_hex s i =
      map_or-elim (IsSound crypto) (find_conn s.conns conn) s _ i (λ c e.
        if-elim (IsSound crypto) (claim_admitted c wid key) _ _
          (λ passed.
            map_or-elim (IsSound crypto) (claimed_receipt crypto cfg job_id key sig receipt_hex) s _
              i
              (λ receipt p.
                change_pending-IsSound crypto _
                  (λ job f. claim-IsFair crypto verifier wid job_id receipt job f) s i))
          (λ refused. i))

  store_upload-IsSound :
      (store : StoreEnv) (conn : ℕ) (id_hex : Bytes) (o : Option Bytes) (s : Server)
      → IsSound crypto s
      → IsSound crypto (store_upload crypto store conn id_hex o s)
  unfolding store_upload
  store_upload-IsSound store conn id_hex none s i = send-IsSound crypto conn _ s i
  store_upload-IsSound store conn id_hex (some bytes) s i =
      send-IsSound crypto conn _ _ (IsSound-same crypto s _ i refl refl refl)

  pub on_blob_upload-IsSound :
      (store : StoreEnv) (conn : ℕ) (id_hex bytes_hex : Bytes) (s : Server)
      → IsSound crypto s
      → IsSound crypto (on_blob_upload crypto store conn id_hex bytes_hex s)
  unfolding on_blob_upload
  on_blob_upload-IsSound store conn id_hex bytes_hex s i =
      map_or-elim (IsSound crypto) (find_conn s.conns conn) s _ i (λ c e.
        if-elim (IsSound crypto) (not c.authed) _ _ (λ out. i)
          (λ authed.
            if-elim (IsSound crypto) (leb max_uploads_per_conn c.uploads) _ _
              (λ full. send-IsSound crypto conn _ s i)
              (λ room.
                store_upload-IsSound store conn id_hex _ _
                  (change_conn-IsSound crypto _ conn s i))))

  pub on_blob_request-IsSound :
      (store : StoreEnv) (conn : ℕ) (id : Bytes) (s : Server)
      → IsSound crypto s
      → OnSome (IsSound crypto) (on_blob_request crypto store conn id s)
  unfolding on_blob_request
  on_blob_request-IsSound store conn id s i =
      map_or-elim (OnSome (IsSound crypto)) (find_conn s.conns conn) (some s) _ i (λ c e.
        map_or-elim (OnSome (IsSound crypto)) (served crypto store s.disk id) none _ tt
          (λ found p. send-IsSound crypto conn _ s i))

  proving_job-IsFair : (desc : JobDescriptor) (conn : ℕ) → IsFair crypto (proving_job desc conn)
  unfolding proving_job
  proving_job-IsFair desc conn = record {
    unique = tt;
    known = tt;
    signed = tt;
    own_job = tt;
    claims_unique = tt;
    claims_known = tt;
    one_round = inl refl;
  }

  submit_zk-IsSound :
      (env : SubmitEnv) (conn : ℕ) (desc : JobDescriptor) (s : Server)
      → IsSound crypto s
      → IsSound crypto (submit_zk env conn desc s)
  unfolding submit_zk
  submit_zk-IsSound env conn desc s i =
      if-elim (IsSound crypto) (not env.prover_runs) _ _ (λ none_. send-IsSound crypto conn _ s i)
        (λ runs.
          if-elim (IsSound crypto) (not env.queue_open) _ _ (λ shut. i)
            (λ open_. send-IsSound crypto conn _ _ (record {
              pending = i.pending;
              proving = All-append _ s.proving _ i.proving (proving_job-IsFair desc conn, tt);
              outcomes = i.outcomes;
            })))

  submit_queued-IsSound :
      (env : SubmitEnv) (conn : ℕ) (desc : JobDescriptor) (s : Server)
      → IsSound crypto s
      → IsSound crypto (submit_queued env conn desc s)
  unfolding submit_queued join_subscribers
  submit_queued-IsSound env conn desc s i =
      if-elim (IsSound crypto) (not (env.lands desc.job_id)) _ _ (λ out. i)
        (λ landed.
          change_pending-IsSound crypto _
            (λ job f. IsFair-kept crypto job _ f refl refl refl refl f.one_round) _
            (send-IsSound crypto conn _ _ (IsSound-same crypto s _ i refl refl refl)))

  after_blobs-IsSound :
      (env : SubmitEnv) (conn : ℕ) (desc : JobDescriptor) (zk : Bool) (s : Server) (b : Blob)
      → IsSound crypto s
      → OnSome (IsSound crypto) (after_blobs env conn desc zk s b)
  unfolding after_blobs
  after_blobs-IsSound env conn desc true s there i = submit_zk-IsSound env conn desc s i
  after_blobs-IsSound env conn desc false s there i = submit_queued-IsSound env conn desc s i
  after_blobs-IsSound env conn desc zk s missing i = send-IsSound crypto conn _ s i
  after_blobs-IsSound env conn desc zk s malformed i = i
  after_blobs-IsSound env conn desc zk s panicking i = tt

  pub on_job_submission-IsSound :
      (cfg : ServeConfig) (store : StoreEnv) (env : SubmitEnv) (conn : ℕ) (desc : JobDescriptor)
      (key sig : Bytes) (zk : Bool) (s : Server)
      → IsSound crypto s
      → OnSome (IsSound crypto) (on_job_submission crypto cfg store env conn desc key sig zk s)
  unfolding on_job_submission
  on_job_submission-IsSound cfg store env conn desc key sig zk s i =
      map_or-elim (OnSome (IsSound crypto)) (find_conn s.conns conn) (some s) _ i (λ c e.
        if-elim (OnSome (IsSound crypto)) (submission_admitted crypto cfg env c desc key sig) _ _
          (λ passed. after_blobs-IsSound env conn desc zk s _ i) (λ refused. i))
