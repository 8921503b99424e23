-- ===== src/Coordinator/Net/Examples.antt =====
-- The event loop at concrete inputs: a server whose keys are all valid, two workers, and one job.
use provework.Prelude.{
  ℕ, ◌+◌, ◌%◌, ◌^◌, Bytes, none, some, List, [], ◌∷◌, true, false, ◌≡◌, ◌⊎◌, inr, refl,
  if◌then◌else◌, replicate, text, All, bytes_eq, ok,
}
use provework.Jobfmt.{WorkerResult}
use provework.Jobfmt.Encodings.{from_hex}
use provework.Wire.{verify_pow}
use provework.Contentstore.{JobDescriptor}
use provework.Coordinator.Quorum.{accept, contains, slashing}
use provework.Coordinator.Quorum.Decide.{ids}
use provework.Coordinator.Quorum.Workers.{Unique}
use provework.Coordinator.Quorum.Payments.{share}
use provework.Coordinator.Dispute.{answered, unavailable}
use provework.Coordinator.Ledger.{
  Ledger, LedgerStore, contents, not_found, empty_ledger, apply, load,
}
use provework.Coordinator.Ledger.Balances.{balance}
use provework.Coordinator.Net.{
  Crypto, ServeConfig, Conn, Conns, PendingJob, Server, worker, find_conn, send, update_conn,
}
use provework.Coordinator.Net.Auth.{on_nonce_sig, pow_ok, key_ok, verify_signature, verify_nonce}
use provework.Coordinator.Net.Auth.Admission.{IsAuthed, Passes, on_nonce_sig-IsAuthed}
use provework.Coordinator.Net.Votes.Fair.{IsFair}
use provework.Coordinator.Net.Receipts.{Verifier, claim, claimable}
use provework.Coordinator.Net.Receipts.Attempts.{claim-claim}
use provework.Coordinator.Net.Uploads.{StoreEnv}
use provework.Coordinator.Net.Dispatch.{select, candidates}
use provework.Coordinator.Net.Dispatch.Pool.{IsEligible, select-IsEligible}
use provework.Coordinator.Net.Finish.{Courts, finish_decided_job, replay_verdict}
use provework.Coordinator.Net.Finish.Judged.{
  matches, finish_decided_job-balance, replay_verdict_lem,
}
use provework.Coordinator.Net.Loop.{Env, Event, Input, nonce_sig, result, nothing, serve}
use provework.Coordinator.Net.Loop.Sound.{IsSound}
use provework.Coordinator.Net.Loop.Reached.{TurnSound, serve-IsSound}

-- Every key and every signature passes, and the digest is the first bytes of a text of zeros.
abbrev crypto : Crypto
crypto = record {
  key_valid = λ key. true;
  verifies = λ key message signature. true;
  blake3 = λ bs. replicate 32 0;
}

abbrev cfg : ServeConfig
cfg = record {
  require_identity = true;
  zk = true;
  accept_submissions = true;
  identity_pow_bits = 8;
  pool = none;
  ledger = none;
  max_jobs = none;
  round1_size = some 1;
  round1_ids = none;
}

abbrev key : Bytes
key = replicate 64 48

abbrev signature : Bytes
signature = replicate 128 48

abbrev descriptor : JobDescriptor
descriptor = record {
  job_id = text "j";
  manifest = replicate 64 48;
  elf = replicate 64 48;
  input = replicate 64 48;
}

abbrev digest : Bytes
digest = text "0123456789abcdef"

abbrev report : Bytes → WorkerResult
report id = record {
  worker_id = id;
  job_id = text "j";
  status = text "halted";
  instructions = 4;
  result_hash = digest;
  chunk_hashes = digest ∷ [];
  output_hex = none;
  trap = none;
  pubkey_hex = some key;
  sig_hex = some signature;
}

abbrev ann : Conn
ann = record {
  pubkey = some key;
  nonce = some (7 ∷ []);
  worker_id = text "ann";
  authed = true;
  peer_addr = none;
  peer_ip = [];
  role = worker;
  uploads = 7;
}

abbrev bob : Conn
bob = record {
  pubkey = some key;
  nonce = some (9 ∷ []);
  worker_id = text "bob";
  authed = false;
  peer_addr = none;
  peer_ip = [];
  role = worker;
  uploads = 0;
}

abbrev pair : Conns
pair = (1, ann) ∷ (2, bob) ∷ []

-- Ann has reported; Bob was held back, and escalation has dispatched the job to him too.
abbrev job : PendingJob
job = record {
  descriptor = descriptor;
  targets = none;
  dispatched = true;
  escalated = true;
  dispatched_ids = text "ann" ∷ text "bob" ∷ [];
  reserves = [];
  results = report (text "ann") ∷ [];
  zk_accept = none;
  receipt_claimed = [];
  subscribers = 1 ∷ [];
}

abbrev start_server : Server
start_server = record {
  conns = pair;
  pending = some job;
  proving = [];
  submitter_subs = [];
  disk = λ path. none;
  ledger_file = not_found;
  outbox = [];
  outcomes = [];
  jobs_done = 0;
}

abbrev store : StoreEnv
store = record {
  write = λ disk path content. (true, λ p. if bytes_eq p path then some content else disk p);
  root = text "s";
}

abbrev passing : Verifier
passing receipt binding =
    some
      (record { status = 0; instructions = 4; chunk_hashes = digest ∷ []; output_hex = text "00" })

abbrev courts : Courts
courts = record {
  by_proof = λ pending. unavailable;
  by_replay = λ pending. answered (digest, text "00");
}

abbrev env : Env
env = record {
  crypto = crypto;
  cfg = cfg;
  store = store;
  submit = record {
    descriptor_json = λ desc. none;
    lands = λ id. true;
    prover_runs = false;
    queue_open = false;
  };
  verifier = passing;
  courts = courts;
}

abbrev quiet : Event → Input
quiet event = record {
  accepted = none;
  scan = nothing;
  draws = 3 ∷ [];
  late = false;
  event = some event;
}

-- Bob proves his key, votes, and votes again.
abbrev inputs : List Input
inputs =
    quiet (nonce_sig 2 (some signature) 0)
    ∷ quiet (result 2 (report (text "bob")))
    ∷ quiet (result 2 (report (text "bob")))
    ∷ []

job-IsFair : IsFair crypto job
unfolding verify_signature verify_nonce from_hex
job-IsFair = record {
  unique = (refl, tt);
  known = (refl, tt);
  signed = (refl, tt);
  own_job = (refl, tt);
  claims_unique = tt;
  claims_known = tt;
  one_round = inr (refl, refl);
}

start_server-IsSound : IsSound crypto start_server
start_server-IsSound = record { pending = job-IsFair; proving = tt; outcomes = tt }

serve-IsSound_example : TurnSound crypto (serve env inputs start_server)
serve-IsSound_example = serve-IsSound env inputs start_server start_server-IsSound

-- A ledger's file that knows one ledger, the one after the job.
abbrev after_job : Ledger
after_job =
    apply empty_ledger job.descriptor.job_id (text "network-run")
      (slashing (accept digest none (text "ann" ∷ []) false) job.results)

abbrev ledger_store : LedgerStore
ledger_store = record {
  from_slice = λ bytes. some after_job;
  to_json = λ led. some (text "ledger");
  write = λ file json. (true, contents json);
}

abbrev paying : ServeConfig
paying = record cfg { ledger = some ledger_store }

finish_decided_job-balance_example :
    (led : Ledger) × (load ledger_store.from_slice (
        (finish_decided_job paying job
          (accept digest none (text "ann" ∷ []) false)
          start_server).ledger_file)
      ≡ ok led)
    × ((id : Bytes)
        → balance id led.balances
          ≡ (balance id empty_ledger.balances
              + (if contains (ids job.results) id then share (text "ann" ∷ []) id else 0))
            % 2 ^ 64)
finish_decided_job-balance_example =
    finish_decided_job-balance crypto paying job digest none (text "ann" ∷ []) false start_server
      {store = ledger_store} {old = empty_ledger} refl job-IsFair (unfold load in refl) tt
      (record { json = text "ledger"; printed = refl; written = refl; parsed = refl })

bob_admitted : IsAuthed (on_nonce_sig crypto cfg 2 (some signature) 0 start_server).conns 2
unfolding on_nonce_sig send update_conn find_conn pow_ok key_ok verify_nonce from_hex verify_pow
bob_admitted = (record bob { authed = true }, refl, refl)

abbrev second : ℕ
second = 2

on_nonce_sig-IsAuthed_example :
    IsAuthed pair 2 ⊎ ((second ≡ second) × Passes crypto cfg pair 2 (some signature) 0)
on_nonce_sig-IsAuthed_example =
    on_nonce_sig-IsAuthed crypto cfg 2 (some signature) 0 start_server 2 bob_admitted

claim-claim_example :
    claim passing
      (text "ann")
      (text "j")
      (1 ∷ [])
      (claim passing (text "ann") (text "j") (0 ∷ []) job)
    ≡ claim passing (text "ann") (text "j") (0 ∷ []) job
unfolding claimable
claim-claim_example =
    claim-claim passing (text "ann") (text "j") (0 ∷ []) (text "j") (1 ∷ []) job refl

replay_verdict_lem_example :
    (agreed : List Bytes) × (replay_verdict courts job
      ≡ answered (accept digest (some (text "00")) agreed false))
    × Unique agreed
    × ((id : Bytes) → contains agreed id ≡ matches digest id job.results)
replay_verdict_lem_example = replay_verdict_lem courts job refl

select-IsEligible_example :
    All
      (IsEligible pair (some (text "ann" ∷ [])))
      (select cfg (5 ∷ []) (some (text "ann" ∷ [])) (candidates pair (some (text "ann" ∷ []))))
select-IsEligible_example = select-IsEligible pair (some (text "ann" ∷ [])) cfg (5 ∷ [])
