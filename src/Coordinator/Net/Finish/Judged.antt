-- ===== src/Coordinator/Net/Finish/Judged.antt =====
-- What the end of a job pays, and whom the replay judge names.
use provework.Prelude.{
  ℕ, ◌+◌, ◌%◌, ◌^◌, Bytes, Option, none, some, List, [], ◌∷◌, ◌++◌, Bool, true, false, not, ◌&&◌,
  ◌||◌, ◌≡◌, refl, ap, ◌∙◌, arith, if◌then◌else◌, any, bytes_eq, bytes_eq_iff, Bool-cases, inl, inr,
  ok, text,
}
use provework.Jobfmt.{WorkerResult}
use provework.Coordinator.Quorum.{accept, contains, slashing}
use provework.Coordinator.Quorum.Decide.{ids}
use provework.Coordinator.Quorum.Workers.{Unique}
use provework.Coordinator.Quorum.Payments.{share, paid_total}
use provework.Coordinator.Dispute.{answered}
use provework.Coordinator.Ledger.{Ledger, LedgerStore, apply, load, finish_ledger}
use provework.Coordinator.Ledger.Balances.{balance, InRange, IsSaved, load-finish_ledger}
use provework.Coordinator.Net.{
  Crypto, ServeConfig, PendingJob, Conn, Server, Message, map_or, find_conn, send, job_outcome,
}
use provework.Coordinator.Net.Votes.Fair.{IsFair, Unique-append_last}
use provework.Coordinator.Net.Finish.{
  Courts, replay_verdict, finish_decided_job, notify, notify_subscribers, vindicated, has_digest,
}

send-ledger_file :
    (conn : ℕ) (m : Message) (s : Server) → (send conn m s).ledger_file ≡ s.ledger_file
unfolding send
send-ledger_file conn m s = refl

notify-ledger_file :
    (m : Message) (conns : List ℕ) (s : Server) → (notify m conns s).ledger_file ≡ s.ledger_file
unfolding notify
notify-ledger_file m [] s = refl
notify-ledger_file m (conn ∷ conns) s = notify-ledger_file m conns _ ∙ told (find_conn s.conns conn)
  where
    told : (o : Option Conn) → (map_or o s (λ c. send conn m s)).ledger_file ≡ s.ledger_file
    told none = refl
    told (some c) = send-ledger_file conn m s

finish-ledger_file :
    (cfg : ServeConfig) (job : PendingJob) (h : Bytes) (o : Option Bytes) (agreed : List Bytes)
    (zk : Bool) (s : Server)
    → (finish_decided_job cfg job (accept h o agreed zk) s).ledger_file
      ≡ finish_ledger cfg.ledger s.ledger_file job.descriptor.job_id
          (slashing (accept h o agreed zk) job.results)
unfolding finish_decided_job notify_subscribers
finish-ledger_file cfg job h o agreed zk s =
    rw (notify-ledger_file (job_outcome job.descriptor.job_id h agreed o zk) job.subscribers s) refl

-- Where the server is configured with a ledger, its file loads as one whose balances are in range, and the
-- save of the new ledger succeeds with JSON that parses back, the next load after the acceptance of a
-- fair job finds the balance of each worker that reported moved by one reward if the acceptance names it
-- and by one burn if it does not, once, and every other balance as it was, in wrapping 64-bit arithmetic.
pub finish_decided_job-balance :
    (crypto : Crypto) (cfg : ServeConfig) (job : PendingJob) (h : Bytes) (o : Option Bytes)
    (agreed : List Bytes) (zk : Bool) (s : Server) {store : LedgerStore} {old : Ledger}
    → cfg.ledger ≡ some store
    → IsFair crypto job
    → load store.from_slice s.ledger_file ≡ ok old
    → InRange old.balances
    → IsSaved store s.ledger_file (
        apply old job.descriptor.job_id
          (text "network-run")
          (slashing (accept h o agreed zk) job.results))
    → (led : Ledger) × (load store.from_slice
          (finish_decided_job cfg job (accept h o agreed zk) s).ledger_file
        ≡ ok led)
      × ((id : Bytes)
          → balance id led.balances
            ≡ (balance id old.balances
                + (if contains (ids job.results) id then share agreed id else 0))
              % 2 ^ 64)
finish_decided_job-balance crypto cfg job h o agreed zk s {store} {old} c f l r saved =
    let (led, e, moved, entry) =
      load-finish_ledger store s.ledger_file job.descriptor.job_id
        (slashing (accept h o agreed zk) job.results) {start = old} (inl l) r saved in
    (
      led,
      rw (finish-ledger_file cfg job h o agreed zk s, c) e,
      λ id.
          moved id
          ∙ ap (λ (d : ℕ). (balance id old.balances + d) % 2 ^ 64)
              (paid_total h o agreed zk id job.results f.unique),
    )

vindicated-step :
    (digest : Bytes) (agreed : List Bytes) (r : WorkerResult) (rs : List WorkerResult)
    → vindicated digest agreed (r ∷ rs)
      ≡ vindicated digest
          (if has_digest digest r && not (contains agreed r.worker_id)
            then agreed ++ r.worker_id ∷ []
            else agreed)
          rs
unfolding vindicated
vindicated-step digest agreed r rs = refl

vindicated-nil : (digest : Bytes) (agreed : List Bytes) → vindicated digest agreed [] ≡ agreed
unfolding vindicated
vindicated-nil digest agreed = refl

-- The workers named once a result has been looked at.
abbrev named : Bytes → List Bytes → WorkerResult → List Bytes
named digest agreed r =
    if has_digest digest r && not (contains agreed r.worker_id)
    then agreed ++ r.worker_id ∷ []
    else agreed

and_fresh : (a b : Bool) → (a && not b) ≡ true → b ≡ false
and_fresh a b e = ground arith

named-Unique :
    (digest : Bytes) (agreed : List Bytes) (r : WorkerResult)
    → Unique agreed
    → Unique (named digest agreed r)
named-Unique digest agreed r u =
    elim (Bool-cases (has_digest digest r && not (contains agreed r.worker_id))) [
      | inl e ↦ rw e (Unique-append_last agreed r.worker_id u (and_fresh _ _ e))
      | inr e ↦ rw e u
    ]

vindicated-Unique :
    (digest : Bytes) (rs : List WorkerResult) (agreed : List Bytes)
    → Unique agreed
    → Unique (vindicated digest agreed rs)
vindicated-Unique digest [] agreed u = rw (vindicated-nil digest agreed) u
vindicated-Unique digest (r ∷ rs) agreed u =
    rw (vindicated-step digest agreed r rs)
      (vindicated-Unique digest rs (named digest agreed r) (named-Unique digest agreed r u))

-- Whether a worker of the list has a result whose chain is the digest alone.
abbrev pub matches : Bytes → Bytes → List WorkerResult → Bool
matches digest id rs = any (λ r. bytes_eq id r.worker_id && has_digest digest r) rs

contains-append_last :
    (xs : List Bytes) (y x : Bytes) → contains (xs ++ y ∷ []) x ≡ (contains xs x || bytes_eq x y)
contains-append_last [] y x = ground arith
contains-append_last (z ∷ xs) y x = ground (arith, contains-append_last xs y x)

or_nothing : (b : Bool) → b ≡ (b || false)
or_nothing b = ground arith

drop_false : (a b c : Bool) → (a || c) ≡ (a || ((b && false) || c))
drop_false a b c = ground arith

regroup : (a b c : Bool) → ((a || b) || c) ≡ (a || ((b && true) || c))
regroup a b c = ground arith

contains-named :
    (digest id : Bytes) (agreed : List Bytes) (r : WorkerResult) (rest : Bool)
    → (contains (named digest agreed r) id || rest)
      ≡ (contains agreed id || ((bytes_eq id r.worker_id && has_digest digest r) || rest))
contains-named digest id agreed r rest = elim (Bool-cases (has_digest digest r)) [
  | inr miss ↦ rw miss (drop_false (contains agreed id) (bytes_eq id r.worker_id) rest)
  | inl hit ↦ elim (Bool-cases (contains agreed r.worker_id)) [
    | inr new ↦
        rw (hit, new, contains-append_last agreed r.worker_id id)
          (regroup (contains agreed id) (bytes_eq id r.worker_id) rest)
    | inl old ↦ elim (Bool-cases (bytes_eq id r.worker_id)) [
      | inl same ↦
          let there : contains agreed id ≡ true = rw ((bytes_eq_iff id r.worker_id).0 same) old in
          rw (hit, old, same, there) refl
      | inr other ↦ rw (hit, old, other) refl
    ]
  ]
]

contains-vindicated :
    (digest id : Bytes) (rs : List WorkerResult) (agreed : List Bytes)
    → contains (vindicated digest agreed rs) id ≡ (contains agreed id || matches digest id rs)
contains-vindicated digest id [] agreed =
    rw (vindicated-nil digest agreed) (or_nothing (contains agreed id))
contains-vindicated digest id (r ∷ rs) agreed = rw (vindicated-step digest agreed r rs) (
    contains-vindicated digest id rs (named digest agreed r)
    ∙ contains-named digest id agreed r (matches digest id rs))

-- Where a full replay gives a digest and an output, the verdict of the replay judge accepts them and
-- names each worker that has a result whose chain is that digest alone, once, and nobody else.
pub replay_verdict_lem :
    (courts : Courts) (job : PendingJob) {digest output_hex : Bytes}
    → courts.by_replay job ≡ answered (digest, output_hex)
    → (agreed : List Bytes) × (replay_verdict courts job
        ≡ answered (accept digest (some output_hex) agreed false))
      × Unique agreed
      × ((id : Bytes) → contains agreed id ≡ matches digest id job.results)
unfolding replay_verdict
replay_verdict_lem courts job {digest} {output_hex} e = (
  vindicated digest [] job.results,
  rw (replay_verdict, e) refl,
  vindicated-Unique digest job.results [] tt,
  λ id. contains-vindicated digest id job.results [],
)
