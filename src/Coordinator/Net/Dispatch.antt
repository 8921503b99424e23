-- ===== src/Coordinator/Net/Dispatch.antt =====
-- crates/coordinator/src/net.rs: the dispatch of a queued job, its escalation, and `shuffle`. The
-- random numbers of a shuffle are a parameter: the list of what `next_u64` draws.
pub mod Shuffle
pub mod Pool
use provework.Prelude.{
  ℕ, zero, suc, ◌+◌, ◌-◌, ◌%◌, Bytes, Option, none, some, List, [], ◌∷◌, ◌++◌, map, Bool, true,
  false, not, ◌&&◌, ◌||◌, if◌then◌else◌, leb, ltb, any, all, bytes_eq, filter, length, take,
  get_elem?, set,
}
use provework.Coordinator.Quorum.{contains, decide, Decision, escalate}
use provework.Coordinator.Net.{
  ServeConfig, Conn, Conns, PendingJob, Server, map_or, is_worker, find_conn, send, job_assignment,
}

abbrev pub Candidate : Type 0
Candidate = Bytes × List Bytes

abbrev pub is_ready_worker : Conn → Bool
is_ready_worker c = c.authed && is_worker c.role

abbrev pub entries : Conns → List Conn
entries conns = map (λ p. p.1) conns

-- Whether every id of a list is that of an authenticated connection.
unfoldable pub all_connected : Conns → List Bytes → Bool
all_connected conns ids =
    all (λ id. any (λ c. c.authed && bytes_eq c.worker_id id) (entries conns)) ids

unfoldable pub authed_count : Conns → ℕ
authed_count conns = length (filter is_ready_worker (entries conns))

abbrev pub pool_ready : ServeConfig → ℕ → Bool
pool_ready cfg n = elim cfg.pool [ none ↦ true | some p ↦ leb p n ]

unfoldable pub targets_ready : ServeConfig → Conns → Option (List Bytes) → Bool
unfolding all_connected authed_count
targets_ready cfg conns (some ids) = all_connected conns ids && pool_ready cfg (authed_count conns)
targets_ready cfg conns none = elim cfg.round1_ids [
  | some ids ↦ all_connected conns ids && pool_ready cfg (authed_count conns)
  | none ↦ leb (elim cfg.pool [ none ↦ 1 | some p ↦ p ]) (authed_count conns)
]

abbrev pub peer_addrs : List Conn → List Bytes
peer_addrs [] = []
peer_addrs (c ∷ cs) = elim c.peer_addr [ none ↦ peer_addrs cs | some a ↦ a ∷ peer_addrs cs ]

-- The addresses of the other authenticated peers.
unfoldable pub hints : Conns → Bytes → List Bytes
hints conns wid =
    peer_addrs (filter (λ p. p.authed && not (bytes_eq p.worker_id wid)) (entries conns))

abbrev pub targeted : Option (List Bytes) → Bytes → Bool
targeted none wid = true
targeted (some ids) wid = contains ids wid

unfoldable pub candidates : Conns → Option (List Bytes) → List Candidate
unfolding hints
candidates conns targets =
    map (λ c. (c.worker_id, hints conns c.worker_id))
      (filter (λ c. targeted targets c.worker_id && is_ready_worker c) (entries conns))

-- `items.swap(i, j)` within bounds.
unfoldable pub swap {ℓ} : {A : Type ℓ} → List A → ℕ → ℕ → List A
swap xs i j = elim (get_elem? xs i) [
  | none ↦ xs
  | some x ↦ elim (get_elem? xs j) [ none ↦ xs | some y ↦ set (set xs i y) j x ]
]

-- The loop of `shuffle` down from index `i`, and no draw left counts as the draw 0.
unfoldable pub shuffle_from {ℓ} : {A : Type ℓ} → ℕ → List ℕ → List A → List A
unfolding swap
shuffle_from zero draws xs = xs
shuffle_from (suc i) [] xs = shuffle_from i [] (swap xs (suc i) 0)
shuffle_from (suc i) (draw ∷ draws) xs = shuffle_from i draws (swap xs (suc i) (draw % (i + 2)))

unfoldable pub shuffle {ℓ} : {A : Type ℓ} → List ℕ → List A → List A
unfolding shuffle_from
shuffle draws xs = shuffle_from (length xs - 1) draws xs

-- The first candidate of an id.
unfoldable pub find_candidate : List Candidate → Bytes → Option Candidate
find_candidate [] id = none
find_candidate ((wid, hs) ∷ cs) id =
    let rest = find_candidate cs id in if bytes_eq wid id then some (wid, hs) else rest

unfoldable pub named_candidates : List Candidate → List Bytes → List Candidate
unfolding find_candidate
named_candidates cs [] = []
named_candidates cs (id ∷ ids) =
    let rest = named_candidates cs ids in
    elim (find_candidate cs id) [ none ↦ rest | some c ↦ c ∷ rest ]

abbrev pub sampled : ServeConfig → List ℕ → List Candidate → List Candidate
sampled cfg draws cs = elim cfg.round1_size [
  | none ↦ cs
  | some n ↦ if ltb n (length cs) then take n (shuffle draws cs) else cs
]

-- The round-1 set: named members for a job without targets, else a random sample, else everyone.
unfoldable pub select : ServeConfig → List ℕ → Option (List Bytes) → List Candidate → List Candidate
unfolding named_candidates shuffle
select cfg draws (some targets) cs = sampled cfg draws cs
select cfg draws none cs = elim cfg.round1_ids [
  | some ids ↦ named_candidates cs ids
  | none ↦ sampled cfg draws cs
]

-- The workers outside the round-1 set and, for a targeted job, outside its targets.
unfoldable pub held_back : Conns → Option (List Bytes) → List Candidate → List Bytes
held_back conns targets selected =
    map (λ c. c.worker_id)
      (filter
        (λ c.
          is_ready_worker c
          && (not (contains (map (λ p. p.0) selected) c.worker_id)
              && elim targets [ none ↦ true | some ids ↦ not (contains ids c.worker_id) ]))
        (entries conns))

-- The id of the first connection that passes a test.
unfoldable pub first_conn : (Conn → Bool) → Conns → Option ℕ
first_conn p [] = none
first_conn p ((k, c) ∷ conns) = let rest = first_conn p conns in if p c then some k else rest

-- The assignments to a list of workers: the messages, and the ids in the order dispatched.
unfoldable pub assign :
    (Bytes → Conn → Bool) → PendingJob → Server → List Candidate → List Bytes × Server
unfolding first_conn
assign ready job s [] = ([], s)
assign ready job s ((wid, hs) ∷ cs) =
    let found = first_conn (ready wid) s.conns in
    let (ids, s') =
      assign ready job (map_or found s (λ k. send k (job_assignment job.descriptor hs) s)) cs in
    (map_or found ids (λ k. wid ∷ ids), s')

abbrev pub is_wanted : Bytes → Conn → Bool
is_wanted wid c = bytes_eq c.worker_id wid

abbrev pub is_wanted_authed : Bytes → Conn → Bool
is_wanted_authed wid c = bytes_eq c.worker_id wid && c.authed

abbrev pub with_dispatch : PendingJob → List Bytes → List Bytes → PendingJob
with_dispatch job ids reserves = record job {
  dispatched = true;
  dispatched_ids = job.dispatched_ids ++ ids;
  reserves = reserves;
}

-- The dispatch of a pending job, where it is due and its targets are ready.
unfoldable pub dispatch_job : ServeConfig → List ℕ → PendingJob → Server → Server
unfolding assign
dispatch_job cfg draws job s =
    let selected = select cfg draws job.targets (candidates s.conns job.targets) in
    let reserves = held_back s.conns job.targets selected in
    let (ids, s') = assign is_wanted job s selected in
    if not job.dispatched && targets_ready cfg s.conns job.targets
    then record s' { pending = some (with_dispatch job ids reserves) }
    else s

unfoldable pub all_in : PendingJob → Bool
all_in job =
    elim job.zk_accept [ none ↦ false | some _ ↦ true ]
    || all (λ id. any (λ r. bytes_eq r.worker_id id) job.results) job.dispatched_ids

abbrev pub is_escalation : Option Decision → Bool
is_escalation (some escalate) = true
is_escalation _ = false

-- Whether an escalation round is owed: no majority, and workers in reserve.
unfoldable pub owes_escalation : PendingJob → Bool
unfolding all_in
owes_escalation job =
    job.dispatched
    && (all_in job
        && (is_escalation (decide job.results (length job.dispatched_ids))
            && ltb 0 (length job.reserves)))

abbrev pub with_escalation : PendingJob → List Bytes → PendingJob
with_escalation job ids = record job {
  escalated = true;
  dispatched_ids = job.dispatched_ids ++ ids;
  reserves = [];
}

-- The escalation round of a job that owes one.
unfoldable pub escalate_job : PendingJob → Server → Server
unfolding assign
escalate_job job s =
    let (ids, s') =
      assign is_wanted_authed job s (map (λ wid. (wid, hints s.conns wid)) job.reserves) in
    record s' { pending = some (with_escalation job ids) }
