-- ===== src/Coordinator/Net/Dispatch/Pool.antt =====
-- Whom a job is dispatched to, and how often it is escalated.
use provework.Prelude.{
  ℕ, Bytes, Option, none, some, List, [], ◌∷◌, map, Bool, true, false, ◌&&◌, ◌||◌, ◌≡◌, arith,
  if◌then◌else◌, ltb, length, take, All, filter, bytes_eq, bytes_eq_refl, &&_split, Bool-cases, inl,
  inr, any,
}
use provework.Coordinator.Quorum.{decide}
use provework.Coordinator.Net.{Crypto, ServeConfig, Conn, Conns, PendingJob, if-elim}
use provework.Coordinator.Net.Votes.Fair.{IsFair, OnSome}
use provework.Coordinator.Net.Dispatch.{
  Candidate, entries, is_ready_worker, targeted, candidates, hints, sampled, find_candidate,
  named_candidates, select, owes_escalation, all_in, is_escalation, shuffle,
}
use provework.Coordinator.Net.Dispatch.Shuffle.{All-shuffle, All-take}

any-tail : (a b : Bool) → b ≡ true → (a || b) ≡ true
any-tail a b h = ground arith

any-head : (a b c : Bool) → a ≡ true → b ≡ true → ((a && b) || c) ≡ true
any-head a b c h k = ground arith

-- Some connection of a list is authenticated as a worker under an id.
abbrev pub has_worker : List Conn → Bytes → Bool
has_worker cs id = any (λ c. is_ready_worker c && bytes_eq c.worker_id id) cs

-- Such a connection, of an id that the job's targets allow.
abbrev pub IsEligible : Conns → Option (List Bytes) → Candidate → Type 0
IsEligible conns targets c = (has_worker (entries conns) c.0 ≡ true) × (targeted targets c.0 ≡ true)

module _ (conns : Conns) (targets : Option (List Bytes)) where
  -- The candidates of a part of the entries.
  listed :
      (cs : List Conn)
      → ((id : Bytes) → has_worker cs id ≡ true → has_worker (entries conns) id ≡ true)
      → All (IsEligible conns targets) (
          map
            (λ c. (c.worker_id, hints conns c.worker_id))
            (filter (λ c. targeted targets c.worker_id && is_ready_worker c) cs))
  listed [] up = tt
  listed (c ∷ cs) up = elim (Bool-cases (targeted targets c.worker_id && is_ready_worker c)) [
    | inl takes ↦
        let (aimed, ready) = &&_split _ _ takes in
        rw takes (
          (
            up c.worker_id (
                any-head (is_ready_worker c) (bytes_eq c.worker_id c.worker_id) _ ready
                  (bytes_eq_refl c.worker_id)),
            aimed,
          ),
          listed cs (λ id h. up id (any-tail _ _ h)),
        )
    | inr out ↦ rw out (listed cs (λ id h. up id (any-tail _ _ h)))
  ]

  candidates-IsEligible : All (IsEligible conns targets) (candidates conns targets)
  unfolding candidates
  candidates-IsEligible = listed (entries conns) (λ id h. h)

  find_candidate-All :
      (P : Candidate → Type 0) (cs : List Candidate) (id : Bytes)
      → All P cs
      → OnSome P (find_candidate cs id)
  unfolding find_candidate
  find_candidate-All P [] id h = tt
  find_candidate-All P ((wid, hs) ∷ cs) id h = elim (Bool-cases (bytes_eq wid id)) [
    | inl e ↦ rw e h.0
    | inr e ↦ rw e (find_candidate-All P cs id h.1)
  ]

  named-All :
      (P : Candidate → Type 0) (cs : List Candidate) (ids : List Bytes)
      → All P cs
      → All P (named_candidates cs ids)
  unfolding named_candidates
  named-All P cs [] h = tt
  named-All P cs (id ∷ ids) h =
      added (find_candidate cs id) (find_candidate-All P cs id h) (named-All P cs ids h)
    where
      added :
          (o : Option Candidate)
          → OnSome P o
          → All P (named_candidates cs ids)
          → All P (elim o [ none ↦ named_candidates cs ids | some c ↦ c ∷ named_candidates cs ids ])
      added none p rest = rest
      added (some c) p rest = (p, rest)

  sampled-All :
      (P : Candidate → Type 0) (cfg : ServeConfig) (draws : List ℕ) (cs : List Candidate)
      → All P cs
      → All P (sampled cfg draws cs)
  sampled-All P cfg draws cs h = cut cfg.round1_size
    where
      cut :
          (o : Option ℕ)
          → All P (elim o [
            | none ↦ cs
            | some n ↦ if ltb n (length cs) then take n (shuffle draws cs) else cs
          ])
      cut none = h
      cut (some n) =
          if-elim (All P) (ltb n (length cs)) _ _
            (λ more. All-take P n _ (All-shuffle P draws cs h)) (λ few. h)

  select-All :
      (P : Candidate → Type 0) (cfg : ServeConfig) (draws : List ℕ) (o : Option (List Bytes))
      (cs : List Candidate)
      → All P cs
      → All P (select cfg draws o cs)
  unfolding select
  select-All P cfg draws (some ids) cs h = sampled-All P cfg draws cs h
  select-All P cfg draws none cs h = chosen cfg.round1_ids
    where
      chosen :
          (o : Option (List Bytes))
          → All P (elim o [ some ids ↦ named_candidates cs ids | none ↦ sampled cfg draws cs ])
      chosen none = sampled-All P cfg draws cs h
      chosen (some ids) = named-All P cs ids h

  -- Every worker that round 1 selects, at random, by name or as the whole pool, is authenticated as a
  -- worker and among the job's targets where it has any.
  pub select-IsEligible :
      (cfg : ServeConfig) (draws : List ℕ)
      → All (IsEligible conns targets) (select cfg draws targets (candidates conns targets))
  select-IsEligible cfg draws =
      select-All (IsEligible conns targets) cfg draws targets (candidates conns targets)
        candidates-IsEligible

nobody : (a b c : Bool) → (a && (b && (c && false))) ≡ false
nobody a b c = ground arith

owes-no_reserves : (job : PendingJob) → job.reserves ≡ [] → owes_escalation job ≡ false
unfolding owes_escalation
owes-no_reserves job r =
    rw (owes_escalation, r)
      (nobody job.dispatched (all_in job)
        (is_escalation (decide job.results (length job.dispatched_ids))))

-- A fair job that has been escalated owes no further round.
pub escalated-owes_none :
    (crypto : Crypto) (job : PendingJob)
    → IsFair crypto job
    → job.escalated ≡ true
    → owes_escalation job ≡ false
escalated-owes_none crypto job f e = elim f.one_round [
  | inl no_round ↦ absurd (cc (e, no_round))
  | inr (d, r) ↦ owes-no_reserves job r
]
