-- ===== src/Coordinator/Net/Loop/Jobs.antt =====
-- The dispatch, the escalation and the end of a job keep the server sound.
use provework.Prelude.{
  ℕ, Bytes, Option, none, some, List, [], ◌∷◌, map, Bool, true, false, not, ◌&&◌, ◌≡◌, ◌⊎◌, inl,
  inr, refl, All, All-append, &&_split,
}
use provework.Coordinator.Quorum.{Decision, accept, escalate, reject}
use provework.Coordinator.Net.{
  map_or-elim, if-elim, Crypto, ServeConfig, Conn, PendingJob, Server, Message, job_outcome,
  between_jobs, find_conn, new_job,
}
use provework.Coordinator.Net.Votes.Fair.{IsFair, IsFair-same}
use provework.Coordinator.Net.Dispatch.{
  hints, is_wanted, is_wanted_authed, select, candidates, first_conn, targets_ready, dispatch_job,
  escalate_job, assign, Candidate,
}
use provework.Coordinator.Net.Finish.{finish_decided_job, notify, notify_subscribers, broadcast}
use provework.Coordinator.Net.Loop.{
  Scan, on_proved, without_oldest, broken, nothing, found, accept_conn, queue_found,
}
use provework.Coordinator.Net.Loop.Sound.{
  IsSound, not-true, send-IsSound, IsSound-same, with_pending-IsSound,
}

module _ (crypto : Crypto) where
  notify-IsSound :
      (m : Message) (conns : List ℕ) (s : Server)
      → IsSound crypto s
      → IsSound crypto (notify m conns s)
  unfolding notify
  notify-IsSound m [] s i = i
  notify-IsSound m (conn ∷ conns) s i = notify-IsSound m conns _ (
      map_or-elim (IsSound crypto) (find_conn s.conns conn) s _ i
        (λ c e. send-IsSound crypto conn m s i))

  pub broadcast-IsSound :
      (m : Message) (s : Server) → IsSound crypto s → IsSound crypto (broadcast m s)
  unfolding broadcast
  broadcast-IsSound m s i = notify-IsSound m (map (λ p. p.0) s.conns) s i

  notify_subscribers-IsSound :
      (job : PendingJob) (d : Decision) (s : Server)
      → IsSound crypto s
      → IsSound crypto (notify_subscribers job d s)
  unfolding notify_subscribers
  notify_subscribers-IsSound job (accept h o a z) s i =
      notify-IsSound (job_outcome job.descriptor.job_id h a o z) job.subscribers s i
  notify_subscribers-IsSound job escalate s i = i
  notify_subscribers-IsSound job (reject reason) s i = i

  pub finish_decided_job-IsSound :
      (cfg : ServeConfig) (job : PendingJob) (d : Decision) (s : Server)
      → IsFair crypto job
      → IsSound crypto s
      → IsSound crypto (finish_decided_job cfg job d s)
  unfolding finish_decided_job
  finish_decided_job-IsSound cfg job d s f i =
      let told = notify_subscribers-IsSound job d s i in
      record {
        pending = told.pending;
        proving = told.proving;
        outcomes =
            All-append _ (notify_subscribers job d s).outcomes _ told.outcomes (
              record { unique = f.unique; signed = f.signed; own_job = f.own_job; paid = refl },
              tt,
            );
      }

  assign-IsSound :
      (ready : Bytes → Conn → Bool) (job : PendingJob) (cs : List Candidate) (s : Server)
      → IsSound crypto s
      → IsSound crypto (assign ready job s cs).1
  unfolding assign
  assign-IsSound ready job [] s i = i
  assign-IsSound ready job ((wid, hs) ∷ cs) s i = assign-IsSound ready job cs _ (
      map_or-elim (IsSound crypto) (first_conn (ready wid) s.conns) s _ i
        (λ k e. send-IsSound crypto k _ s i))

  undispatched :
      (job : PendingJob)
      → job.dispatched ≡ false
      → (job.escalated ≡ false) ⊎ ((job.dispatched ≡ true) × (job.reserves ≡ []))
      → {P : Type 0} → (job.escalated ≡ false) ⊎ P
  undispatched job d (inl e) = inl e
  undispatched job d (inr (e, r)) = absurd (cc (d, e))

  pub dispatch_job-IsSound :
      (cfg : ServeConfig) (draws : List ℕ) (job : PendingJob) (s : Server)
      → IsFair crypto job
      → IsSound crypto s
      → IsSound crypto (dispatch_job cfg draws job s)
  unfolding dispatch_job
  dispatch_job-IsSound cfg draws job s f i =
      if-elim (IsSound crypto) (not job.dispatched && targets_ready cfg s.conns job.targets) _ _
        (λ due.
          with_pending-IsSound crypto _ _
            (assign-IsSound is_wanted job
              (select cfg draws job.targets (candidates s.conns job.targets)) s i)
            (IsFair-same crypto job _ f refl refl refl _ refl
              (undispatched job (not-true _ (&&_split _ _ due).0) f.one_round)))
        (λ waits. i)

  pub escalate_job-IsSound :
      (job : PendingJob) (s : Server)
      → job.dispatched ≡ true
      → IsFair crypto job
      → IsSound crypto s
      → IsSound crypto (escalate_job job s)
  unfolding escalate_job
  escalate_job-IsSound job s dispatched f i =
      with_pending-IsSound crypto _ _
        (assign-IsSound is_wanted_authed job (map (λ wid. (wid, hints s.conns wid)) job.reserves) s
          i)
        (IsFair-same crypto job _ f refl refl refl _ refl (inr (dispatched, refl)))

  pub on_proved-IsSound :
      (cfg : ServeConfig) (d : Decision) (jobs : List PendingJob) (s : Server)
      → All (IsFair crypto) jobs
      → IsSound crypto s
      → IsSound crypto (on_proved cfg d jobs s)
  unfolding on_proved
  on_proved-IsSound cfg d [] s f i = i
  on_proved-IsSound cfg d (job ∷ jobs) s f i = broadcast-IsSound between_jobs _ (
      finish_decided_job-IsSound cfg job d (without_oldest jobs s) f.0
        (record { pending = i.pending; proving = f.1; outcomes = i.outcomes }))

  pub accept_conn-IsSound :
      (a : Option (ℕ × ℕ × Bytes × Bytes)) (s : Server)
      → IsSound crypto s
      → IsSound crypto (accept_conn a s)
  unfolding accept_conn
  accept_conn-IsSound none s i = i
  accept_conn-IsSound (some (place, id, ip, name)) s i = IsSound-same crypto s _ i refl refl refl

  pub queue_found-IsSound :
      (f : Scan) (s : Server) → IsSound crypto s → IsSound crypto (queue_found f s)
  unfolding queue_found new_job
  queue_found-IsSound broken s i = i
  queue_found-IsSound nothing s i = i
  queue_found-IsSound (found desc targets) s i = record {
    pending = record {
      unique = tt;
      known = tt;
      signed = tt;
      own_job = tt;
      claims_unique = tt;
      claims_known = tt;
      one_round = inl refl;
    };
    proving = i.proving;
    outcomes = i.outcomes;
  }
