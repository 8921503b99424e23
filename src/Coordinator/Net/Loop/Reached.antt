-- ===== src/Coordinator/Net/Loop/Reached.antt =====
-- What holds of the server in every state that `serve` reaches.
use provework.Prelude.{Option, none, some, List, [], ◌∷◌, true, ◌&&◌, ◌≡◌, refl, &&_split}
use provework.Coordinator.Net.{
  map_or-elim, if-elim, Crypto, PendingJob, Server, between_jobs, shut_down,
}
use provework.Coordinator.Net.Votes.Fair.{IsFair, OnSome}
use provework.Coordinator.Net.Dispatch.{owes_escalation, all_in}
use provework.Coordinator.Net.Finish.{final_decision}
use provework.Coordinator.Net.Loop.{
  Event, Env, Input, Turn, hello, nonce_sig, job_submission, blob_upload, receipt_claim,
  blob_request, result, closed, proved, handle, stopped, halted, panicked, next, or_panic,
  receive_event, finish_job, complete, proceed, dispatch_pending, is_broken, is_idle, jobs_complete,
  take_turn, turn, and_then, serve,
}
use provework.Coordinator.Net.Loop.Sound.{IsSound, IsSound-same, pending-IsFair}
use provework.Coordinator.Net.Loop.Handlers.{
  on_hello-IsSound, on_nonce_sig-IsSound, on_result-IsSound, on_receipt_claim-IsSound,
  on_blob_upload-IsSound, on_blob_request-IsSound, on_job_submission-IsSound,
}
use provework.Coordinator.Net.Loop.Jobs.{
  broadcast-IsSound, finish_decided_job-IsSound, dispatch_job-IsSound, escalate_job-IsSound,
  on_proved-IsSound, accept_conn-IsSound, queue_found-IsSound,
}

-- What holds of the server when a turn ends otherwise than in an error or a panic.
abbrev pub TurnSound : Crypto → Turn → Type 0
TurnSound crypto (stopped s) = IsSound crypto s
TurnSound crypto halted = Unit
TurnSound crypto panicked = Unit
TurnSound crypto (next s) = IsSound crypto s

module _ (env : Env) where
  handle-IsSound :
      (e : Event) (s : Server) → IsSound env.crypto s → OnSome (IsSound env.crypto) (handle env e s)
  unfolding handle
  handle-IsSound (hello conn key wid port role fresh) s i =
      on_hello-IsSound env.crypto env.cfg fresh conn key wid port role s i
  handle-IsSound (nonce_sig conn sig counter) s i =
      on_nonce_sig-IsSound env.crypto env.cfg conn sig counter s i
  handle-IsSound (job_submission conn desc key sig zk) s i =
      on_job_submission-IsSound env.crypto env.cfg env.store env.submit conn desc key sig zk s i
  handle-IsSound (blob_upload conn id_hex bytes_hex) s i =
      on_blob_upload-IsSound env.crypto env.store conn id_hex bytes_hex s i
  handle-IsSound (receipt_claim conn wid job_id key sig receipt) s i =
      on_receipt_claim-IsSound env.crypto env.cfg env.verifier conn wid job_id key sig receipt s i
  handle-IsSound (blob_request conn id) s i =
      on_blob_request-IsSound env.crypto env.store conn id s i
  handle-IsSound (result conn r) s i = on_result-IsSound env.crypto env.cfg conn r s i
  handle-IsSound (closed conn) s i = IsSound-same env.crypto s _ i refl refl refl
  handle-IsSound (proved d) s i = on_proved-IsSound env.crypto env.cfg d s.proving s i.proving i

  or_panic-TurnSound :
      (o : Option Server) → OnSome (IsSound env.crypto) o → TurnSound env.crypto (or_panic o)
  or_panic-TurnSound none h = tt
  or_panic-TurnSound (some s) h = h

  receive_event-TurnSound :
      (e : Option Event) (s : Server)
      → IsSound env.crypto s
      → TurnSound env.crypto (receive_event env e s)
  unfolding receive_event
  receive_event-TurnSound none s i = i
  receive_event-TurnSound (some e) s i = or_panic-TurnSound (handle env e s) (handle-IsSound e s i)

  finish_job-TurnSound :
      (job : PendingJob) (s : Server)
      → IsFair env.crypto job
      → IsSound env.crypto s
      → TurnSound env.crypto (finish_job env job s)
  unfolding finish_job
  finish_job-TurnSound job s f i =
      map_or-elim (TurnSound env.crypto) (final_decision env.courts job) panicked _ tt (λ d e.
        let told =
          broadcast-IsSound env.crypto between_jobs _
            (finish_decided_job-IsSound env.crypto env.cfg job d s f i) in
        record { pending = tt; proving = told.proving; outcomes = told.outcomes })

  owes-dispatched : (job : PendingJob) → owes_escalation job ≡ true → job.dispatched ≡ true
  unfolding owes_escalation
  owes-dispatched job h = (&&_split _ _ h).0

  complete-TurnSound :
      (input : Input) (job : PendingJob) (s : Server)
      → IsFair env.crypto job
      → IsSound env.crypto s
      → TurnSound env.crypto (complete env input job s)
  unfolding complete
  complete-TurnSound input job s f i =
      if-elim (TurnSound env.crypto) (owes_escalation job) _ _
        (λ owed. escalate_job-IsSound env.crypto job s (owes-dispatched job owed) f i)
        (λ quiet.
          if-elim (TurnSound env.crypto) (job.dispatched && all_in job) _ _
            (λ full. finish_job-TurnSound job s f i)
            (λ part.
              if-elim (TurnSound env.crypto) (job.dispatched && input.late) _ _
                (λ late. finish_job-TurnSound job s f i)
                (λ early. receive_event-TurnSound input.event s i)))

  proceed-TurnSound :
      (input : Input) (s : Server)
      → IsSound env.crypto s
      → TurnSound env.crypto (proceed env input s)
  unfolding proceed
  proceed-TurnSound input s i =
      map_or-elim (TurnSound env.crypto) s.pending _ _ (receive_event-TurnSound input.event s i)
        (λ job e. complete-TurnSound input job s (pending-IsFair env.crypto s job i e) i)

  dispatch_pending-IsSound :
      (input : Input) (s : Server)
      → IsSound env.crypto s
      → IsSound env.crypto (dispatch_pending env input s)
  unfolding dispatch_pending
  dispatch_pending-IsSound input s i = map_or-elim (IsSound env.crypto) s.pending s _ i (λ job e.
      dispatch_job-IsSound env.crypto env.cfg input.draws job s
        (pending-IsFair env.crypto s job i e) i)

  take_turn-TurnSound :
      (input : Input) (s : Server)
      → IsSound env.crypto s
      → TurnSound env.crypto (take_turn env input s)
  unfolding take_turn
  take_turn-TurnSound input s i =
      if-elim (TurnSound env.crypto) (jobs_complete env.cfg s) _ _
        (λ full. broadcast-IsSound env.crypto shut_down s i)
        (λ more.
          if-elim (TurnSound env.crypto) (is_idle s && is_broken input.scan) _ _ (λ bad. tt)
            (λ good. proceed-TurnSound input _ (
              dispatch_pending-IsSound input _ (
                if-elim (IsSound env.crypto) (is_idle s) _ _
                  (λ idle. queue_found-IsSound env.crypto input.scan s i) (λ busy. i)))))

  turn-TurnSound :
      (input : Input) (s : Server) → IsSound env.crypto s → TurnSound env.crypto (turn env input s)
  unfolding turn
  turn-TurnSound input s i =
      take_turn-TurnSound input _ (accept_conn-IsSound env.crypto input.accepted s i)

  and_then-TurnSound :
      (t : Turn) (f : Server → Turn)
      → TurnSound env.crypto t
      → ((s : Server) → IsSound env.crypto s → TurnSound env.crypto (f s))
      → TurnSound env.crypto (and_then t f)
  and_then-TurnSound (stopped s) f h k = h
  and_then-TurnSound halted f h k = tt
  and_then-TurnSound panicked f h k = tt
  and_then-TurnSound (next s) f h k = k s h

  -- Whatever the connections send and whatever the world answers, in every state that `serve` reaches
  -- from a sound one the results of the pending job and of every finished one carry valid signatures,
  -- are for that job and of different workers, those of the pending job were dispatched to, and every
  -- finished job's bond deltas are those of its decision and its results.
  pub serve-IsSound :
      (inputs : List Input) (s : Server)
      → IsSound env.crypto s
      → TurnSound env.crypto (serve env inputs s)
  unfolding serve
  serve-IsSound [] s i = i
  serve-IsSound (input ∷ inputs) s i =
      and_then-TurnSound (turn env input s) _ (turn-TurnSound input s i)
        (λ t h. serve-IsSound inputs t h)
