-- ===== src/Coordinator/Net/Loop/Sound.antt =====
-- A sound server, and the changes that keep it so.
use provework.Prelude.{
  ℕ, Bytes, Option, none, some, List, [], ◌∷◌, ◌++◌, Bool, true, false, not, ◌&&◌, ◌≡◌, ◌⊎◌, inl,
  inr, Bool-cases, refl, ap, ◌∙◌, arith, if◌then◌else◌, All,
}
use provework.Coordinator.Quorum.{contains, slashing}
use provework.Coordinator.Quorum.Decide.{ids}
use provework.Coordinator.Quorum.Workers.{Unique}
use provework.Coordinator.Net.{
  Crypto, Conn, PendingJob, JobOutcome, Server, Message, map_or, send, change_conn, change_pending,
}
use provework.Coordinator.Net.Auth.{verify_signature, late_joiner}
use provework.Coordinator.Net.Votes.{with_pending}
use provework.Coordinator.Net.Votes.Fair.{IsFair, OnSome, IsFair-same}

-- A finished job's results are signed, for that job, and of different workers, and its bond deltas
-- are those of its decision.
pub record IsFairOutcome (crypto : Crypto) (o : JobOutcome) : Type 0 where
  pub unique : Unique (ids o.results)
  pub signed : All (λ r. verify_signature crypto r ≡ true) o.results
  pub own_job : All (λ r. r.job_id ≡ o.job_id) o.results
  pub paid : o.bond_deltas ≡ slashing o.decision o.results

pub record IsSound (crypto : Crypto) (s : Server) : Type 0 where
  pub pending : OnSome (IsFair crypto) s.pending
  pub proving : All (IsFair crypto) s.proving
  pub outcomes : All (IsFairOutcome crypto) s.outcomes

pub not-true : (b : Bool) → not b ≡ true → b ≡ false
not-true b h = ground arith

append-nil : {A : Type 0} (xs : List A) → xs ≡ xs ++ []
append-nil [] = refl
append-nil (x ∷ xs) = ap (λ t. x ∷ t) (append-nil xs)

module _ (crypto : Crypto) where
  -- A change of other fields keeps a sound server sound.
  pub IsSound-same :
      (s t : Server)
      → IsSound crypto s
      → t.pending ≡ s.pending
      → t.proving ≡ s.proving
      → t.outcomes ≡ s.outcomes
      → IsSound crypto t
  IsSound-same s t i p q r = record {
    pending = rw p i.pending;
    proving = rw q i.proving;
    outcomes = rw r i.outcomes;
  }

  pub send-IsSound :
      (conn : ℕ) (m : Message) (s : Server) → IsSound crypto s → IsSound crypto (send conn m s)
  unfolding send
  send-IsSound conn m s i = IsSound-same s _ i refl refl refl

  pub change_conn-IsSound :
      (f : Conn → Conn) (conn : ℕ) (s : Server)
      → IsSound crypto s
      → IsSound crypto (change_conn f conn s)
  change_conn-IsSound f conn s i = IsSound-same s _ i refl refl refl

  pub change_pending-IsSound :
      (f : PendingJob → PendingJob)
      → ((job : PendingJob) → IsFair crypto job → IsFair crypto (f job))
      → (s : Server) → IsSound crypto s
      → IsSound crypto (change_pending f s)
  change_pending-IsSound f keeps s i = record {
    pending = changed s.pending i.pending;
    proving = i.proving;
    outcomes = i.outcomes;
  }
    where
      changed :
          (o : Option PendingJob)
          → OnSome (IsFair crypto) o
          → OnSome (IsFair crypto) (map_or o none (λ job. some (f job)))
      changed none h = tt
      changed (some job) h = keeps job h

  -- A change of fields that the results and claims do not depend on.
  pub IsFair-kept :
      (job job' : PendingJob)
      → IsFair crypto job
      → job'.results ≡ job.results
      → job'.descriptor ≡ job.descriptor
      → job'.receipt_claimed ≡ job.receipt_claimed
      → job'.dispatched_ids ≡ job.dispatched_ids
      → (job'.escalated ≡ false) ⊎ ((job'.dispatched ≡ true) × (job'.reserves ≡ []))
      → IsFair crypto job'
  IsFair-kept job job' f r d c i o =
      IsFair-same crypto job job' f r d c [] (i ∙ append-nil job.dispatched_ids) o

  pub late_joiner-IsFair :
      (wid : Bytes) (job : PendingJob) → IsFair crypto job → IsFair crypto (late_joiner wid job)
  unfolding late_joiner
  late_joiner-IsFair wid job f = IsFair-kept job _ f refl refl refl refl (reserved f.one_round)
    where
      may_join : Bool
      may_join =
          elim job.targets [ none ↦ true | some _ ↦ false ] && not (contains job.dispatched_ids wid)

      reserved :
          (job.escalated ≡ false) ⊎ ((job.dispatched ≡ true) × (job.reserves ≡ []))
          → (job.escalated ≡ false)
            ⊎ ((job.dispatched ≡ true)
                × ((if job.dispatched && (not job.escalated && may_join)
                      then job.reserves ++ wid ∷ []
                      else job.reserves)
                    ≡ []))
      reserved (inl e) = inl e
      reserved (inr (d, r)) = elim (Bool-cases job.escalated) [
        | inl e ↦ inr (d, rw (d, e) r)
        | inr e ↦ inl e
      ]

  pub with_pending-IsSound :
      (s : Server) (job : PendingJob)
      → IsSound crypto s
      → IsFair crypto job
      → IsSound crypto (with_pending s job)
  with_pending-IsSound s job i f = record {
    pending = f;
    proving = i.proving;
    outcomes = i.outcomes;
  }

  pub pending-IsFair :
      (s : Server) (job : PendingJob) → IsSound crypto s → s.pending ≡ some job → IsFair crypto job
  pending-IsFair s job i p = rw p at i.pending
