-- ===== src/Coordinator/Optimistic/Settled.antt =====
-- The optimistic machine over sequences of events.
use provework.Prelude.{Bytes, List, [], ◌∷◌, Bool, true, false, ◌≡◌, ◌⊎◌, inl, inr, refl}
use provework.Coordinator.Dispute.{Verdict}
use provework.Coordinator.Optimistic.{
  State, awaiting, accepted, disputed, Event, challenge, expiry, transition, after, play,
}

-- Why a result has settled as it has: an event in time, after refused ones alone.
pub data Settles : List (Event × Bool) → State → Type 0 where
  expires : {h : Bytes} {es : List (Event × Bool)} → Settles ((expiry h, false) ∷ es) (accepted h)
  challenged :
      {v : Verdict} {es : List (Event × Bool)} → Settles ((challenge v, true) ∷ es) (disputed v)
  skips_expiry :
      {h : Bytes} {es : List (Event × Bool)} {s : State}
      → Settles es s
      → Settles ((expiry h, true) ∷ es) s
  skips_challenge :
      {v : Verdict} {es : List (Event × Bool)} {s : State}
      → Settles es s
      → Settles ((challenge v, false) ∷ es) s

play-accepted : (h : Bytes) (es : List (Event × Bool)) → play (accepted h) es ≡ accepted h
unfolding play after transition
play-accepted h [] = refl
play-accepted h ((e, w) ∷ es) = play-accepted h es

play-disputed : (v : Verdict) (es : List (Event × Bool)) → play (disputed v) es ≡ disputed v
unfolding play after transition
play-disputed v [] = refl
play-disputed v ((e, w) ∷ es) = play-disputed v es

-- Every run from `awaiting` either is still awaiting, or has settled on the first event that came in
-- time, an expiry of the closed window or a challenge in the open one; what comes later changes
-- nothing.
pub play-Settles :
    (es : List (Event × Bool)) → (play awaiting es ≡ awaiting) ⊎ Settles es (play awaiting es)
unfolding play after transition
play-Settles [] = inl refl
play-Settles ((expiry h, false) ∷ es) = inr (rw (play-accepted h es) expires)
play-Settles ((challenge v, true) ∷ es) = inr (rw (play-disputed v es) challenged)
play-Settles ((expiry h, true) ∷ es) = elim (play-Settles es) [
  | inl e ↦ inl e
  | inr s ↦ inr (skips_expiry s)
]
play-Settles ((challenge v, false) ∷ es) = elim (play-Settles es) [
  | inl e ↦ inl e
  | inr s ↦ inr (skips_challenge s)
]
