-- ===== src/Coordinator/Optimistic.antt =====
-- crates/coordinator/src/optimistic.rs: the optimistic tier's state machine. A string is the list of
-- its characters' codes; the texts of errors are left out, each error is a constructor.
pub mod Settled
mod Examples
use provework.Prelude.{Bytes, List, [], ◌∷◌, Bool, true, false, if◌then◌else◌, Result, ok, err}
use provework.Coordinator.Dispute.{Verdict}

pub data State : Type 0 where
  awaiting : State
  accepted : (hash : Bytes) → State
  disputed : (verdict : Verdict) → State

pub data Event : Type 0 where
  challenge : (verdict : Verdict) → Event
  expiry : (hash : Bytes) → Event

pub data Refusal : Type 0 where
  not_expired : Refusal
  too_late : Refusal
  terminal : State → Refusal

unfoldable pub transition : State → Event → Bool → Result Refusal State
transition awaiting (expiry hash) window_open =
    if window_open then err not_expired else ok (accepted hash)
transition awaiting (challenge verdict) window_open =
    if window_open then ok (disputed verdict) else err too_late
transition (accepted h) event window_open = err (terminal (accepted h))
transition (disputed v) event window_open = err (terminal (disputed v))

-- `expire`, the wrapper that does not look at the window.
unfoldable pub expire : State → Bytes → Result Refusal State
expire awaiting hash = ok (accepted hash)
expire (accepted h) hash = err (terminal (accepted h))
expire (disputed v) hash = err (terminal (disputed v))

-- The state after a sequence of events; a refused event leaves the state as it was.
unfoldable pub after : State → Event → Bool → State
unfolding transition
after s e open_window = elim (transition s e open_window) [ ok s' ↦ s' | err _ ↦ s ]

unfoldable pub play : State → List (Event × Bool) → State
unfolding after
play s [] = s
play s ((e, open_window) ∷ events) = play (after s e open_window) events
