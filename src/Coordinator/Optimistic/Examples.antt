-- ===== src/Coordinator/Optimistic/Examples.antt =====
-- A result that is challenged late and then expires.
use provework.Prelude.{List, [], ◌∷◌, Bool, true, false, ◌≡◌, ◌⊎◌, text}
use provework.Coordinator.Dispute.{agreement}
use provework.Coordinator.Optimistic.{awaiting, Event, challenge, expiry, play}
use provework.Coordinator.Optimistic.Settled.{Settles, play-Settles}

abbrev events : List (Event × Bool)
events =
    (expiry (text "aa"), true) ∷ (challenge agreement, false) ∷ (expiry (text "aa"), false) ∷ []

play-Settles_example : (play awaiting events ≡ awaiting) ⊎ Settles events (play awaiting events)
play-Settles_example = play-Settles events
