-- ===== src/Coordinator/Dispute/Examples.antt =====
-- A dispute over two chains that part at their second entry, and a judged snapshot.
use provework.Rvcore.Cpu.{new}
use provework.Prelude.{to_le_bytes, from_le_bytes}
use provework.Rvcore.Mem.{empty_mem, read}
use provework.Rvcore.Hash.{state_hash}
use provework.Rvcore.Run.{execute_chunk_from}
use provework.Rvcore.Snapshot.{capture, restore}
use provework.Coordinator.Dispute.Reexecution.{judge_by_snapshot, Verified, judge_by_snapshot_sound}
use provework.Prelude.{
  ℕ, zero, suc, ◌-◌, ◌≤◌, ◌<◌, Bytes, Option, length, none, some, List, [], ◌∷◌, ◌≡◌, ◌≢◌, ◌↔◌,
  refl, arith, get_elem?,
}
use provework.Coordinator.Dispute.{
  Hash, Judges, answered, claim_honest, counter_honest, both_dishonest, first_divergence, truth_at,
  resolve_chains,
}
use provework.Coordinator.Dispute.Divergence.{Diverges, first_divergence_lem}
use provework.Coordinator.Dispute.Verdicts.{resolve_chains-winner}

abbrev claim : List Hash
claim = (1 ∷ []) ∷ (2 ∷ []) ∷ []

abbrev counter : List Hash
counter = (1 ∷ []) ∷ (3 ∷ []) ∷ (4 ∷ []) ∷ []

-- Judges with no snapshot, whose replay gives the claim's chain.
abbrev judges : Judges
judges = record { by_snapshot = λ k a. none; by_replay = answered claim }

claim-Diverges : Diverges claim counter 1
claim-Diverges = record { agreed = below; apart = λ e. cc }
  where
    below : (i : ℕ) → i < 1 → get_elem? claim i ≡ get_elem? counter i
    below zero h = refl
    below (suc i) h = absurd (omega arith)

first_divergence_lem_example :
    ((first_divergence claim counter ≡ none) ↔ (claim ≡ counter))
    × ((k : ℕ) → (first_divergence claim counter ≡ some k) ↔ Diverges claim counter k)
first_divergence_lem_example = first_divergence_lem claim counter

truth_is_claim : truth_at judges 1 claim ≡ some (2 ∷ [])
unfolding truth_at
truth_is_claim = refl

resolve_chains-winner_example :
    ((get_elem? claim 1 ≡ some (2 ∷ []) → resolve_chains judges claim counter ≡ claim_honest 1)
      × (get_elem? counter 1 ≡ some (2 ∷ [])
          → resolve_chains judges claim counter ≡ counter_honest 1))
    × (get_elem? claim 1 ≢ some (2 ∷ [])
        → get_elem? counter 1 ≢ some (2 ∷ [])
        → resolve_chains judges claim counter ≡ both_dishonest 1)
resolve_chains-winner_example =
    resolve_chains-winner judges claim counter 1 (2 ∷ []) claim-Diverges truth_is_claim

-- A machine with no memory: its snapshot restores, and its first step traps.
abbrev snapshot : Bytes
snapshot = capture (new 0 0) empty_mem

abbrev one_file : ℕ → Option Bytes
one_file index = some snapshot

abbrev constant_digest : Bytes → Bytes
constant_digest bs = []

snapshot_judged : judge_by_snapshot 2 constant_digest one_file 1 ([] ∷ []) 4 ≡ some []
unfolding judge_by_snapshot capture new empty_mem restore to_le_bytes from_le_bytes state_hash
    execute_chunk_from read
snapshot_judged = refl

abbrev one : ℕ
one = 1

judge_by_snapshot_sound_example :
    (one ≤ one)
    × (one ≤ length {A = Bytes} ([] ∷ []))
    × (bytes : Bytes) × (one_file (1 - 1) ≡ some bytes)
    × Verified 2 constant_digest 1 ([] ∷ []) 4 bytes []
judge_by_snapshot_sound_example =
    judge_by_snapshot_sound 2 constant_digest 1 ([] ∷ []) 4 one_file snapshot_judged
