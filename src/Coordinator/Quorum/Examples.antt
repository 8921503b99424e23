-- ===== src/Coordinator/Quorum/Examples.antt =====
-- Runs of `decide` and `slashing` on small rounds.
use provework.Prelude.{
  ◌+◌, ◌-◌, ◌*◌, ◌%◌, ◌^◌, ◌<◌, ◌≤◌, Bytes, none, some, List, [], ◌∷◌, ◌++◌, false, ◌≡◌, ◌↔◌, refl,
  arith, text, length,
}
use provework.Jobfmt.{WorkerResult}
use provework.Coordinator.Ledger.Balances.{delta_sum}
use provework.Coordinator.Quorum.{
  accept, escalate, dedup, is_halted, group_by, sort_groups, accept_group, fall_through, weigh,
  decide, slashing,
}
use provework.Coordinator.Quorum.Groups.{votes}
use provework.Coordinator.Quorum.Decide.{ballots, pool, ids}
use provework.Coordinator.Quorum.Outcomes.{
  SameChain, first_output, decide-accept_sound, decide-accept_complete, decide-escalate_iff,
}
use provework.Coordinator.Quorum.Workers.{slashing_pays_duplicates}

abbrev report : Bytes → Bytes → WorkerResult
report id hash = record {
  worker_id = id;
  job_id = text "job";
  status = text "halted";
  instructions = 7;
  result_hash = hash;
  chunk_hashes = text "c0" ∷ text "c1" ∷ [];
  output_hex = some (text "2a");
  trap = none;
  pubkey_hex = none;
  sig_hex = none;
}

-- Two workers agree, a third does not, and the first reports twice.
abbrev round : List WorkerResult
round =
    report (text "w1") (text "aa")
    ∷ report (text "w2") (text "aa")
    ∷ report (text "w3") (text "bb")
    ∷ []

abbrev agreed : List Bytes
agreed = text "w1" ∷ text "w2" ∷ []

round_accepts : decide round 3 ≡ some (accept (text "aa") (some (text "2a")) agreed false)
unfolding decide group_by sort_groups dedup is_halted accept_group weigh fall_through
round_accepts = refl

decide-accept_sound_example :
    (false ≡ false)
    × (agreed ≡ ids (votes (text "aa") (ballots round)))
    × (pool round 3 < 2 * length agreed)
    × (some (text "2a") ≡ first_output (votes (text "aa") (ballots round)))
    × ((chain : List Bytes) × SameChain chain (votes (text "aa") (ballots round)))
decide-accept_sound_example = decide-accept_sound round 3 round_accepts

decide-accept_complete_example :
    decide round 3
    ≡ some (
        accept
          (text "aa")
          (first_output (votes (text "aa") (ballots round)))
          (ids (votes (text "aa") (ballots round)))
          false)
unfolding dedup is_halted
decide-accept_complete_example =
    decide-accept_complete round 3 (text "aa") (text "c0" ∷ text "c1" ∷ []) (omega arith)
      (refl, (refl, tt))

abbrev split : List WorkerResult
split = report (text "w1") (text "aa") ∷ report (text "w2") (text "bb") ∷ []

split_escalates : decide split 2 ≡ some escalate
unfolding decide group_by sort_groups dedup is_halted accept_group weigh fall_through
split_escalates = refl

decide-escalate_iff_example : (decide split 2 ≡ some escalate) ↔ (
    ((h : Bytes) → 2 * length (votes h (ballots split)) ≤ pool split 2)
    × (2 * (length (dedup [] split) - length (ballots split)) ≤ pool split 2)
    × (pool split 2 < 5))
decide-escalate_iff_example = decide-escalate_iff split 2

slashing_pays_duplicates_example :
    (decide (round ++ report (text "w1") (text "aa") ∷ []) 3
      ≡ some (accept (text "aa") (some (text "2a")) agreed false))
    × (delta_sum (text "w1") (
          slashing
            (accept (text "aa") (some (text "2a")) agreed false)
            (round ++ report (text "w1") (text "aa") ∷ []))
        ≡ (delta_sum
              (text "w1")
              (slashing (accept (text "aa") (some (text "2a")) agreed false) round)
            + 10)
          % 2 ^ 64)
slashing_pays_duplicates_example =
    slashing_pays_duplicates round (report (text "w1") (text "aa")) 3 round_accepts refl refl
