-- ===== src/Coordinator/Zk/Cache.antt =====
-- crates/coordinator/src/zk_judge.rs: the cache of the receipts of finished proofs. A key that panics is
-- none.
use provework.Prelude.{
  Result-cases, ℕ, ◌/◌, Bytes, Option, none, some, List, [], ◌++◌, Bool, true, false, ◌≡◌, refl, ap,
  sym, if◌then◌else◌, ◌==◌, ==_iff, length, text, lower_hex, Result, ok, err, Bool-cases,
  Option-cases, inl, inr,
}
use provework.Jobfmt.Encodings.{from_hex, journal}
use provework.Contentstore.{JobDescriptor, join}
use provework.Coordinator.Dispute.{Attempt, answered, unavailable, lost}
use provework.Coordinator.Quorum.{Decision, accept}
use provework.Coordinator.Zk.Process.{Host}
use provework.Coordinator.Zk.Receipt.{
  ReceiptError, no_answer, ReceiptOutcome, Verdict, Files, verify_receipt,
}
use provework.Coordinator.Zk.Receipt.Fresh.{IsFileSystem}
use provework.Coordinator.Zk.Receipt.Verified.{IsVerified, verify_receipt_sound}
use provework.Coordinator.Zk.Verdict.{ZkJudge, digest_hex}

unfoldable pub receipt_cache_key : (blake3 : Bytes → Bytes) → JobDescriptor → Option Bytes
unfolding lower_hex
receipt_cache_key blake3 descriptor = elim (from_hex descriptor.manifest 32) [
  | err e ↦ none
  | ok m ↦ elim (from_hex descriptor.elf 32) [
    | err e ↦ none
    | ok elf ↦ elim (from_hex descriptor.input 32) [
      | err e ↦ none
      | ok input ↦ some (lower_hex (blake3 (m ++ elf ++ input)))
    ]
  ]
]

-- The path of a receipt, and that of its sidecar.
unfoldable pub cache_paths : (receipt_dir key : Bytes) → Bytes × Bytes
unfolding join
cache_paths receipt_dir key =
    let dir = join receipt_dir (text "zk-cache") in
    (join dir (key ++ text ".receipt.bin"), join dir (key ++ text ".verdict.json"))

-- The count of a journal: `V2_JOURNAL_COUNT` for a job of the second format.
unfoldable pub journal_count : (v2 : Bool) → ReceiptOutcome → ℕ
journal_count v2 outcome = if v2 then 0 else outcome.instructions

module _ (sha256 : Bytes → Bytes) (v2 : Bool) where
  -- Whether a verification never ends.
  abbrev pub is_unanswered : ReceiptError → Bool
  is_unanswered no_answer = true
  is_unanswered _ = false

  abbrev pub cached_accept : ReceiptOutcome → Bytes → Decision
  cached_accept outcome output =
      accept (digest_hex sha256 (journal_count v2 outcome) output) (some outcome.output_hex) [] true

  -- The decision of a receipt of the cache that has been verified.
  unfoldable pub cached_decision : Result ReceiptError ReceiptOutcome → Attempt Decision
  unfolding digest_hex journal_count
  cached_decision (err e) = elim (is_unanswered e) [ true ↦ lost | false ↦ unavailable ]
  cached_decision (ok outcome) =
      if outcome.status == 0
      then elim (from_hex outcome.output_hex (length outcome.output_hex / 2)) [
        | err e ↦ unavailable
        | ok output ↦ answered (cached_accept outcome output)
      ]
      else unavailable

  module _ (host : Host) (parse_verdict : Bytes → Option Verdict) (zk : ZkJudge)
      (binding : List Bytes) where
    -- The look at the cache once the verifier's command is known.
    unfoldable pub verify_hit : (cmd : Bytes) → Option Bytes → Files → Attempt Decision × Files
    unfolding cached_decision verify_receipt
    verify_hit cmd none files = (unavailable, files)
    verify_hit cmd (some receipt) files =
        let (answer, left) =
          verify_receipt host parse_verdict cmd zk.guest_elf v2 binding receipt files in
        (cached_decision answer, left)

    unfoldable pub verify_cached : (receipt_dir key : Bytes) → Files → Attempt Decision × Files
    unfolding verify_hit cache_paths
    verify_cached receipt_dir key files = elim zk.verify_cmd [
      | none ↦ (unavailable, files)
      | some cmd ↦ verify_hit cmd (files.disk ((cache_paths receipt_dir key).0)) files
    ]

    -- What a hit rests on: the stored receipt, verified now for this job, of a clean halt.
    pub record IsHit (path : Bytes) (files : Files) (d : Decision) : Type 0 where
      pub cmd : Bytes
      pub receipt : Bytes
      pub outcome : ReceiptOutcome
      pub output : Bytes
      pub has_cmd : zk.verify_cmd ≡ some cmd
      pub stored : files.disk path ≡ some receipt
      pub verified :
          IsVerified host parse_verdict cmd zk.guest_elf v2 binding files.disk receipt outcome
      pub halted : outcome.status ≡ 0
      pub decoded : from_hex outcome.output_hex (length outcome.output_hex / 2) ≡ ok output
      pub decided :
          d
          ≡ accept
              (lower_hex (sha256 (journal (if v2 then 0 else outcome.instructions) output)))
              (some outcome.output_hex)
              []
              true

    abbrev Decided : Result ReceiptError ReceiptOutcome → Decision → Type 0
    Decided r d =
        (outcome : ReceiptOutcome) × (output : Bytes) × (r ≡ ok outcome)
        × (outcome.status ≡ 0)
        × (from_hex outcome.output_hex (length outcome.output_hex / 2) ≡ ok output)
        × (d ≡ cached_accept outcome output)

    answered_injective : (x y : Decision) → answered x ≡ answered y → x ≡ y
    answered_injective x y h = cc

    cached_decision-answered :
        (r : Result ReceiptError ReceiptOutcome) {d : Decision}
        → cached_decision r ≡ answered d
        → Decided r d
    unfolding cached_decision
    cached_decision-answered (err e) h = elim (Bool-cases (is_unanswered e)) [
      | inl endless ↦ absurd (cc (rw (cached_decision, endless) at h))
      | inr ended ↦ absurd (cc (rw (cached_decision, ended) at h))
    ]
    cached_decision-answered (ok outcome) {d} h = elim (Bool-cases (outcome.status == 0)) [
      | inr other ↦ absurd (cc (rw other at h))
      | inl halted ↦
          elim (Result-cases (from_hex outcome.output_hex (length outcome.output_hex / 2))) [
            | inl (e, p) ↦ absurd (cc (rw (halted, p) at h))
            | inr (output, p) ↦ (
              outcome,
              output,
              refl,
              (==_iff _ _).0 halted,
              p,
              sym (answered_injective _ _ (rw (halted, p) at h)),
            )
          ]
    ]

    abbrev HitOf : (cmd : Bytes) → Option Bytes → Files → Decision → Type 0
    HitOf cmd o files d =
        (receipt : Bytes) × (o ≡ some receipt)
        × Decided ((verify_receipt host parse_verdict cmd zk.guest_elf v2 binding receipt files).0)
            d

    verify_hit-answered :
        (cmd : Bytes) (o : Option Bytes) (files : Files) {d : Decision}
        → (verify_hit cmd o files).0 ≡ answered d
        → HitOf cmd o files d
    unfolding verify_hit
    verify_hit-answered cmd none files h = absurd cc
    verify_hit-answered cmd (some receipt) files h = (
      receipt,
      refl,
      cached_decision-answered
          ((verify_receipt host parse_verdict cmd zk.guest_elf v2 binding receipt files).0) h,
    )

    -- A decision from the cache is an acceptance without workers for a receipt that is stored under the
    -- key and that the standalone verifier has just passed for this job's ids with status 0; without the
    -- verifier's command there is none. The digest is that of the receipt's own output.
    pub verify_cached_sound :
        (receipt_dir key : Bytes) (files : Files) {d : Decision}
        → IsFileSystem host
        → (verify_cached receipt_dir key files).0 ≡ answered d
        → IsHit ((cache_paths receipt_dir key).0) files d
    unfolding verify_cached digest_hex journal_count
    verify_cached_sound receipt_dir key files {d} law h = elim (Option-cases zk.verify_cmd) [
      | inl missing ↦ absurd (cc (rw (verify_cached, missing) at h))
      | inr (cmd, c) ↦
          let path = (cache_paths receipt_dir key).0 in
          let (receipt, stored, rest) =
            verify_hit-answered cmd (files.disk path) files (rw (verify_cached, c) at h) in
          let (outcome, output, r, halted, p, q) = rest in
          let run = verify_receipt host parse_verdict cmd zk.guest_elf v2 binding receipt files in
          record {
            cmd = cmd;
            receipt = receipt;
            outcome = outcome;
            output = output;
            has_cmd = c;
            stored = stored;
            verified =
                verify_receipt_sound host parse_verdict cmd zk.guest_elf v2 binding receipt files
                  law (ap (λ (t : Result ReceiptError ReceiptOutcome). (t, run.1)) r);
            halted = halted;
            decoded = p;
            decided = q;
          }
    ]
