-- ===== src/Coordinator/Zk/Verdict.antt =====
-- crates/coordinator/src/zk_judge.rs: the run of the external judge, and the decision that its verdict
-- implies. SHA-256 and the JSON of a verdict are parameters; `proving_secs`, a float that only the
-- sidecar of a receipt shows, has no field.
pub mod Bound
pub mod Ran
use provework.Prelude.{
  ℕ, zero, suc, ◌+◌, ◌*◌, ◌/◌, ◌^◌, Bytes, Option, none, some, List, [], ◌∷◌, ◌++◌, Bool, true,
  false, if◌then◌else◌, ltb, ◌==◌, not, length, get_or, text, bytes_eq, decimal, lower_hex, Result,
  ok, err,
}
use provework.Jobfmt.Encodings.{HexError, journal, from_hex}
use provework.Contentstore.{Disk}
use provework.Coordinator.Quorum.{Decision, accept, reject}
use provework.Coordinator.Zk.Process.{
  Child, Host, Waited, exited, killed, wait_failed, out_of_fuel, wait,
}
use provework.Coordinator.Zk.Receipt.{or_else}

pub record ZkJudge : Type 0 where
  pub cmd : Bytes
  pub guest_elf : Bytes
  pub max_vm_cycles : ℕ
  -- In milliseconds.
  pub timeout : ℕ
  pub receipt_dir : Option Bytes
  pub verify_cmd : Option Bytes

pub record JudgeVerdict : Type 0 where
  pub ok_flag : Bool
  pub error : Option Bytes
  pub status : Option ℕ
  pub instructions : Option ℕ
  pub output_hex : Option Bytes
  pub vm_cycles : Option ℕ
  pub binding : Option (List Bytes)

-- The messages of the source.
pub data JudgeError : Type 0 where
  no_dir : JudgeError
  not_spawned : JudgeError
  not_polled : JudgeError
  no_answer : JudgeError
  too_long : JudgeError
  timed_out : JudgeError
  bad_output : JudgeError
  rejected : (reason : Bytes) → JudgeError
  bad_exit : JudgeError
  missing : (field : Bytes) → JudgeError
  malformed_binding : JudgeError
  bad_hex : HexError → JudgeError
  other_job : JudgeError

abbrev pub max_verdict_bytes : ℕ
max_verdict_bytes = 2 ^ 20

abbrev pub judge_pause : ℕ
judge_pause = 100

-- The output, read piece by piece until an empty read; none where it is beyond the cap.
unfoldable pub read_capped : List Bytes → Bytes → Option Bytes
read_capped [] got = some got
read_capped ([] ∷ pieces) got = some got
read_capped ((b ∷ bs) ∷ pieces) got = elim (ltb max_verdict_bytes (length (got ++ b ∷ bs))) [
  | true ↦ none
  | false ↦ read_capped pieces (got ++ b ∷ bs)
]

-- A verdict that was read: whether it says it is good, and whether the judge ended with success.
unfoldable pub checked : (said_ok success : Bool) → JudgeVerdict → Result JudgeError JudgeVerdict
checked false success v = err (rejected (or_else v.error (text "judge rejected")))
checked true false v = err bad_exit
checked true true v = ok v

unfoldable pub check_verdict :
    (success : Bool) → Option JudgeVerdict → Result JudgeError JudgeVerdict
unfolding checked
check_verdict success none = err bad_output
check_verdict success (some v) = checked v.ok_flag success v

module _ (parse_judge : Bytes → Option JudgeVerdict) where
  -- What the end of the wait, whether the output closes, and the output within the cap lead to.
  unfoldable pub judged : Waited → (closes : Bool) → Option Bytes → Result JudgeError JudgeVerdict
  unfolding check_verdict
  judged wait_failed closes stdout = err not_polled
  judged out_of_fuel closes stdout = err no_answer
  judged killed closes none = err too_long
  judged killed false (some stdout) = err no_answer
  judged killed true (some stdout) = err timed_out
  judged (exited success) closes none = err too_long
  judged (exited success) false (some stdout) = err no_answer
  judged (exited success) true (some stdout) = check_verdict success (parse_judge stdout)

  unfoldable pub await_judge : (timeout : ℕ) → Option Child → Result JudgeError JudgeVerdict
  unfolding judged read_capped
  await_judge timeout none = err not_spawned
  await_judge timeout (some child) =
      judged (wait timeout child (suc (suc (timeout / judge_pause))) 0) child.closes
        (read_capped child.stdout [])

  module _ (host : Host) (parent : Bytes → Option Bytes) where
    -- Whether the directory of the receipt is there, where a receipt is asked for.
    unfoldable pub makes_dir : Disk → Option Bytes → Bool
    makes_dir disk none = true
    makes_dir disk (some out) = elim (parent out) [
      | none ↦ true
      | some dir ↦ host.create_dir_all disk dir
    ]

    unfoldable pub judge_args : ZkJudge → (job_dir : Bytes) → Option Bytes → List Bytes
    unfolding decimal
    judge_args zk job_dir receipt_out =
        job_dir
        ∷ decimal zk.max_vm_cycles
        ∷ zk.guest_elf
        ∷ elim receipt_out [ none ↦ [] | some out ↦ out ∷ [] ]

    -- The disk after the run of the judge.
    unfoldable pub disk_after : Disk → Option Child → Disk
    disk_after disk none = disk
    disk_after disk (some child) = child.disk

    unfoldable pub run_judge :
        ZkJudge
        → Disk
        → (job_dir : Bytes) (receipt_out : Option Bytes) → Result JudgeError JudgeVerdict × Disk
    unfolding makes_dir judge_args await_judge disk_after
    run_judge zk disk job_dir receipt_out =
        let child = host.spawn disk zk.cmd (judge_args zk job_dir receipt_out) in
        if makes_dir disk receipt_out
        then (await_judge zk.timeout child, disk_after disk child)
        else (err no_dir, disk)

-- The ids of a verdict and those of the job, in order.
unfoldable pub check_ids : List Bytes → List Bytes → Option JudgeError
check_ids [] expected = none
check_ids (h ∷ hs) [] = none
check_ids (h ∷ hs) (e ∷ es) = elim (from_hex h 32) [
  | err x ↦ some (bad_hex x)
  | ok bytes ↦ elim (bytes_eq bytes e) [ true ↦ check_ids hs es | false ↦ some other_job ]
]

-- What is wrong with the binding of a verdict, if anything is.
unfoldable pub check_binding : (v2 : Bool) → (ids expected : List Bytes) → Option JudgeError
unfolding check_ids
check_binding true ids expected =
    if length ids == 1 then check_ids ids (get_or expected 2 [] ∷ []) else some malformed_binding
check_binding false ids expected =
    if length ids == 3 then check_ids ids expected else some malformed_binding

module _ (sha256 : Bytes → Bytes) where
  -- `hex(&jobfmt::journal_digest(..))`
  unfoldable pub digest_hex : ℕ → Bytes → Bytes
  unfolding journal lower_hex
  digest_hex instructions output = lower_hex (sha256 (journal instructions output))

  -- The decision from the status and the digest.
  unfoldable pub status_decision : ℕ → ℕ → (output_hex output : Bytes) → Decision
  unfolding digest_hex decimal
  status_decision status instructions output_hex output =
      if status == 0
      then accept (digest_hex instructions output) (some output_hex) [] true
      else reject
          (text "zk judge: job does not halt cleanly (status " ++ decimal status ++ text ")")

  unfoldable pub fields_decision : Option ℕ → Option ℕ → Option Bytes → Result JudgeError Decision
  unfolding status_decision
  fields_decision none i o = err (missing (text "verdict missing status"))
  fields_decision (some s) none o = err (missing (text "verdict missing instructions"))
  fields_decision (some s) (some i) none = err (missing (text "verdict missing output"))
  fields_decision (some s) (some i) (some o) = elim (from_hex o (length o / 2)) [
    | err x ↦ err (bad_hex x)
    | ok output ↦ ok (status_decision s i o output)
  ]

  unfoldable pub judge_decision :
      JudgeVerdict → (expected_binding : List Bytes) → (v2 : Bool) → Result JudgeError Decision
  unfolding check_binding fields_decision
  judge_decision v expected v2 =
      if not v.ok_flag
      then err (rejected (or_else v.error (text "judge rejected")))
      else elim v.binding [
        | none ↦ err (missing (text "verdict missing binding"))
        | some ids ↦ elim (check_binding v2 ids expected) [
          | some e ↦ err e
          | none ↦ fields_decision v.status v.instructions v.output_hex
        ]
      ]
