-- ===== src/Coordinator/Zk/Verdict/Ran.antt =====
-- crates/coordinator/src/zk_judge.rs: what a verdict of `run_judge` rests on.
use provework.Prelude.{
  ltb→le_flip, some_injective, ok_injective, decimal, ◌∷◌, ℕ, ◌≤◌, Bytes, Option, none, some, List,
  [], ◌∷◌, ◌++◌, Bool, true, false, ◌≡◌, refl, ap, sym, ◌∙◌, arith, ltb, length, ok, Bool-cases,
  inl, inr,
}
use provework.Contentstore.{Disk}
use provework.Coordinator.Zk.Process.Ends.{wait-exited}
use provework.Coordinator.Zk.Process.{
  ended, Child, Host, Waited, exited, killed, wait_failed, out_of_fuel,
}
use provework.Coordinator.Zk.Verdict.{
  ZkJudge, JudgeVerdict, max_verdict_bytes, read_capped, checked, check_verdict, judged,
  await_judge, makes_dir, judge_args, run_judge,
}

le_congr : (x y : Bytes) → x ≡ y → length x ≤ max_verdict_bytes → length y ≤ max_verdict_bytes
le_congr x y e l = rw (← e) l

-- What is read of the output is within the cap.
read_capped-le :
    (pieces : List Bytes) (got : Bytes) {out : Bytes}
    → length got ≤ max_verdict_bytes
    → read_capped pieces got ≡ some out
    → length out ≤ max_verdict_bytes
unfolding read_capped
read_capped-le [] got {out} l h = le_congr got out (some_injective got out refl h) l
read_capped-le ([] ∷ pieces) got {out} l h = le_congr got out (some_injective got out refl h) l
read_capped-le ((b ∷ bs) ∷ pieces) got l h =
    elim (Bool-cases (ltb max_verdict_bytes (length (got ++ b ∷ bs)))) [
      | inl beyond ↦ absurd (cc (rw (read_capped, beyond) at h))
      | inr fits ↦
          read_capped-le pieces (got ++ b ∷ bs) (ltb→le_flip _ _ fits) (rw (read_capped, fits) at h)
    ]

checked-ok :
    (good success : Bool) (w : JudgeVerdict) {v : JudgeVerdict}
    → checked good success w ≡ ok v
    → (good ≡ true) × (success ≡ true) × (w ≡ v)
unfolding checked
checked-ok false success w h = absurd cc
checked-ok true false w h = absurd cc
checked-ok true true w {v} h = (refl, refl, ok_injective w v refl h)

check_verdict-ok :
    (success : Bool) (o : Option JudgeVerdict) {v : JudgeVerdict}
    → check_verdict success o ≡ ok v
    → (success ≡ true) × (o ≡ some v) × (v.ok_flag ≡ true)
unfolding check_verdict
check_verdict-ok success none h = absurd cc
check_verdict-ok success (some w) {v} h =
    let (good, fine, same) = checked-ok w.ok_flag success w h in
    (fine, ap some same, sym (ap (λ (t : JudgeVerdict). t.ok_flag) same) ∙ good)

module _ (parse_judge : Bytes → Option JudgeVerdict) where
  judged-ok :
      (w : Waited) (closes : Bool) (o : Option Bytes) {v : JudgeVerdict}
      → judged parse_judge w closes o ≡ ok v
      → (stdout : Bytes) × (w ≡ exited true)
        × (o ≡ some stdout)
        × (parse_judge stdout ≡ some v)
        × (v.ok_flag ≡ true)
  unfolding judged
  judged-ok wait_failed c o h = absurd cc
  judged-ok out_of_fuel c o h = absurd cc
  judged-ok killed c none h = absurd cc
  judged-ok killed false (some stdout) h = absurd cc
  judged-ok killed true (some stdout) h = absurd cc
  judged-ok (exited success) c none h = absurd cc
  judged-ok (exited success) false (some stdout) h = absurd cc
  judged-ok (exited success) true (some stdout) h =
      let (s, p, g) = check_verdict-ok success (parse_judge stdout) h in
      (stdout, rw s refl, refl, p, g)

  module _ (host : Host) (parent : Bytes → Option Bytes) (zk : ZkJudge) (disk : Disk)
      (job_dir : Bytes) (receipt_out : Option Bytes) where
    -- The judge that was started for a job's directory under the limit on cycles, ended by itself with
    -- success in time, and printed the verdict within the cap.
    pub record IsRun (v : JudgeVerdict) : Type 0 where
      pub child : Child
      pub stdout : Bytes
      pub started :
          host.spawn disk zk.cmd (
            job_dir
            ∷ decimal zk.max_vm_cycles
            ∷ zk.guest_elf
            ∷ elim receipt_out [ none ↦ [] | some out ↦ out ∷ [] ])
          ≡ some child
      pub poll : ℕ
      pub succeeded : child.polls poll ≡ ended true
      pub read : read_capped child.stdout [] ≡ some stdout
      pub capped : length stdout ≤ max_verdict_bytes
      pub printed : parse_judge stdout ≡ some v
      pub said_ok : v.ok_flag ≡ true

    await_judge-ok :
        (o : Option Child) {v : JudgeVerdict}
        → host.spawn disk zk.cmd (judge_args parse_judge host parent zk job_dir receipt_out) ≡ o
        → await_judge parse_judge zk.timeout o ≡ ok v
        → IsRun v
    unfolding await_judge judge_args
    await_judge-ok none s h = absurd cc
    await_judge-ok (some child) s h =
        let (stdout, w, r, p, g) = judged-ok _ child.closes (read_capped child.stdout []) h in
        record {
          child = child;
          stdout = stdout;
          started = s;
          poll = (wait-exited zk.timeout child _ 0 w).0;
          succeeded = (wait-exited zk.timeout child _ 0 w).1;
          read = r;
          capped = read_capped-le child.stdout [] (omega arith) r;
          printed = p;
          said_ok = g;
        }

    -- A run of the judge gives a verdict only where the process that was started for the job's directory
    -- ended by itself with success in time and printed, ltb→le_flip 1 MiB, a verdict that says it is good.
    pub run_judge_sound :
        {v : JudgeVerdict}
        → (run_judge parse_judge host parent zk disk job_dir receipt_out).0 ≡ ok v
        → IsRun v
    unfolding run_judge
    run_judge_sound {v} h = elim (Bool-cases (makes_dir parse_judge host parent disk receipt_out)) [
      | inr unmade ↦ absurd (cc (rw (run_judge, unmade) at h))
      | inl made ↦ await_judge-ok _ refl (rw (run_judge, made) at h)
    ]
