-- ===== src/Coordinator/Zk/Receipt/Verified.antt =====
-- crates/coordinator/src/receipt.rs: what an outcome of `verify_receipt` rests on.
use provework.Prelude.{
  ltb→le_flip, [], ◌∷◌, ◌++◌, map, text, upper_hex, if◌then◌else◌, ℕ, suc, ◌+◌, ◌*◌, ◌/◌, ◌≤◌,
  Bytes, Option, none, some, List, Bool, true, false, ◌≡◌, ◌⊎◌, sym, ◌∙◌, refl, ap, arith, ltb,
  length, Result, ok, err, Bool-cases, inl, inr,
}
use provework.Contentstore.{Disk}
use provework.Coordinator.Zk.Process.{
  ended, running, poll_failed, Child, Host, Waited, exited, killed, wait_failed, out_of_fuel, wait,
}
use provework.Coordinator.Zk.Process.Ends.{Sleeps, Early, EndsIn, wait-Ends, wait-exited}
use provework.Coordinator.Zk.Receipt.{
  Files, ReceiptError, ReceiptOutcome, Verdict, not_polled, timed_out, verifier_failed, read_to_end,
  max_receipt_bytes, verify_timeout, verify_pause, outcome_of, read_verdict, concat, after_wait,
  await_verifier, spawn_verifier, verifier_args, verify_file, verify_receipt,
  exclusive_receipt_file,
}
use provework.Coordinator.Zk.Receipt.Fresh.{IsFileSystem, IsNew, exclusive_receipt_file_sound}

-- The verdict of which an outcome is the content.
pub record IsContent (v : Verdict) (outcome : ReceiptOutcome) : Type 0 where
  pub said_ok : v.ok_flag ≡ true
  pub status : v.status ≡ some outcome.status
  pub instructions : v.instructions ≡ some outcome.instructions
  pub chain : v.chain ≡ some outcome.chunk_hashes
  pub output : v.output_hex ≡ some outcome.output_hex

abbrev Fields : Option ℕ → Option ℕ → Option (List Bytes) → Option Bytes → ReceiptOutcome → Type 0
Fields s i c o out =
    (s ≡ some out.status)
    × (i ≡ some out.instructions)
    × (c ≡ some out.chunk_hashes)
    × (o ≡ some out.output_hex)

outcome_of-ok :
    (s i : Option ℕ) (c : Option (List Bytes)) (o : Option Bytes) {out : ReceiptOutcome}
    → outcome_of s i c o ≡ ok out
    → Fields s i c o out
unfolding outcome_of
outcome_of-ok none i c o h = absurd cc
outcome_of-ok (some s) none c o h = absurd cc
outcome_of-ok (some s) (some i) none o h = absurd cc
outcome_of-ok (some s) (some i) (some c) none h = absurd cc
outcome_of-ok (some s) (some i) (some c) (some o) {out} h =
    let w : record { status = s; instructions = i; chunk_hashes = c; output_hex = o } ≡ out = cc in
    (
      ap (λ (t : ReceiptOutcome). some t.status) w,
      ap (λ (t : ReceiptOutcome). some t.instructions) w,
      ap (λ (t : ReceiptOutcome). some t.chunk_hashes) w,
      ap (λ (t : ReceiptOutcome). some t.output_hex) w,
    )

read_verdict-ok :
    (o : Option Verdict) {out : ReceiptOutcome}
    → read_verdict o ≡ ok out
    → (v : Verdict) × (o ≡ some v) × IsContent v out
unfolding read_verdict
read_verdict-ok none h = absurd cc
read_verdict-ok (some v) {out} h = elim (Bool-cases v.ok_flag) [
  | inr bad ↦ absurd (cc (rw bad at h))
  | inl good ↦
      let (s, i, c, o) =
        outcome_of-ok v.status v.instructions v.chain v.output_hex (rw good at h) in
      (v, refl, record { said_ok = good; status = s; instructions = i; chain = c; output = o })
]

module _ (host : Host) (parse_verdict : Bytes → Option Verdict) where
  after_wait-ok :
      (w : Waited) (o : Option Bytes) {out : ReceiptOutcome}
      → after_wait host parse_verdict w o ≡ ok out
      → (w ≡ exited true)
        × (stdout : Bytes) × (o ≡ some stdout)
        × (v : Verdict) × (parse_verdict stdout ≡ some v)
        × IsContent v out
  unfolding after_wait
  after_wait-ok out_of_fuel o h = absurd cc
  after_wait-ok wait_failed o h = absurd cc
  after_wait-ok killed none h = absurd cc
  after_wait-ok killed (some stdout) h = absurd cc
  after_wait-ok (exited b) none h = absurd cc
  after_wait-ok (exited false) (some stdout) h = absurd cc
  after_wait-ok (exited true) (some stdout) h =
      let (v, p, content) = read_verdict-ok (parse_verdict stdout) h in
      (refl, stdout, refl, v, p, content)

  read_to_end-some :
      (child : Child) {stdout : Bytes}
      → read_to_end child ≡ some stdout
      → stdout ≡ concat child.stdout
  unfolding read_to_end
  read_to_end-some child h = elim (Bool-cases child.closes) [
    | inl e ↦ cc (rw e at h)
    | inr e ↦ absurd (cc (rw e at h))
  ]

  read_to_end-closes :
      (child : Child) → child.closes ≡ true → read_to_end child ≡ some (concat child.stdout)
  unfolding read_to_end
  read_to_end-closes child e = rw e refl

  module _ (cmd guest_elf : Bytes) (v2 : Bool) (binding : List Bytes) where
    -- The run of the verifier behind an outcome: the command was started with the guest's ELF file, a
    -- path that had no file before and that holds the receipt, and the ids of the job in hex, ended by
    -- itself with success before its deadline, and printed the verdict with the outcome's content.
    pub record IsVerified (disk : Disk) (receipt : Bytes) (outcome : ReceiptOutcome) : Type 0 where
      pub path : Bytes
      pub during : Disk
      pub child : Child
      pub verdict : Verdict
      pub size : length receipt ≤ max_receipt_bytes
      pub fresh : IsNew host disk receipt path during
      pub started :
          host.spawn during cmd
            (guest_elf ∷ path ∷ ((if v2 then text "--v2" ∷ [] else []) ++ map upper_hex binding))
          ≡ some child
      pub poll : ℕ
      pub succeeded : child.polls poll ≡ ended true
      pub printed : parse_verdict (concat child.stdout) ≡ some verdict
      pub content : IsContent verdict outcome

    await_verifier-ok :
        (o : Option Child) {out : ReceiptOutcome}
        → await_verifier host parse_verdict o ≡ ok out
        → (child : Child) × (o ≡ some child)
          × (wait verify_timeout child (suc (verify_timeout / verify_pause)) 0 ≡ exited true)
          × (v : Verdict) × (parse_verdict (concat child.stdout) ≡ some v)
          × IsContent v out
    unfolding await_verifier
    await_verifier-ok none h = absurd cc
    await_verifier-ok (some child) h =
        let (w, stdout, r, v, p, content) = after_wait-ok _ (read_to_end child) h in
        (child, refl, w, v, ap parse_verdict (sym (read_to_end-some child r)) ∙ p, content)

    verify_file-ok :
        (made : Result ReceiptError Bytes) (files : Files) {out : ReceiptOutcome} {left : Files}
        → verify_file host parse_verdict cmd guest_elf v2 binding (made, files) ≡ (ok out, left)
        → (path : Bytes) × (made ≡ ok path)
          × (await_verifier host parse_verdict
                (spawn_verifier host parse_verdict cmd guest_elf v2 binding files.disk path)
              ≡ ok out)
    unfolding verify_file
    verify_file-ok (err e) files h = absurd cc
    verify_file-ok (ok path) files h = (path, refl, cc)

    -- A receipt has an outcome only if it is at most 64 MiB, and the verifier that was started on a new
    -- file with exactly its bytes, the guest's ELF file and the three ids of the job ended with success
    -- and printed a verdict that says it is good and has every field of the outcome.
    pub verify_receipt_sound :
        (receipt : Bytes) (files : Files) {out : ReceiptOutcome} {left : Files}
        → IsFileSystem host
        → verify_receipt host parse_verdict cmd guest_elf v2 binding receipt files ≡ (ok out, left)
        → IsVerified files.disk receipt out
    unfolding verify_receipt spawn_verifier verifier_args
    verify_receipt_sound receipt files {out} {left} law h =
        elim (Bool-cases (ltb max_receipt_bytes (length receipt))) [
          | inl big ↦ absurd (cc (rw (verify_receipt, big) at h))
          | inr small ↦
              let made = exclusive_receipt_file host receipt files in
              let (path, p, a) = verify_file-ok made.0 made.1 (rw (verify_receipt, small) at h) in
              let (child, c, w, v, q, content) = await_verifier-ok _ a in
              record {
                path = path;
                during = made.1.disk;
                child = child;
                verdict = v;
                size = ltb→le_flip _ _ small;
                fresh =
                    exclusive_receipt_file_sound host law receipt files
                      (ap (λ (t : Result ReceiptError Bytes). (t, made.1)) p);
                started = c;
                poll = (wait-exited verify_timeout child _ 0 w).0;
                succeeded = (wait-exited verify_timeout child _ 0 w).1;
                printed = q;
                content = content;
              }
        ]

    -- What the verifier's last round leads to: the reading of its output where it has ended by itself, and
    -- a refusal where its time was up or a poll of it failed.
    abbrev pub Answers : Child → Result ReceiptError ReceiptOutcome → Type 0
    Answers child r =
        (k : ℕ) × Early verify_timeout child 0 k
        × (((child.polls k ≡ ended true) × (r ≡ read_verdict (parse_verdict (concat child.stdout))))
            ⊎ (((child.polls k ≡ ended false) × (r ≡ err (verifier_failed (concat child.stdout))))
                ⊎ (((child.polls k ≡ running)
                      × (verify_timeout ≤ child.clock k)
                      × (r ≡ err timed_out))
                    ⊎ ((child.polls k ≡ poll_failed) × (r ≡ err not_polled)))))

    await_verifier-wait :
        (child : Child) (w : Waited)
        → child.closes ≡ true
        → wait verify_timeout child (suc (verify_timeout / verify_pause)) 0 ≡ w
        → await_verifier host parse_verdict (some child)
          ≡ after_wait host parse_verdict w (some (concat child.stdout))
    unfolding await_verifier
    await_verifier-wait child w c e = rw (await_verifier, e, read_to_end-closes child c) refl

    after_wait-Answers :
        (child : Child) (k : ℕ) (w : Waited)
        → Early verify_timeout child 0 k
        → EndsIn verify_timeout child k w
        → Answers child (after_wait host parse_verdict w (some (concat child.stdout)))
    unfolding after_wait
    after_wait-Answers child k w early (inl (true, p, e)) = (k, early, inl (p, rw e refl))
    after_wait-Answers child k w early (inl (false, p, e)) = (k, early, inr (inl (p, rw e refl)))
    after_wait-Answers child k w early (inr (inl (p, l, e))) =
        (k, early, inr (inr (inl (p, l, rw e refl))))
    after_wait-Answers child k w early (inr (inr (p, e))) =
        (k, early, inr (inr (inr (p, rw e refl))))

    -- A verifier that was started, and whose output closes, leads to an answer by a first decisive round of
    -- the wait, before which it was running and its 180 seconds were not over: where it has ended in that
    -- round the answer is its output's, or the failure that its output reports; where it still runs and the
    -- 180 seconds are over the receipt is refused for its time, and where the poll fails, for that. Each
    -- round of the wait sleeps its 50 milliseconds.
    pub await_verifier-Answers :
        (child : Child)
        → Sleeps verify_pause child
        → child.closes ≡ true
        → Answers child (await_verifier host parse_verdict (some child))
    await_verifier-Answers child sleeps c =
        let (k, past, early, e) =
          wait-Ends verify_timeout child verify_pause (verify_timeout / verify_pause) 0 sleeps
            (reaches (child.clock 0)) in
        rw (await_verifier-wait child _ c refl) (after_wait-Answers child k _ early e)
      where
        reaches : (c : ℕ) → verify_timeout ≤ c + verify_timeout / verify_pause * verify_pause
        reaches c = omega arith
