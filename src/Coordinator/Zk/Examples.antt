-- ===== src/Coordinator/Zk/Examples.antt =====
-- The verifier and the judge at concrete inputs: a file system in memory, and processes that print one
-- answer at once.
use provework.Prelude.{
  ◌*◌, Bytes, Option, none, some, List, [], ◌∷◌, true, false, ◌≡◌, refl, sym, arith, replicate,
  text, lower_hex, Option-cases, inl, inr,
}
use provework.Jobfmt.Encodings.{from_hex}
use provework.Contentstore.{Disk}
use provework.Contentstore.Memory.{put_file, put_file-same, put_file-other}
use provework.Coordinator.Zk.Process.{
  Child, ended, running, Created, created, already_exists, Host, wait,
}
use provework.Coordinator.Zk.Receipt.{
  Files, ReceiptOutcome, Verdict, await_verifier, verify_receipt,
}
use provework.Coordinator.Zk.Receipt.Fresh.{IsFileSystem}
use provework.Coordinator.Zk.Receipt.Verified.{
  IsVerified, verify_receipt_sound, Answers, await_verifier-Answers,
}
use provework.Coordinator.Zk.Verdict.{JudgeVerdict, judge_decision, status_decision}
use provework.Coordinator.Zk.Verdict.Bound.{IsImplied, judge_decision_sound}

abbrev make_file : Disk → Bytes → Created
make_file disk path = elim (disk path) [
  | none ↦ created (put_file path [] disk)
  | some _ ↦ already_exists
]

abbrev no_files : Disk
no_files path = none

-- A process that ends at once, with nothing written.
abbrev child : Child
child = record {
  polls = λ i. ended true;
  clock = λ i. 50 * i;
  stdout = (1 ∷ []) ∷ [];
  closes = true;
  disk = no_files;
}

abbrev host : Host
host = record {
  temp_dir = text "/tmp";
  process_id = 7;
  create_dir_all = λ disk path. true;
  create_new = make_file;
  write_all = λ disk path content. (true, put_file path content disk);
  remove_file = λ disk path. disk;
  spawn = λ disk cmd args. some child;
}

created_injective : (x y : Disk) {c : Created} → c ≡ created x → c ≡ created y → x ≡ y
created_injective x y p q = cc

made :
    (disk : Disk) (path : Bytes)
    → disk path ≡ none
    → make_file disk path ≡ created (put_file path [] disk)
made disk path e = rw (make_file, e) refl

occupied :
    (disk : Disk) (path old : Bytes) → disk path ≡ some old → make_file disk path ≡ already_exists
occupied disk path old e = rw (make_file, e) refl

make_file-new :
    (disk : Disk) (path : Bytes) (opened : Disk)
    → make_file disk path ≡ created opened
    → (disk path ≡ none) × (opened ≡ put_file path [] disk)
make_file-new disk path opened h = elim (Option-cases (disk path)) [
  | inl e ↦ (e, sym (created_injective _ _ (made disk path e) h))
  | inr (old, e) ↦ absurd (cc (occupied disk path old e, h))
]

host-IsFileSystem : IsFileSystem host
host-IsFileSystem = record {
  creates_new = λ disk path opened h. (make_file-new disk path opened h).0;
  creates_one = λ disk path opened other h apart.
      rw ((make_file-new disk path opened h).1) (put_file-other path [] disk other apart);
  writes = λ disk path content h. put_file-same path content disk;
  writes_one = λ disk path content other apart. put_file-other path content disk other apart;
}

abbrev start_files : Files
start_files = record { disk = no_files; temp_counter = 5 }

abbrev zeros : Bytes
zeros = replicate 32 0

abbrev binding : List Bytes
binding = zeros ∷ zeros ∷ zeros ∷ []

abbrev outcome : ReceiptOutcome
outcome = record {
  status = 0;
  instructions = 3;
  chunk_hashes = text "c0" ∷ [];
  output_hex = text "0a";
}

abbrev parse_verdict : Bytes → Option Verdict
parse_verdict stdout = some (record {
  ok_flag = true;
  error = none;
  status = some 0;
  instructions = some 3;
  chain = some (text "c0" ∷ []);
  output_hex = some (text "0a");
})

verify_receipt_sound_example :
    IsVerified host parse_verdict
      (text "zk-verify")
      (text "guest")
      false
      binding
      no_files
      (1 ∷ 2 ∷ [])
      outcome
unfolding verify_receipt wait
verify_receipt_sound_example =
    verify_receipt_sound host parse_verdict (text "zk-verify") (text "guest") false binding
      (1 ∷ 2 ∷ []) start_files {out = outcome}
      {left = (verify_receipt host parse_verdict (text "zk-verify") (text "guest") false binding
        (1 ∷ 2 ∷ []) start_files).1}
      host-IsFileSystem refl

-- A process that never ends, by a clock that each round takes 60 milliseconds further.
abbrev stalled : Child
stalled = record {
  polls = λ i. running;
  clock = λ i. 60 * i;
  stdout = [];
  closes = true;
  disk = no_files;
}

await_verifier-Answers_example :
    Answers host parse_verdict
      (text "zk-verify")
      (text "guest")
      false
      binding
      stalled
      (await_verifier host parse_verdict (some stalled))
await_verifier-Answers_example =
    await_verifier-Answers host parse_verdict (text "zk-verify") (text "guest") false binding
      stalled (λ i. omega arith) refl

abbrev judge_verdict : JudgeVerdict
judge_verdict = record {
  ok_flag = true;
  error = none;
  status = some 0;
  instructions = some 3;
  output_hex = some (text "0a");
  vm_cycles = some 900;
  binding = some (lower_hex zeros ∷ lower_hex zeros ∷ lower_hex zeros ∷ []);
}

abbrev sha256 : Bytes → Bytes
sha256 bs = zeros

judge_decision_sound_example :
    IsImplied sha256 judge_verdict binding false (status_decision sha256 0 3 (text "0a") (10 ∷ []))
unfolding judge_decision from_hex lower_hex
judge_decision_sound_example =
    judge_decision_sound sha256 judge_verdict binding false
      {d = status_decision sha256 0 3 (text "0a") (10 ∷ [])} refl refl
