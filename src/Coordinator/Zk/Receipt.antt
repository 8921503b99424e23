-- ===== src/Coordinator/Zk/Receipt.antt =====
-- crates/coordinator/src/receipt.rs: a receipt goes to the external verifier in a file of its own, and
-- the verifier's verdict comes back as JSON on its output, whose parser is a parameter.
pub mod Fresh
pub mod Verified
use provework.Prelude.{
  ℕ, zero, suc, ◌+◌, ◌*◌, ◌/◌, ◌%◌, ◌^◌, Bytes, Option, none, some, List, [], ◌∷◌, ◌++◌, map, Bool,
  true, false, if◌then◌else◌, ltb, length, text, decimal, upper_hex, Result, ok, err,
}
use provework.Contentstore.{Disk, join}
use provework.Coordinator.Zk.Process.{
  Child, Created, created, already_exists, create_failed, Host, Waited, exited, killed, wait_failed,
  out_of_fuel, wait,
}

pub record ReceiptOutcome : Type 0 where
  pub status : ℕ
  pub instructions : ℕ
  pub chunk_hashes : List Bytes
  pub output_hex : Bytes

-- The messages of the source.
pub data ReceiptError : Type 0 where
  too_large : (size limit : ℕ) → ReceiptError
  no_dir : ReceiptError
  not_written : ReceiptError
  not_created : ReceiptError
  no_unique_file : ReceiptError
  not_spawned : ReceiptError
  not_polled : ReceiptError
  -- There is no end: of the wait, or of the output.
  no_answer : ReceiptError
  timed_out : ReceiptError
  verifier_failed : (output : Bytes) → ReceiptError
  bad_output : ReceiptError
  rejected : (reason : Bytes) → ReceiptError
  missing : (field : Bytes) → ReceiptError

abbrev pub max_receipt_bytes : ℕ
max_receipt_bytes = 64 * 2 ^ 20

-- In milliseconds: the wait of the source, and its sleep between two polls.
abbrev pub verify_timeout : ℕ
verify_timeout = 180_000

abbrev pub verify_pause : ℕ
verify_pause = 50

pub record Verdict : Type 0 where
  pub ok_flag : Bool
  pub error : Option Bytes
  pub status : Option ℕ
  pub instructions : Option ℕ
  pub chain : Option (List Bytes)
  pub output_hex : Option Bytes

-- The disk, and the counter of the temporary files.
pub record Files : Type 0 where
  pub disk : Disk
  pub temp_counter : ℕ

abbrev pub or_else : Option Bytes → Bytes → Bytes
or_else none reason = reason
or_else (some given) reason = given

-- The answer of a verdict that says it is good.
unfoldable pub outcome_of :
    Option ℕ → Option ℕ → Option (List Bytes) → Option Bytes → Result ReceiptError ReceiptOutcome
outcome_of none i c o = err (missing (text "verdict missing status"))
outcome_of (some s) none c o = err (missing (text "verdict missing instructions"))
outcome_of (some s) (some i) none o = err (missing (text "verdict missing chain"))
outcome_of (some s) (some i) (some c) none = err (missing (text "verdict missing output"))
outcome_of (some s) (some i) (some c) (some o) =
    ok (record { status = s; instructions = i; chunk_hashes = c; output_hex = o })

unfoldable pub read_verdict : Option Verdict → Result ReceiptError ReceiptOutcome
unfolding outcome_of
read_verdict none = err bad_output
read_verdict (some v) =
    if v.ok_flag
    then outcome_of v.status v.instructions v.chain v.output_hex
    else err (rejected (or_else v.error (text "receipt rejected")))

-- The pieces of an output together.
unfoldable pub concat : List Bytes → Bytes
concat [] = []
concat (piece ∷ pieces) = piece ++ concat pieces

-- `read_to_end` of the output; none where it never ends.
unfoldable pub read_to_end : Child → Option Bytes
unfolding concat
read_to_end child = if child.closes then some (concat child.stdout) else none

module _ (host : Host) where
  unfoldable pub receipt_dir : Bytes
  unfolding join
  receipt_dir = join host.temp_dir (text "p2pc-zk-verify")

  unfoldable pub receipt_path : ℕ → Bytes
  unfolding join receipt_dir decimal
  receipt_path n =
      join receipt_dir
        (text "receipt-" ++ decimal host.process_id ++ text "-" ++ decimal n ++ text ".bin")

  -- The tries of `exclusive_receipt_file` that are left, the counter taken once in each.
  unfoldable pub create_from : (tries : ℕ) → Bytes → Disk → ℕ → Result ReceiptError Bytes × Files
  unfolding receipt_path
  create_from zero bytes disk n = (err no_unique_file, record { disk = disk; temp_counter = n })
  create_from (suc tries) bytes disk n =
      let path = receipt_path n in
      let next = (n + 1) % 2 ^ 64 in
      elim (host.create_new disk path) [
        | already_exists ↦ create_from tries bytes disk next
        | create_failed ↦ (err not_created, record { disk = disk; temp_counter = next })
        | created opened ↦
            let (written, left) = host.write_all opened path bytes in
            (
              if written then ok path else err not_written,
              record { disk = left; temp_counter = next },
            )
      ]

  unfoldable pub exclusive_receipt_file : Bytes → Files → Result ReceiptError Bytes × Files
  unfolding create_from receipt_dir
  exclusive_receipt_file bytes files =
      if host.create_dir_all files.disk receipt_dir
      then create_from 32 bytes files.disk files.temp_counter
      else (err no_dir, files)

  module _ (parse_verdict : Bytes → Option Verdict) where
    -- What the end of the wait for the verifier leads to. Its output is read to its end, if it has one,
    -- also where it was killed.
    unfoldable pub after_wait : Waited → Option Bytes → Result ReceiptError ReceiptOutcome
    unfolding read_verdict
    after_wait out_of_fuel stdout = err no_answer
    after_wait wait_failed stdout = err not_polled
    after_wait killed none = err no_answer
    after_wait killed (some stdout) = err timed_out
    after_wait (exited b) none = err no_answer
    after_wait (exited false) (some stdout) = err (verifier_failed stdout)
    after_wait (exited true) (some stdout) = read_verdict (parse_verdict stdout)

    unfoldable pub await_verifier : Option Child → Result ReceiptError ReceiptOutcome
    unfolding after_wait read_to_end
    await_verifier none = err not_spawned
    await_verifier (some child) =
        after_wait (wait verify_timeout child (suc (verify_timeout / verify_pause)) 0)
          (read_to_end child)

    unfoldable pub verifier_args :
        (guest_elf receipt_path : Bytes) (v2 : Bool) (binding : List Bytes) → List Bytes
    unfolding upper_hex
    verifier_args guest_elf receipt_path v2 binding =
        guest_elf ∷ receipt_path ∷ ((if v2 then text "--v2" ∷ [] else []) ++ map upper_hex binding)

    -- The disk once the verifier is through and its file has been removed.
    unfoldable pub cleaned : Disk → Bytes → Option Child → Disk
    cleaned disk path none = host.remove_file disk path
    cleaned disk path (some child) = host.remove_file child.disk path

    module _ (cmd guest_elf : Bytes) (v2 : Bool) (binding : List Bytes) where
      unfoldable pub spawn_verifier : Disk → (path : Bytes) → Option Child
      unfolding verifier_args
      spawn_verifier disk path = host.spawn disk cmd (verifier_args guest_elf path v2 binding)

      -- The verification, from the file of the receipt on.
      unfoldable pub verify_file :
          Result ReceiptError Bytes × Files → Result ReceiptError ReceiptOutcome × Files
      unfolding await_verifier spawn_verifier cleaned
      verify_file (err e, files) = (err e, files)
      verify_file (ok path, files) =
          let child = spawn_verifier files.disk path in
          (await_verifier child, record files { disk = cleaned files.disk path child })

      unfoldable pub verify_receipt : Bytes → Files → Result ReceiptError ReceiptOutcome × Files
      unfolding exclusive_receipt_file verify_file
      verify_receipt receipt files =
          if ltb max_receipt_bytes (length receipt)
          then (err (too_large (length receipt) max_receipt_bytes), files)
          else verify_file (exclusive_receipt_file receipt files)
