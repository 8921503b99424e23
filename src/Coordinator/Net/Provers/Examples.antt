-- ===== src/Coordinator/Net/Provers/Examples.antt =====
-- The provers at concrete inputs: every file has the same contents, every digest is zero, and the judge
-- prints one verdict at once.
use provework.Prelude.{
  ◌*◌, Bytes, none, some, [], ◌∷◌, true, false, refl, replicate, text, lower_hex, cuts_before,
  hex_pair,
}
use provework.Jobfmt.{JobManifest, is_sp1_v2}
use provework.Jobfmt.Confined.{confined_name}
use provework.Jobfmt.Encodings.{from_hex}
use provework.Contentstore.Memory.{put_file}
use provework.Contentstore.{Disk, JobDescriptor, fetch}
use provework.Coordinator.Zk.Process.{Child, ended, create_failed, Host, wait}
use provework.Coordinator.Zk.Receipt.{Files}
use provework.Coordinator.Zk.Receipt.Fresh.{IsFileSystem}
use provework.Coordinator.Zk.Verdict.{ZkJudge, JudgeVerdict, status_decision}
use provework.Coordinator.Net.{PendingJob}
use provework.Coordinator.Net.Receipts.{expected_binding}
use provework.Coordinator.Net.Provers.{ProofEnv, work_dir}
use provework.Coordinator.Net.Provers.Proving.{prove_one}
use provework.Coordinator.Net.Provers.Proved.{IsProved, prove_one_sound}

abbrev nines : Disk
nines path = some (9 ∷ [])

abbrev child : Child
child = record {
  polls = λ i. ended true;
  clock = λ i. 100 * i;
  stdout = [];
  closes = true;
  disk = nines;
}

abbrev host : Host
host = record {
  temp_dir = text "/tmp";
  process_id = 7;
  create_dir_all = λ disk path. true;
  create_new = λ disk path. create_failed;
  write_all = λ disk path content. (false, disk);
  remove_file = λ disk path. disk;
  spawn = λ disk cmd args. some child;
}

host-IsFileSystem : IsFileSystem host
host-IsFileSystem = record {
  creates_new = λ disk path opened h. absurd cc;
  creates_one = λ disk path opened other h apart. absurd cc;
  writes = λ disk path content h. absurd cc;
  writes_one = λ disk path content other apart. refl;
}

abbrev zeros : Bytes
zeros = replicate 32 0

abbrev manifest : JobManifest
manifest = record {
  schema = 1;
  id = text "j";
  name = text "j";
  isa = text "rv64";
  format = none;
  toolchain = [];
  chunk_size = 4;
  max_instructions = 9;
  verification_class = [];
  elf = text "a";
  input = text "b";
}

abbrev verdict : JudgeVerdict
verdict = record {
  ok_flag = true;
  error = none;
  status = some 0;
  instructions = some 3;
  output_hex = some (text "0a");
  vm_cycles = some 900;
  binding = some (lower_hex zeros ∷ lower_hex zeros ∷ lower_hex zeros ∷ []);
}

abbrev proof_env : ProofEnv
proof_env = record {
  host = host;
  blake3 = λ bs. zeros;
  sha256 = λ bs. zeros;
  store = record {
    write = λ disk path content. (true, put_file path content disk);
    root = text "store";
  };
  parse_manifest = λ bs. some manifest;
  parse_verdict = λ bs. none;
  parse_judge = λ bs. some verdict;
  parent = λ path. none;
  remove_dir_all = λ disk path. disk;
  copy = λ disk from to. disk;
  sidecar = λ key job_id v. [];
}

abbrev zk : ZkJudge
zk = record {
  cmd = text "zk-judge";
  guest_elf = text "guest";
  max_vm_cycles = 1000;
  timeout = 500;
  receipt_dir = none;
  verify_cmd = none;
}

abbrev listing : JobDescriptor
listing = record {
  job_id = text "j";
  manifest = lower_hex zeros;
  elf = lower_hex zeros;
  input = lower_hex zeros;
}

abbrev job : PendingJob
job = record {
  descriptor = listing;
  targets = none;
  dispatched = true;
  escalated = false;
  dispatched_ids = [];
  reserves = [];
  results = [];
  zk_accept = none;
  receipt_claimed = [];
  subscribers = [];
}

abbrev start_files : Files
start_files = record { disk = nines; temp_counter = 0 }

prove_one_sound_example :
    IsProved proof_env zk job start_files (status_decision (λ bs. zeros) 0 3 (text "0a") (10 ∷ []))
unfolding prove_one put_file fetch cuts_before hex_pair confined_name expected_binding from_hex
    work_dir wait is_sp1_v2
prove_one_sound_example =
    prove_one_sound proof_env zk job start_files
      {d = status_decision (λ bs. zeros) 0 3 (text "0a") (10 ∷ [])} host-IsFileSystem refl
