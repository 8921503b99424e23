-- ===== src/Jobfmt/Directory.antt =====
-- crates/jobfmt/src/lib.rs: `load_dir` and `save_dir`, on a disk and its writes. The JSON of a manifest is
-- a parameter.
pub mod RoundTrip
mod Examples
use provework.Prelude.{
  ℕ, Bytes, Option, none, some, List, [], ◌∷◌, Bool, true, false, not, if◌then◌else◌, ◌==◌,
  bytes_eq, text, Result, ok, err,
}
use provework.Jobfmt.{JobManifest}
use provework.Jobfmt.Confined.{confined_name}
use provework.Contentstore.{Disk, join}

pub record Job : Type 0 where
  pub manifest : JobManifest
  pub dir : Bytes
  pub elf : Bytes
  pub input : Bytes

-- The messages of the source.
pub data JobError : Type 0 where
  no_manifest : JobError
  bad_manifest : JobError
  other_schema : ℕ → JobError
  other_isa : Bytes → JobError
  not_plain : Bytes → JobError
  no_elf : JobError
  no_input : JobError
  no_dir : JobError
  not_written : JobError

abbrev pub schema_version : ℕ
schema_version = 1

-- `abi::ISA`
abbrev pub isa_name : Bytes
isa_name = text "rv64imc"

-- The two blobs of a job whose manifest has passed.
unfoldable pub load_blobs : Bytes → JobManifest → Option Bytes → Option Bytes → Result JobError Job
load_blobs dir m none input = err no_elf
load_blobs dir m (some elf) none = err no_input
load_blobs dir m (some elf) (some input) =
    ok (record { manifest = m; dir = dir; elf = elf; input = input })

-- The checks of a manifest.
unfoldable pub check_manifest : JobManifest → Option JobError
check_manifest m =
    if not (m.schema == schema_version)
    then some (other_schema m.schema)
    else if not (bytes_eq m.isa isa_name)
    then some (other_isa m.isa)
    else if not (confined_name m.elf)
    then some (not_plain m.elf)
    else if not (confined_name m.input)
    then some (not_plain m.input)
    else none

unfoldable pub load_dir : (Bytes → Option JobManifest) → Disk → (dir : Bytes) → Result JobError Job
unfolding load_blobs check_manifest join
load_dir parse_manifest disk dir = elim (disk (join dir (text "job.json"))) [
  | none ↦ err no_manifest
  | some raw ↦ elim (parse_manifest raw) [
    | none ↦ err bad_manifest
    | some m ↦ elim (check_manifest m) [
      | some e ↦ err e
      | none ↦ load_blobs dir m (disk (join dir m.elf)) (disk (join dir m.input))
    ]
  ]
]

module _ (create_dir_all : Disk → Bytes → Bool) (write : Disk → Bytes → Bytes → Bool × Disk) where
  -- Writes in order, up to the first that fails; none where all succeed.
  unfoldable pub write_all : List (Bytes × Bytes) → Disk → Option JobError × Disk
  write_all [] disk = (none, disk)
  write_all ((path, content) ∷ files) disk =
      let (written, left) = write disk path content in
      let rest = write_all files left in if written then rest else (some not_written, left)

  unfoldable pub save_dir :
      (JobManifest → Bytes)
      → Disk
      → (dir : Bytes) → JobManifest
      → (elf input : Bytes) → Option JobError × Disk
  unfolding write_all join
  save_dir manifest_json disk dir m elf input =
      if not (confined_name m.elf)
      then (some (not_plain m.elf), disk)
      else if not (confined_name m.input)
      then (some (not_plain m.input), disk)
      else if not (create_dir_all disk dir)
      then (some no_dir, disk)
      else write_all
          ((join dir (text "job.json"), manifest_json m)
            ∷ (join dir m.elf, elf)
            ∷ (join dir m.input, input)
            ∷ [])
          disk
