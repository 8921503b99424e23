-- ===== src/Jobfmt.antt =====
-- crates/jobfmt/src/lib.rs: the job manifest and the result that a worker reports; Encodings has the byte
-- encodings that workers sign and commit to. Texts are lists of UTF-8 bytes, `u32` and `u64`
-- fields are native numbers.
pub mod Encodings
pub mod Confined
pub mod Directory
use provework.Prelude.{ℕ, Bytes, Option, List, Bool, some, none, text, bytes_eq}

pub record JobManifest : Type 0 where
  pub schema : ℕ
  pub id : Bytes
  pub name : Bytes
  pub isa : Bytes
  pub format : Option Bytes
  pub toolchain : Bytes
  pub chunk_size : ℕ
  pub max_instructions : ℕ
  pub verification_class : Bytes
  pub elf : Bytes
  pub input : Bytes

pub record WorkerResult : Type 0 where
  pub worker_id : Bytes
  pub job_id : Bytes
  pub status : Bytes
  pub instructions : ℕ
  pub result_hash : Bytes
  pub chunk_hashes : List Bytes
  pub output_hex : Option Bytes
  pub trap : Option Bytes
  pub pubkey_hex : Option Bytes
  pub sig_hex : Option Bytes

unfoldable pub is_sp1_v2 : JobManifest → Bool
is_sp1_v2 m = elim m.format [ none ↦ Bool.false | some f ↦ bytes_eq f (text "sp1-v2") ]
