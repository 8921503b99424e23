-- ===== src/Jobfmt/Directory/Examples.antt =====
-- A job directory on a disk in memory.
use provework.Prelude.{
  Bytes, Option, none, some, [], ◌∷◌, Bool, true, false, ◌≡◌, ◌≢◌, refl, bytes_eq, bytes_eq_iff,
  text, ok,
}
use provework.Jobfmt.{JobManifest}
use provework.Jobfmt.Confined.{confined_name}
use provework.Contentstore.{Disk, join}
use provework.Contentstore.Memory.{put_file, put_file-same, put_file-other}
use provework.Jobfmt.Directory.{JobError, load_dir, save_dir}
use provework.Jobfmt.Directory.RoundTrip.{IsDisk, load_dir-save_dir}

differ : (x y : Bytes) → bytes_eq x y ≡ false → x ≢ y
differ x y f e = cc ((bytes_eq_iff x y).1 e, f)

abbrev make_dir : Disk → Bytes → Bool
make_dir disk dir = true

abbrev write_file : Disk → Bytes → Bytes → Bool × Disk
write_file disk path content = (true, put_file path content disk)

write_file-IsDisk : IsDisk make_dir write_file
write_file-IsDisk = record {
  writes = λ disk path content h. put_file-same path content disk;
  writes_one = λ disk path content other apart. put_file-other path content disk other apart;
}

abbrev manifest : JobManifest
manifest = record {
  schema = 1;
  id = text "j";
  name = text "j";
  isa = text "rv64imc";
  format = none;
  toolchain = [];
  chunk_size = 4;
  max_instructions = 9;
  verification_class = [];
  elf = text "a";
  input = text "b";
}

abbrev nothing_there : Disk
nothing_there path = none

abbrev written : Option JobError × Disk
written =
    save_dir make_dir write_file (λ m. text "{}") nothing_there (text "d") manifest (1 ∷ [])
      (2 ∷ [])

load_dir-save_dir_example :
    load_dir (λ json. some manifest) (written.1) (text "d")
    ≡ ok (record { manifest = manifest; dir = text "d"; elf = 1 ∷ []; input = 2 ∷ [] })
unfolding save_dir confined_name join
load_dir-save_dir_example =
    load_dir-save_dir make_dir write_file write_file-IsDisk (λ m. text "{}") (λ json. some manifest)
      (text "d") manifest (1 ∷ []) (2 ∷ []) nothing_there {left = written.1} refl refl refl refl
      (differ _ _ refl) (differ _ _ refl) (differ _ _ refl)
