-- ===== src/Contentstore/Examples.antt =====
-- The content store at concrete inputs. The digest is the first 32 bytes of the contents and of zeros
-- behind them, and a disk is a table of files.
use provework.Prelude.{
  ℕ, zero, suc, Bytes, IsByte, All, Option, none, some, [], ◌∷◌, ◌++◌, Bool, true, false, ◌≡◌, ◌⊎◌,
  refl, arith, take, replicate, text, bytes_eq, if◌then◌else◌, ok, err, lower_hex, hex_pair,
  cuts_before,
}
use provework.Jobfmt.{JobManifest}
use provework.Jobfmt.Confined.{confined_name}
use provework.Contentstore.{
  Disk, JobDescriptor, content_id, put, get, join, blob_path, materialize, fetch, id_bytes,
  StoreError,
}
use provework.Contentstore.Memory.{put_file}
use provework.Contentstore.Blobs.{put_lem}
use provework.Contentstore.Jobs.{IsMaterialized, materialize_sound}

abbrev digest : Bytes → Bytes
digest bs = take 32 (bs ++ replicate 32 0)

abbrev write_file : Disk → Bytes → Bytes → Bool × Disk
write_file disk path content = (true, λ p. if bytes_eq p path then some content else disk p)

abbrev empty_disk : Disk
empty_disk path = none

-- A disk on which every file has one content.
abbrev full_disk : Disk
full_disk path = some (9 ∷ [])

abbrev root : Bytes
root = text "store"

replicate-IsByte : (n : ℕ) → All IsByte (replicate n 171)
replicate-IsByte zero = tt
replicate-IsByte (suc n) = (omega arith, replicate-IsByte n)

put_lem_example :
    (digest (5 ∷ []) ≡ digest (5 ∷ []))
    × (((old : Bytes) × (full_disk (blob_path root (digest (5 ∷ []))) ≡ some old)
          × (full_disk ≡ full_disk))
        ⊎ ((full_disk (blob_path root (digest (5 ∷ []))) ≡ none)
            × (found : Bytes) × (get digest write_file root full_disk (digest (5 ∷ [])) ≡ ok found)
            × (digest found ≡ digest (5 ∷ []))))
unfolding put
put_lem_example =
    put_lem digest write_file root full_disk (5 ∷ []) {id = digest (5 ∷ [])} {disk' = full_disk}
      refl

abbrev plain : JobManifest
plain = record {
  schema = 1;
  id = text "j";
  name = text "j";
  isa = text "rv64";
  format = none;
  toolchain = [];
  chunk_size = 4;
  max_instructions = 9;
  verification_class = [];
  elf = text "a";
  input = text "b";
}

abbrev parse_plain : Bytes → Option JobManifest
parse_plain bs = some plain

abbrev listing : JobDescriptor
listing = record {
  job_id = text "j";
  manifest = lower_hex (digest (9 ∷ []));
  elf = lower_hex (digest (9 ∷ []));
  input = lower_hex (digest (9 ∷ []));
}

materialize_sound_example :
    IsMaterialized digest write_file root parse_plain listing (text "d") full_disk (
      (materialize digest write_file root parse_plain
        (λ disk path. true)
        full_disk
        listing
        (text "d")).1)
unfolding materialize fetch content_id id_bytes get join hex_pair cuts_before confined_name
    lower_hex put_file
materialize_sound_example =
    materialize_sound digest write_file root parse_plain listing (text "d") (λ disk path. true)
      full_disk (λ disk path content h other. refl) refl

-- A file that is there already, whatever it holds, passes for any content of its name.
unverified :
    (put digest write_file root full_disk (5 ∷ []) ≡ (ok (digest (5 ∷ [])), full_disk))
    × (get digest write_file root full_disk (digest (5 ∷ [])) ≡ err StoreError.integrity)
unfolding put get
unverified = (refl, refl)

names :
    (confined_name (text "job.elf") ≡ true)
    × (confined_name (text "job.json") ≡ true)
    × (confined_name (text "a/") ≡ true)
    × (confined_name (text "../a") ≡ false)
    × (confined_name (text "a/b") ≡ false)
    × (confined_name (text "/a") ≡ false)
    × (confined_name (text ".") ≡ false)
    × (confined_name (text "") ≡ false)
    × (confined_name (text "a\\b") ≡ false)
unfolding confined_name
names = (refl, refl, refl, refl, refl, refl, refl, refl, refl)
