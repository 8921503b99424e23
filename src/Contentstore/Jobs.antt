-- ===== src/Contentstore/Jobs.antt =====
-- crates/contentstore/src/lib.rs: what `materialize` writes.
use provework.Prelude.{
  Result-cases, Bytes, Option, none, some, List, [], ◌∷◌, Bool, true, false, not, ◌≡◌, refl, ap,
  sym, ◌∙◌, text, Result, ok, err, Bool-cases, inl, inr,
}
use provework.Jobfmt.{JobManifest}
use provework.Jobfmt.Confined.{confined_name}
use provework.Jobfmt.Confined.Plain.{IsPlain, confined_name-IsPlain}
use provework.Contentstore.{
  ContentId, Disk, StoreError, JobDescriptor, join, content_id, get, fetch, lay_out, check_names,
  job_files, write_files, materialize,
}
use provework.Contentstore.Memory.{put_files, put_files-same, IsWriter}
use provework.Contentstore.Blobs.{get_sound}

not-false : (b : Bool) → not b ≡ false → b ≡ true
not-false true h = refl
not-false false h = cc

module _ (blake3 : Bytes → Bytes) (write : Disk → Bytes → Bytes → Bool × Disk) (root : Bytes) where
  -- The bytes have the hash that a descriptor's field names.
  abbrev pub HasId : Bytes → Bytes → Type 0
  HasId hex bytes = content_id hex ≡ ok (blake3 bytes)

  fetch-ok :
      (disk : Disk) (hex : Bytes) (id : ContentId)
      → content_id hex ≡ ok id
      → fetch blake3 write root disk hex ≡ get blake3 write root disk id
  unfolding fetch
  fetch-ok disk hex id e = rw (fetch, e) refl

  fetch-err :
      (disk : Disk) (hex : Bytes) (x : StoreError)
      → content_id hex ≡ err x
      → fetch blake3 write root disk hex ≡ err x
  unfolding fetch
  fetch-err disk hex x e = rw (fetch, e) refl

  pub fetch_sound :
      (disk : Disk) (hex : Bytes) {found : Bytes}
      → fetch blake3 write root disk hex ≡ ok found
      → HasId hex found
  fetch_sound disk hex {found} f = elim (Result-cases (content_id hex)) [
    | inl (x, e) ↦ absurd (cc (fetch-err disk hex x e, f))
    | inr (id, e) ↦
        e ∙ ap ok (sym ((get_sound blake3 write root disk id (sym (fetch-ok disk hex id e) ∙ f)).1))
  ]

  module _ (parse_manifest : Bytes → Option JobManifest) (desc : JobDescriptor)
      (out_dir : Bytes) where
    -- The files of a job: the blobs that the descriptor names, the manifest among them under its fixed name
    -- and the others under plain names that it gives.
    pub record IsJobFiles (files : List (Bytes × Bytes)) : Type 0 where
      pub bytes : Bytes
      pub elf : Bytes
      pub input : Bytes
      pub manifest : JobManifest
      pub parsed : parse_manifest bytes ≡ some manifest
      pub elf_plain : IsPlain manifest.elf
      pub input_plain : IsPlain manifest.input
      pub laid :
          files
          ≡ (join out_dir (text "job.json"), bytes)
            ∷ (join out_dir manifest.elf, elf)
            ∷ (join out_dir manifest.input, input)
            ∷ []
      pub bytes_id : HasId desc.manifest bytes
      pub elf_id : HasId desc.elf elf
      pub input_id : HasId desc.input input

    lay_out-ok :
        (bytes : Bytes) (m : JobManifest) (re ri : Result StoreError Bytes)
        {files : List (Bytes × Bytes)}
        → lay_out blake3 write root parse_manifest out_dir bytes m re ri ≡ ok files
        → (elf : Bytes) × (input : Bytes) × (re ≡ ok elf)
          × (ri ≡ ok input)
          × (files
              ≡ (join out_dir (text "job.json"), bytes)
                ∷ (join out_dir m.elf, elf)
                ∷ (join out_dir m.input, input)
                ∷ [])
    unfolding lay_out
    lay_out-ok bytes m (err e) ri h = absurd cc
    lay_out-ok bytes m (ok elf) (err e) h = absurd cc
    lay_out-ok bytes m (ok elf) (ok input) h = (elf, input, refl, refl, cc)

    check_names-ok :
        (bytes : Bytes) (o : Option JobManifest) (re ri : Result StoreError Bytes)
        {files : List (Bytes × Bytes)}
        → check_names blake3 write root parse_manifest out_dir bytes o re ri ≡ ok files
        → (m : JobManifest) × (o ≡ some m)
          × (confined_name m.elf ≡ true)
          × (confined_name m.input ≡ true)
          × (lay_out blake3 write root parse_manifest out_dir bytes m re ri ≡ ok files)
    unfolding check_names
    check_names-ok bytes none re ri h = absurd cc
    check_names-ok bytes (some m) re ri {files} h = elim (Bool-cases (not (confined_name m.elf))) [
      | inl bad ↦ absurd (cc (rw bad at h))
      | inr good ↦ elim (Bool-cases (not (confined_name m.input))) [
        | inl bad ↦ absurd (cc (rw (good, bad) at h))
        | inr fine ↦ (m, refl, not-false _ good, not-false _ fine, rw (good, fine) at h)
      ]
    ]

    job_files-ok :
        (disk : Disk) (bytes : Bytes)
        → fetch blake3 write root disk desc.manifest ≡ ok bytes
        → job_files blake3 write root parse_manifest disk desc out_dir
          ≡ check_names blake3 write root parse_manifest out_dir bytes
              (parse_manifest bytes)
              (fetch blake3 write root disk desc.elf)
              (fetch blake3 write root disk desc.input)
    unfolding job_files
    job_files-ok disk bytes e = rw (job_files, e) refl

    job_files-err :
        (disk : Disk) (x : StoreError)
        → fetch blake3 write root disk desc.manifest ≡ err x
        → job_files blake3 write root parse_manifest disk desc out_dir ≡ err x
    unfolding job_files
    job_files-err disk x e = rw (job_files, e) refl

    job_files_sound :
        (disk : Disk) {files : List (Bytes × Bytes)}
        → job_files blake3 write root parse_manifest disk desc out_dir ≡ ok files
        → IsJobFiles files
    job_files_sound disk {files} h =
        elim (Result-cases (fetch blake3 write root disk desc.manifest)) [
          | inl (x, e) ↦ absurd (cc (job_files-err disk x e, h))
          | inr (bytes, e) ↦
              let (m, parsed, p, q, laid) =
                check_names-ok bytes _ _ _ (sym (job_files-ok disk bytes e) ∙ h) in
              let (elf, input, fe, fi, files_are) = lay_out-ok bytes m _ _ laid in
              record {
                bytes = bytes;
                elf = elf;
                input = input;
                manifest = m;
                parsed = parsed;
                elf_plain = confined_name-IsPlain m.elf p;
                input_plain = confined_name-IsPlain m.input q;
                laid = files_are;
                bytes_id = fetch_sound disk desc.manifest e;
                elf_id = fetch_sound disk desc.elf fe;
                input_id = fetch_sound disk desc.input fi;
              }
        ]

    write_files-put_files :
        (files : List (Bytes × Bytes)) (disk : Disk) {left : Disk}
        → IsWriter write
        → write_files blake3 write root parse_manifest files disk ≡ (ok tt, left)
        → (path : Bytes) → left path ≡ put_files files disk path
    unfolding write_files put_files
    write_files-put_files [] disk law h path = cc
    write_files-put_files ((at, content) ∷ files) disk law h path =
        elim (Bool-cases (write disk at content).0) [
          | inr bad ↦ absurd (cc (rw (write_files, bad) at h))
          | inl good ↦
              write_files-put_files files (write disk at content).1 law
                (rw (write_files, good) at h) path
              ∙ put_files-same files (law disk at content good) path
        ]

    -- A directory with the files of a job: each path of the disk holds what the three writes, in order,
    -- leave there, so that of two files under one path the later one counts, and no other path changes.
    pub record IsMaterialized (disk left : Disk) : Type 0 where
      pub files : List (Bytes × Bytes)
      pub blobs : IsJobFiles files
      pub holds : (path : Bytes) → left path ≡ put_files files disk path

    -- Whatever the disk holds and whatever the manifest says, `materialize` succeeds only if it leaves, in
    -- the directory, the manifest as job.json and then the ELF file and the input under plain names, with
    -- the contents whose hashes the descriptor lists, the later one where two paths are the same, and
    -- every other file as it was. A plain name is one component other than a dot and two dots, without a
    -- slash in it, with nothing but slashes and slashed dots behind it, and no backslash. A write that
    -- succeeds replaces one file's contents.
    pub materialize_sound :
        (create_dir_all : Disk → Bytes → Bool) (disk : Disk) {left : Disk}
        → IsWriter write
        → materialize blake3 write root parse_manifest create_dir_all disk desc out_dir
          ≡ (ok tt, left)
        → IsMaterialized disk left
    unfolding materialize
    materialize_sound create_dir_all disk {left} law h =
        elim (Result-cases (job_files blake3 write root parse_manifest disk desc out_dir)) [
          | inl (x, e) ↦ absurd (cc (rw (materialize, e) at h))
          | inr (files, e) ↦ elim (Bool-cases (create_dir_all disk out_dir)) [
            | inr bad ↦ absurd (cc (rw (materialize, e, bad) at h))
            | inl good ↦ record {
              files = files;
              blobs = job_files_sound disk e;
              holds = write_files-put_files files disk law (rw (materialize, e, good) at h);
            }
          ]
        ]
