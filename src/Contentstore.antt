-- ===== src/Contentstore.antt =====
-- crates/contentstore/src/lib.rs: content ids, the blob store and the job descriptor. BLAKE3, the
-- JSON of a manifest and of a descriptor (`serde_json`) and the file system are parameters: a disk
-- gives the contents of the file at a path, and a write answers with whether it succeeded and the
-- disk that it leaves.
pub mod Ids
pub mod Blobs
pub mod Jobs
pub mod Memory
mod Examples
use provework.Prelude.{
  ℕ, zero, suc, ◌+◌, Bytes, Option, none, some, List, [], ◌∷◌, ◌++◌, Bool, true, false,
  if◌then◌else◌, ◌==◌, ◌&&◌, not, bytes_eq, length, take, text, Result, ok, err, hex_pair,
  cuts_before, lower_hex,
}
use provework.Jobfmt.{JobManifest}
use provework.Jobfmt.Confined.{confined_name, slash}

abbrev pub ContentId : Type 0
ContentId = Bytes

pub data StoreError : Type 0 where
  bad_id_length : ℕ → StoreError
  bad_id_hex : StoreError
  -- A slice that cuts a character panics.
  slice_panic : StoreError
  io : StoreError
  self_verification : StoreError
  integrity : StoreError
  bad_manifest : StoreError
  not_plain : Bytes → StoreError
  name_mismatch : Bytes → StoreError

unfoldable pub id_bytes : Bytes → Result StoreError ContentId
id_bytes [] = ok []
id_bytes (c ∷ []) = err slice_panic
id_bytes (c ∷ d ∷ cs) =
    let rest = id_bytes cs in
    if cuts_before (c ∷ d ∷ cs) && cuts_before cs
    then elim (hex_pair c d) [
      | none ↦ err bad_id_hex
      | some b ↦ elim rest [ err e ↦ err e | ok bs ↦ ok (b ∷ bs) ]
    ]
    else err slice_panic

unfoldable pub content_id : Bytes → Result StoreError ContentId
unfolding id_bytes
content_id s = if length s == 64 then id_bytes s else err (bad_id_length (length s))

abbrev pub Disk : Type 0
Disk = Bytes → Option Bytes

-- Whether a path takes a name without a slash between them.
unfoldable pub is_open : Bytes → Bool
is_open [] = true
is_open (c ∷ []) = c == slash
is_open (c ∷ d ∷ cs) = is_open (d ∷ cs)

unfoldable pub is_absolute : Bytes → Bool
is_absolute [] = false
is_absolute (c ∷ cs) = c == slash

-- `Path::join`
unfoldable pub join : Bytes → Bytes → Bytes
unfolding is_open is_absolute
join dir name =
    if is_absolute name then name else if is_open dir then dir ++ name else dir ++ slash ∷ name

unfoldable pub blob_path : Bytes → ContentId → Bytes
unfolding join
blob_path root id = join (join (join root (text "blobs")) (take 2 (lower_hex id))) (lower_hex id)

pub record JobDescriptor : Type 0 where
  pub job_id : Bytes
  pub manifest : Bytes
  pub elf : Bytes
  pub input : Bytes

module _ (blake3 : Bytes → Bytes) (write : Disk → Bytes → Bytes → Bool × Disk) (root : Bytes) where
  -- What `put` finds when it reads a written file back.
  unfoldable pub read_back : ContentId → Option Bytes → Result StoreError ContentId
  read_back id none = err io
  read_back id (some found) = if bytes_eq (blake3 found) id then ok id else err self_verification

  unfoldable pub put : Disk → Bytes → Result StoreError ContentId × Disk
  unfolding read_back
  put disk content =
      let id = blake3 content in
      let path = blob_path root id in
      let (written, disk') = write disk path content in
      elim (disk path) [
        | some _ ↦ (ok id, disk)
        | none ↦ if written then (read_back id (disk' path), disk') else (err io, disk')
      ]

  unfoldable pub get : Disk → ContentId → Result StoreError Bytes
  get disk id = elim (disk (blob_path root id)) [
    | none ↦ err io
    | some found ↦ if bytes_eq (blake3 found) id then ok found else err integrity
  ]

  unfoldable pub has : Disk → ContentId → Bool
  has disk id = elim (disk (blob_path root id)) [ none ↦ false | some _ ↦ true ]

  -- `verify_all` over the file names and contents that the directories list.
  unfoldable pub verify_from : ℕ → List (Bytes × Option Bytes) → Result StoreError ℕ
  verify_from count [] = ok count
  verify_from count ((name, none) ∷ entries) = err io
  verify_from count ((name, some found) ∷ entries) =
      let rest = verify_from (count + 1) entries in
      if bytes_eq name (lower_hex (blake3 found)) then rest else err (name_mismatch name)

  unfoldable pub verify_all : List (Bytes × Option Bytes) → Result StoreError ℕ
  unfolding verify_from
  verify_all entries = verify_from 0 entries

  -- `store.get(&ContentId::from_hex(id)?)?`
  unfoldable pub fetch : Disk → Bytes → Result StoreError Bytes
  unfolding content_id get
  fetch disk id = elim (content_id id) [ err e ↦ err e | ok cid ↦ get disk cid ]

  module _ (parse_manifest : Bytes → Option JobManifest) where
    -- The files of `materialize`, in the order of its writes, once the blobs have been read.
    unfoldable pub lay_out :
        Bytes
        → Bytes
        → JobManifest
        → Result StoreError Bytes
        → Result StoreError Bytes
        → Result StoreError (List (Bytes × Bytes))
    lay_out out_dir bytes m (err e) input = err e
    lay_out out_dir bytes m (ok elf) (err e) = err e
    lay_out out_dir bytes m (ok elf) (ok input) = ok (
        (join out_dir (text "job.json"), bytes)
        ∷ (join out_dir m.elf, elf)
        ∷ (join out_dir m.input, input)
        ∷ [])

    unfoldable pub check_names :
        Bytes
        → Bytes
        → Option JobManifest
        → Result StoreError Bytes
        → Result StoreError Bytes
        → Result StoreError (List (Bytes × Bytes))
    unfolding lay_out
    check_names out_dir bytes none elf input = err bad_manifest
    check_names out_dir bytes (some m) elf input =
        if not (confined_name m.elf)
        then err (not_plain m.elf)
        else if not (confined_name m.input)
        then err (not_plain m.input)
        else lay_out out_dir bytes m elf input

    -- The files of a job, or why there are none.
    unfoldable pub job_files :
        Disk → JobDescriptor → Bytes → Result StoreError (List (Bytes × Bytes))
    unfolding check_names
    job_files disk desc out_dir =
        let elf = fetch disk desc.elf in
        let input = fetch disk desc.input in
        elim (fetch disk desc.manifest) [
          | err e ↦ err e
          | ok bytes ↦ check_names out_dir bytes (parse_manifest bytes) elf input
        ]

    -- The writes, one after the other; the first that fails ends them.
    unfoldable pub write_files : List (Bytes × Bytes) → Disk → Result StoreError Unit × Disk
    write_files [] disk = (ok tt, disk)
    write_files ((path, content) ∷ files) disk =
        let (done, left) = write disk path content in
        elim done [ true ↦ write_files files left | false ↦ (err io, left) ]

    -- `materialize`, with the disk that it leaves.
    unfoldable pub materialize :
        (create_dir_all : Disk → Bytes → Bool)
        → Disk
        → JobDescriptor
        → Bytes
        → Result StoreError Unit × Disk
    unfolding job_files write_files
    materialize create_dir_all disk desc out_dir = elim (job_files disk desc out_dir) [
      | err e ↦ (err e, disk)
      | ok files ↦ elim (create_dir_all disk out_dir) [
        | true ↦ write_files files disk
        | false ↦ (err io, disk)
      ]
    ]

    -- The three writes of `publish`, in the order of the descriptor's fields.
    unfoldable pub publish_blobs :
        Disk → Bytes → (manifest elf input : Bytes) → Result StoreError JobDescriptor × Disk
    unfolding put
    publish_blobs disk id manifest elf input =
        let (m, disk1) = put disk manifest in
        let (e, disk2) = put disk1 elf in
        let (i, disk3) = put disk2 input in
        elim m [
          | err x ↦ (err x, disk1)
          | ok m_id ↦ elim e [
            | err x ↦ (err x, disk2)
            | ok e_id ↦ elim i [
              | err x ↦ (err x, disk3)
              | ok i_id ↦ (
                ok (record {
                  job_id = id;
                  manifest = lower_hex m_id;
                  elf = lower_hex e_id;
                  input = lower_hex i_id;
                }),
                disk3,
              )
            ]
          ]
        ]

    -- `publish`, where `job_file` is what a read of the job directory's file of a name gives.
    unfoldable pub publish : Disk → (Bytes → Option Bytes) → Result StoreError JobDescriptor × Disk
    unfolding publish_blobs
    publish disk job_file = elim (job_file (text "job.json")) [
      | none ↦ (err io, disk)
      | some manifest ↦ elim (parse_manifest manifest) [
        | none ↦ (err bad_manifest, disk)
        | some m ↦ elim (job_file m.elf) [
          | none ↦ (err io, disk)
          | some elf ↦ elim (job_file m.input) [
            | none ↦ (err io, disk)
            | some input ↦ publish_blobs disk m.id manifest elf input
          ]
        ]
      ]
    ]

  -- `descriptor_id`
  unfoldable pub descriptor_id : (JobDescriptor → Option Bytes) → JobDescriptor → Option ContentId
  descriptor_id to_json desc = elim (to_json desc) [ none ↦ none | some json ↦ some (blake3 json) ]
