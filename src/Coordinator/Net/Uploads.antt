-- ===== src/Coordinator/Net/Uploads.antt =====
-- crates/coordinator/src/net.rs: `handle_blob_upload`, `Event::BlobRequest` and
-- `handle_job_submission`. A slice of an id that cuts a character panics, which is none. The write of
-- a descriptor's file into the jobs directory is the parameter `create_new`.
pub mod Limits
use provework.Prelude.{
  ℕ, ◌+◌, ◌*◌, ◌/◌, ◌^◌, min, Bytes, Option, none, some, List, [], ◌∷◌, ◌++◌, Bool, true, false,
  not, ◌&&◌, if◌then◌else◌, ◌==◌, leb, ltb, any, bytes_eq, length, drop, text, Result, ok, err,
  cuts_before, lower_hex,
}
use provework.Jobfmt.Encodings.{from_hex, submission_message}
use provework.Jobfmt.Confined.{confined_name}
use provework.Contentstore.{JobDescriptor, Disk, StoreError, slice_panic, content_id, put, get, has}
use provework.Coordinator.Net.{
  Crypto, ServeConfig, Conn, PendingJob, Server, map_or, find_conn, send, change_conn,
  change_pending, blob, blob_ack, submission_ack, new_job,
}
use provework.Coordinator.Net.Auth.{verify_nonce}

-- The content store that the server opened: the disk's write and the root directory.
pub record StoreEnv : Type 0 where
  pub write : Disk → Bytes → Bytes → Bool × Disk
  pub root : Bytes

abbrev pub max_blob_bytes : ℕ
max_blob_bytes = 16 * 2 ^ 20

abbrev pub max_uploads_per_conn : ℕ
max_uploads_per_conn = 8

abbrev pub count_upload : Conn → Conn
count_upload c = record c { uploads = c.uploads + 1 }

abbrev pub with_disk : Server → Disk → Server
with_disk s disk = record s { disk = disk }

-- The bytes of an upload, where they pass the size limit and hash to the id that is claimed.
unfoldable pub uploaded : Crypto → (id_hex bytes_hex : Bytes) → Option Bytes
uploaded crypto id_hex bytes_hex =
    if ltb (2 * max_blob_bytes) (length bytes_hex)
    then none
    else elim (from_hex bytes_hex (length bytes_hex / 2)) [
      | err e ↦ none
      | ok bytes ↦ elim (from_hex id_hex 32) [
        | err e ↦ none
        | ok claimed ↦ if bytes_eq claimed (crypto.blake3 bytes) then some bytes else none
      ]
    ]

-- `&id[..12.min(id.len())]`
unfoldable pub shows_id : Bytes → Bool
shows_id id = cuts_before (drop (min 12 (length id)) id)

abbrev pub is_ok {ℓ} : {E A : Type ℓ} → Result E A → Bool
is_ok (ok a) = true
is_ok (err e) = false

-- What becomes of the bytes of an upload that was counted.
unfoldable pub store_upload :
    Crypto → StoreEnv → (conn : ℕ) (id_hex : Bytes) → Option Bytes → Server → Server
store_upload crypto store conn id_hex none s = send conn (blob_ack id_hex false) s
store_upload crypto store conn id_hex (some bytes) s =
    let (answer, disk') = put crypto.blake3 store.write store.root s.disk bytes in
    send conn (blob_ack id_hex (is_ok answer)) (with_disk s disk')

-- `handle_blob_upload`
unfoldable pub on_blob_upload :
    Crypto → StoreEnv → (conn : ℕ) (id_hex bytes_hex : Bytes) → Server → Server
unfolding store_upload uploaded
on_blob_upload crypto store conn id_hex bytes_hex s = map_or (find_conn s.conns conn) s (λ c.
    if not c.authed
    then s
    else if leb max_uploads_per_conn c.uploads
    then send conn (blob_ack id_hex false) s
    else store_upload crypto store conn id_hex (uploaded crypto id_hex bytes_hex)
        (change_conn count_upload conn s))

abbrev pub to_option : Result StoreError Bytes → Option Bytes
to_option (ok bs) = some bs
to_option (err e) = none

-- A blob by its hex id, for `Event::BlobRequest`: whether the id panics, or what is served.
unfoldable pub served : Crypto → StoreEnv → Disk → Bytes → Option (Option Bytes)
served crypto store disk id = elim (content_id id) [
  | err slice_panic ↦ none
  | err _ ↦ if shows_id id then some none else none
  | ok cid ↦
      if shows_id id
      then some (to_option (get crypto.blake3 store.write store.root disk cid))
      else none
]

-- `Event::BlobRequest`, which asks for no authentication.
unfoldable pub on_blob_request :
    Crypto → StoreEnv → (conn : ℕ) (id : Bytes) → Server → Option Server
unfolding served
on_blob_request crypto store conn id s = map_or (find_conn s.conns conn) (some s) (λ c.
    map_or (served crypto store s.disk id) none (λ found.
      some (send conn (blob (map_or found none (λ content. some (lower_hex content)))) s)))
