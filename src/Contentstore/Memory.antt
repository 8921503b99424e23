-- ===== src/Contentstore/Memory.antt =====
-- The disk that writes of files leave.
use provework.Prelude.{
  Bytes, List, [], ◌∷◌, Bool, true, some, ◌≡◌, ◌≢◌, refl, if◌then◌else◌, bytes_eq, bytes_eq_refl,
  bytes_eq→≡, Bool-cases, inl, inr,
}
use provework.Contentstore.{Disk}

-- One file's contents replaced.
unfoldable pub put_file : Bytes → Bytes → Disk → Disk
put_file path content disk p = if bytes_eq p path then some content else disk p

pub put_file-same :
    (path content : Bytes) (disk : Disk) → put_file path content disk path ≡ some content
unfolding put_file
put_file-same path content disk = rw (bytes_eq_refl path) refl

pub put_file-other :
    (path content : Bytes) (disk : Disk) (other : Bytes)
    → other ≢ path
    → put_file path content disk other ≡ disk other
unfolding put_file
put_file-other path content disk other apart = elim (Bool-cases (bytes_eq other path)) [
  | inl same ↦ absurd (apart (bytes_eq→≡ _ _ same))
  | inr differs ↦ rw differs refl
]

-- The files of a list, written one after the other.
unfoldable pub put_files : List (Bytes × Bytes) → Disk → Disk
put_files [] disk = disk
put_files ((path, content) ∷ files) disk = put_files files (put_file path content disk)

-- A write that succeeds replaces the contents of one file.
abbrev pub IsWriter : (Disk → Bytes → Bytes → Bool × Disk) → Type 0
IsWriter write =
    (disk : Disk) (path content : Bytes)
    → (write disk path content).0 ≡ true
    → (other : Bytes) → (write disk path content).1 other ≡ put_file path content disk other

put_file-agree :
    (path content : Bytes) {a b : Disk}
    → ((p : Bytes) → a p ≡ b p)
    → (p : Bytes) → put_file path content a p ≡ put_file path content b p
unfolding put_file
put_file-agree path content same p = rw (same p) refl

-- The same writes on two disks with the same files.
pub put_files-same :
    (files : List (Bytes × Bytes)) {a b : Disk}
    → ((p : Bytes) → a p ≡ b p)
    → (p : Bytes) → put_files files a p ≡ put_files files b p
unfolding put_files
put_files-same [] same p = same p
put_files-same ((path, content) ∷ files) same p =
    put_files-same files (put_file-agree path content same) p
