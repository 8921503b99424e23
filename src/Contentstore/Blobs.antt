-- ===== src/Contentstore/Blobs.antt =====
-- crates/contentstore/src/lib.rs: what `put` and `get` promise, and `verify_all`.
use provework.Prelude.{
  ok_injective, Bytes, Option, none, some, Bool, true, false, ◌≡◌, ◌⊎◌, refl, ap, sym, ◌∙◌,
  bytes_eq, bytes_eq→≡, ok, err, Bool-cases, Option-cases, inl, inr, if◌then◌else◌,
}
use provework.Contentstore.{ContentId, Disk, StoreError, put, get, read_back, blob_path}

module _ (blake3 : Bytes → Bytes) (write : Disk → Bytes → Bytes → Bool × Disk) (root : Bytes) where
  get-some :
      (disk : Disk) (id : ContentId) (found : Bytes)
      → disk (blob_path root id) ≡ some found
      → get blake3 write root disk id
        ≡ (if bytes_eq (blake3 found) id then ok found else err StoreError.integrity)
  unfolding get
  get-some disk id found e = rw (get, e) refl

  get-none :
      (disk : Disk) (id : ContentId)
      → disk (blob_path root id) ≡ none
      → get blake3 write root disk id ≡ err StoreError.io
  unfolding get
  get-none disk id e = rw (get, e) refl

  -- Whatever the disk holds, a read hands out only contents that hash to the id asked for.
  pub get_sound :
      (disk : Disk) (id : ContentId) {found : Bytes}
      → get blake3 write root disk id ≡ ok found
      → (disk (blob_path root id) ≡ some found) × (blake3 found ≡ id)
  get_sound disk id {found} g = elim (Option-cases (disk (blob_path root id))) [
    | inl e ↦ absurd (cc (get-none disk id e, g))
    | inr (b, e) ↦ elim (Bool-cases (bytes_eq (blake3 b) id)) [
      | inl same ↦
          let w = ok_injective b found (get-some disk id b e ∙ rw same refl) g in
          (e ∙ ap some w, rw (← w) (bytes_eq→≡ _ _ same))
      | inr other ↦ absurd (cc (get-some disk id b e, other, g))
    ]
  ]

  put-old :
      (disk : Disk) (content old : Bytes)
      → disk (blob_path root (blake3 content)) ≡ some old
      → put blake3 write root disk content ≡ (ok (blake3 content), disk)
  unfolding put
  put-old disk content old e = rw (put, e) refl

  put-new :
      (disk : Disk) (content : Bytes)
      → disk (blob_path root (blake3 content)) ≡ none
      → put blake3 write root disk content ≡ (
          if (write disk (blob_path root (blake3 content)) content).0
          then (
            read_back blake3 write root (blake3 content) (
                (write disk (blob_path root (blake3 content)) content).1
                  (blob_path root (blake3 content))),
            (write disk (blob_path root (blake3 content)) content).1,
          )
          else (err StoreError.io, (write disk (blob_path root (blake3 content)) content).1))
  unfolding put
  put-new disk content e = rw (put, e) refl

  put-written :
      (disk : Disk) (content : Bytes)
      → disk (blob_path root (blake3 content)) ≡ none
      → (write disk (blob_path root (blake3 content)) content).0 ≡ true
      → put blake3 write root disk content ≡ (
        read_back blake3 write root (blake3 content) (
            (write disk (blob_path root (blake3 content)) content).1
              (blob_path root (blake3 content))),
        (write disk (blob_path root (blake3 content)) content).1,
      )
  put-written disk content e w = put-new disk content e ∙ rw w refl

  put-unwritten :
      (disk : Disk) (content : Bytes)
      → disk (blob_path root (blake3 content)) ≡ none
      → (write disk (blob_path root (blake3 content)) content).0 ≡ false
      → put blake3 write root disk content
        ≡ (err StoreError.io, (write disk (blob_path root (blake3 content)) content).1)
  put-unwritten disk content e w = put-new disk content e ∙ rw w refl

  read_back_sound :
      (id : ContentId) (o : Option Bytes) {answer : ContentId}
      → read_back blake3 write root id o ≡ ok answer
      → (answer ≡ id) × (found : Bytes) × (o ≡ some found) × (bytes_eq (blake3 found) id ≡ true)
  unfolding read_back
  read_back_sound id none e = absurd cc
  read_back_sound id (some found) e = elim (Bool-cases (bytes_eq (blake3 found) id)) [
    | inl same ↦ (sym (ok_injective id _ refl (rw same at e)), found, refl, same)
    | inr other ↦ absurd (cc (rw other at e))
  ]

  get-kept :
      (disk : Disk) (id : ContentId) (found : Bytes)
      → disk (blob_path root id) ≡ some found
      → bytes_eq (blake3 found) id ≡ true
      → get blake3 write root disk id ≡ ok found
  get-kept disk id found e same = get-some disk id found e ∙ rw same refl

  pair_left : {A B : Type 0} {x : A} {y : B} {p : A × B} → p ≡ (x, y) → p.0 ≡ x
  pair_left e = ap (λ p. p.0) e

  pair_right : {A B : Type 0} {x : A} {y : B} {p : A × B} → p ≡ (x, y) → p.1 ≡ y
  pair_right e = ap (λ p. p.1) e

  -- A `put` that succeeds answers with the hash of the content. Either the store had a file of that
  -- name, whatever it held, and is left as it was, or a read of the id afterwards succeeds, with
  -- contents of the same hash.
  pub put_lem :
      (disk : Disk) (content : Bytes) {id : ContentId} {disk' : Disk}
      → put blake3 write root disk content ≡ (ok id, disk')
      → (id ≡ blake3 content)
        × (((old : Bytes) × (disk (blob_path root (blake3 content)) ≡ some old) × (disk' ≡ disk))
            ⊎ ((disk (blob_path root (blake3 content)) ≡ none)
                × (found : Bytes) × (get blake3 write root disk' id ≡ ok found)
                × (blake3 found ≡ blake3 content)))
  put_lem disk content {id} {disk'} e =
      elim (Option-cases (disk (blob_path root (blake3 content)))) [
        | inr (old, there) ↦
            let r = sym (put-old disk content old there) ∙ e in
            (sym (ok_injective _ _ refl (pair_left r)), inl (old, there, sym (pair_right r)))
        | inl missing ↦ new_case missing (Bool-cases wrote)
      ]
    where
      path : Bytes
      path = blob_path root (blake3 content)

      wrote : Bool
      wrote = (write disk path content).0

      after : Disk
      after = (write disk path content).1

      new_case :
          disk path ≡ none
          → (wrote ≡ true) ⊎ (wrote ≡ false)
          → (id ≡ blake3 content)
            × (((old : Bytes) × (disk path ≡ some old) × (disk' ≡ disk))
                ⊎ ((disk path ≡ none)
                    × (found : Bytes) × (get blake3 write root disk' id ≡ ok found)
                    × (blake3 found ≡ blake3 content)))
      new_case missing (inl w) =
          let r = sym (put-written disk content missing w) ∙ e in
          let (same, found, there, good) =
            read_back_sound (blake3 content) (after path) (pair_left r) in
          let left = pair_right r in
          (
            same,
            inr (
              missing,
              found,
              rw (same, ← left) (get-kept after (blake3 content) found there good),
              bytes_eq→≡ _ _ good,
            ),
          )
      new_case missing (inr w) =
          absurd (cc (pair_left (sym (put-unwritten disk content missing w) ∙ e)))
