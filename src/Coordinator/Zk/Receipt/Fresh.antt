-- ===== src/Coordinator/Zk/Receipt/Fresh.antt =====
-- crates/coordinator/src/receipt.rs: the file of a receipt is new, and no two of them share a path.
use provework.Prelude.{
  ℕ, zero, suc, ◌+◌, ◌%◌, ◌^◌, ◌<◌, Bytes, none, some, [], ◌∷◌, ◌++◌, Bool, true, false, ◌≡◌, ◌≢◌,
  ◌⊎◌, refl, ap, sym, ◌∙◌, arith, if◌then◌else◌, text, decimal, decimal_injective, Result, ok, err,
  Bool-cases, inl, inr, length, length-append, ++-split,
}
use provework.Jobfmt.Confined.{slash}
use provework.Contentstore.{Disk, join, is_absolute, is_open}
use provework.Coordinator.Zk.Process.{Created, created, already_exists, create_failed, Host}
use provework.Coordinator.Zk.Receipt.{
  Files, ReceiptError, receipt_dir, receipt_path, create_from, exclusive_receipt_file,
}

-- What the code relies on: a file is created only where there was none, and a write that succeeds is
-- what the file holds; neither touches another path.
pub record IsFileSystem (host : Host) : Type 0 where
  pub creates_new :
      (disk : Disk) (path : Bytes) (opened : Disk)
      → host.create_new disk path ≡ created opened
      → disk path ≡ none
  pub creates_one :
      (disk : Disk) (path : Bytes) (opened : Disk) (other : Bytes)
      → host.create_new disk path ≡ created opened
      → other ≢ path
      → opened other ≡ disk other
  pub writes :
      (disk : Disk) (path content : Bytes)
      → (host.write_all disk path content).0 ≡ true
      → (host.write_all disk path content).1 path ≡ some content
  pub writes_one :
      (disk : Disk) (path content other : Bytes)
      → other ≢ path
      → (host.write_all disk path content).1 other ≡ disk other

Created-cases :
    (c : Created) → ((d : Disk) × (c ≡ created d)) ⊎ ((c ≡ already_exists) ⊎ (c ≡ create_failed))
Created-cases (created d) = inl (d, refl)
Created-cases already_exists = inr (inl refl)
Created-cases create_failed = inr (inr refl)

module _ (host : Host) where
  -- A file at a path that had none, with the bytes, on a disk that is otherwise as before.
  abbrev pub IsNew : Disk → Bytes → (path : Bytes) → Disk → Type 0
  IsNew disk bytes path left =
      (disk path ≡ none)
      × (left path ≡ some bytes)
      × ((other : Bytes) → other ≢ path → left other ≡ disk other)

  abbrev pub next : ℕ → ℕ
  next n = (n + 1) % 2 ^ 64

  create_from-exists :
      (k : ℕ) (bytes : Bytes) (disk : Disk) (n : ℕ)
      → host.create_new disk (receipt_path host n) ≡ already_exists
      → create_from host (suc k) bytes disk n ≡ create_from host k bytes disk (next n)
  unfolding create_from
  create_from-exists k bytes disk n e = rw (create_from, e) refl

  create_from-zero :
      (bytes : Bytes) (disk : Disk) (n : ℕ)
      → create_from host zero bytes disk n
        ≡ (err ReceiptError.no_unique_file, record { disk = disk; temp_counter = n })
  unfolding create_from
  create_from-zero bytes disk n = refl

  create_from-failed :
      (k : ℕ) (bytes : Bytes) (disk : Disk) (n : ℕ)
      → host.create_new disk (receipt_path host n) ≡ create_failed
      → create_from host (suc k) bytes disk n
        ≡ (err ReceiptError.not_created, record { disk = disk; temp_counter = next n })
  unfolding create_from
  create_from-failed k bytes disk n e = rw (create_from, e) refl

  create_from-created :
      (k : ℕ) (bytes : Bytes) (disk : Disk) (n : ℕ) (opened : Disk)
      → host.create_new disk (receipt_path host n) ≡ created opened
      → create_from host (suc k) bytes disk n ≡ (
        if (host.write_all opened (receipt_path host n) bytes).0
            then ok (receipt_path host n)
            else err ReceiptError.not_written,
        record {
          disk = (host.write_all opened (receipt_path host n) bytes).1;
          temp_counter = next n;
        },
      )
  unfolding create_from
  create_from-created k bytes disk n opened e = rw (create_from, e) refl

  module _ (law : IsFileSystem host) where
    written-IsNew :
        (bytes : Bytes) (disk : Disk) (path : Bytes) (opened : Disk)
        → host.create_new disk path ≡ created opened
        → (host.write_all opened path bytes).0 ≡ true
        → IsNew disk bytes path (host.write_all opened path bytes).1
    written-IsNew bytes disk path opened e w = (
      law.creates_new disk path opened e,
      law.writes opened path bytes w,
      λ other apart.
          law.writes_one opened path bytes other apart
          ∙ law.creates_one disk path opened other e apart,
    )

    -- What the creation of a receipt's file promises: where it gives a path, the file is new.
    abbrev pub Promises : Disk → Bytes → Result ReceiptError Bytes × Files → Type 0
    Promises disk bytes (err e, files) = Unit
    Promises disk bytes (ok path, files) = IsNew disk bytes path files.disk

    write-Promises :
        (disk : Disk) (bytes path : Bytes) (opened : Disk) (b : Bool) (n : ℕ)
        → host.create_new disk path ≡ created opened
        → (host.write_all opened path bytes).0 ≡ b
        → Promises disk bytes (
          if b then ok path else err ReceiptError.not_written,
          record { disk = (host.write_all opened path bytes).1; temp_counter = n },
        )
    write-Promises disk bytes path opened true n e w = written-IsNew bytes disk path opened e w
    write-Promises disk bytes path opened false n e w = tt

    create_from-Promises :
        (k : ℕ) (bytes : Bytes) (disk : Disk) (n : ℕ)
        → Promises disk bytes (create_from host k bytes disk n)
    create_from-Promises zero bytes disk n = rw (create_from-zero bytes disk n) tt
    create_from-Promises (suc k) bytes disk n =
        elim (Created-cases (host.create_new disk (receipt_path host n))) [
          | inl (opened, e) ↦
              rw (create_from-created k bytes disk n opened e)
                (write-Promises disk bytes (receipt_path host n) opened _ (next n) e refl)
          | inr (inl e) ↦
              rw (create_from-exists k bytes disk n e) (create_from-Promises k bytes disk (next n))
          | inr (inr e) ↦ rw (create_from-failed k bytes disk n e) tt
        ]

    exclusive_receipt_file-Promises :
        (bytes : Bytes) (files : Files)
        → Promises files.disk bytes (exclusive_receipt_file host bytes files)
    unfolding exclusive_receipt_file
    exclusive_receipt_file-Promises bytes files =
        elim (Bool-cases (host.create_dir_all files.disk (receipt_dir host))) [
          | inl made ↦
              rw (exclusive_receipt_file, made)
                (create_from-Promises 32 bytes files.disk files.temp_counter)
          | inr unmade ↦ rw (exclusive_receipt_file, unmade) tt
        ]

    -- Where a file for a receipt is made, its path had no file, the file holds the receipt's bytes, and
    -- every other path is as it was, on a file system whose exclusive creation is one.
    pub exclusive_receipt_file_sound :
        (bytes : Bytes) (files : Files) {path : Bytes} {left : Files}
        → exclusive_receipt_file host bytes files ≡ (ok path, left)
        → IsNew files.disk bytes path left.disk
    exclusive_receipt_file_sound bytes files {path} {left} h =
        rw h at (exclusive_receipt_file-Promises bytes files)

  append_cancel : (us vs tail : Bytes) → us ++ tail ≡ vs ++ tail → us ≡ vs
  append_cancel us vs tail e =
      (++-split us vs tail tail
        (same (length us) (length vs) (length tail)
          (sym (length-append us tail) ∙ ap (λ (t : Bytes). length t) e ∙ length-append vs tail))
        e).0
    where
      same : (a b c : ℕ) → a + c ≡ b + c → a ≡ b
      same a b c h = omega arith

  join_injective :
      (dir a b : Bytes)
      → is_absolute a ≡ false
      → is_absolute b ≡ false
      → join dir a ≡ join dir b
      → a ≡ b
  unfolding join
  join_injective dir a b p q e = elim (Bool-cases (is_open dir)) [
    | inl o ↦ (++-split dir dir a b refl (rw (p, q, o) at e)).1
    | inr o ↦
        (++-split (slash ∷ []) (slash ∷ []) a b refl
          ((++-split dir dir (slash ∷ a) (slash ∷ b) refl (rw (p, q, o) at e)).1)).1
  ]

  -- Two counter values of 64 bits with the same path are the same: no two calls that have taken
  -- different values from the counter share a path.
  pub receipt_path_injective :
      (m n : ℕ) → m < 2 ^ 64 → n < 2 ^ 64 → receipt_path host m ≡ receipt_path host n → m ≡ n
  unfolding receipt_path
  receipt_path_injective m n h k e =
      let stem = text "receipt-" ++ decimal host.process_id ++ text "-" in
      let file = λ (i : ℕ). stem ++ decimal i ++ text ".bin" in
      let names = join_injective (receipt_dir host) (file m) (file n) refl refl e in
      let stems = append_cancel (stem ++ decimal m) (stem ++ decimal n) (text ".bin") names in
      decimal_injective m n (omega arith) (omega arith)
        (++-split stem stem (decimal m) (decimal n) refl stems).1
