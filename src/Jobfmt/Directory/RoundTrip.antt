-- ===== src/Jobfmt/Directory/RoundTrip.antt =====
-- crates/jobfmt/src/lib.rs: a job that `save_dir` has written is what `load_dir` reads.
use provework.Prelude.{
  Bytes, Option, none, some, List, [], ◌∷◌, Bool, true, false, not, ◌≡◌, ◌≢◌, refl, ap, sym, ◌∙◌,
  ==_iff, bytes_eq, bytes_eq_refl, text, ok, Bool-cases, inl, inr,
}
use provework.Jobfmt.{JobManifest}
use provework.Jobfmt.Confined.{confined_name}
use provework.Contentstore.{Disk, join}
use provework.Jobfmt.Directory.{
  JobError, schema_version, isa_name, load_blobs, check_manifest, load_dir, write_all, save_dir,
}

module _ (create_dir_all : Disk → Bytes → Bool) (write : Disk → Bytes → Bytes → Bool × Disk) where
  -- What the code relies on: a write that succeeds is what the file holds, and touches no other path.
  pub record IsDisk : Type 0 where
    pub writes :
        (disk : Disk) (path content : Bytes)
        → (write disk path content).0 ≡ true
        → (write disk path content).1 path ≡ some content
    pub writes_one :
        (disk : Disk) (path content other : Bytes)
        → other ≢ path
        → (write disk path content).1 other ≡ disk other

  write_all-step :
      (path content : Bytes) (files : List (Bytes × Bytes)) (disk : Disk)
      → (write_all create_dir_all write ((path, content) ∷ files) disk).0 ≡ none
      → ((write disk path content).0 ≡ true)
        × (write_all create_dir_all write ((path, content) ∷ files) disk
            ≡ write_all create_dir_all write files ((write disk path content).1))
  unfolding write_all
  write_all-step path content files disk h = elim (Bool-cases ((write disk path content).0)) [
    | inl w ↦ (w, rw w refl)
    | inr failed ↦ absurd (cc (rw failed at h))
  ]

  module _ (law : IsDisk) where
    -- Three writes to three paths, all of which succeed.
    three :
        (p q r a b c : Bytes) (disk : Disk) {left : Disk}
        → p ≢ q
        → p ≢ r
        → q ≢ r
        → write_all create_dir_all write ((p, a) ∷ (q, b) ∷ (r, c) ∷ []) disk ≡ (none, left)
        → (left p ≡ some a) × (left q ≡ some b) × (left r ≡ some c)
    unfolding write_all
    three p q r a b c disk {left} u v w e =
        let d1 = (write disk p a).1 in
        let d2 = (write d1 q b).1 in
        let d3 = (write d2 r c).1 in
        let (w1, e1) = write_all-step p a ((q, b) ∷ (r, c) ∷ []) disk (all_written e) in
        let (w2, e2) = write_all-step q b ((r, c) ∷ []) d1 (all_written (sym e1 ∙ e)) in
        let (w3, e3) = write_all-step r c [] d2 (all_written (sym e2 ∙ (sym e1 ∙ e))) in
        let end : d3 ≡ left =
          ap (λ (t : Option JobError × Disk). t.1) (sym e3 ∙ (sym e2 ∙ (sym e1 ∙ e))) in
        (
          rw (← end)
              (law.writes_one d2 r c p v ∙ (law.writes_one d1 q b p u ∙ law.writes disk p a w1)),
          rw (← end) (law.writes_one d2 r c q w ∙ law.writes d1 q b w2),
          rw (← end) (law.writes d2 r c w3),
        )
      where
        all_written : {s : Option JobError × Disk} {d : Disk} → s ≡ (none, d) → s.0 ≡ none
        all_written h = ap (λ (t : Option JobError × Disk). t.0) h

    module _ (manifest_json : JobManifest → Bytes) (parse_manifest : Bytes → Option JobManifest)
        (dir : Bytes) (m : JobManifest) where
      save_dir-ok :
          (elf input : Bytes) (disk : Disk) {left : Disk}
          → save_dir create_dir_all write manifest_json disk dir m elf input ≡ (none, left)
          → (not (confined_name m.elf) ≡ false)
            × (not (confined_name m.input) ≡ false)
            × (write_all create_dir_all write
                  ((join dir (text "job.json"), manifest_json m)
                    ∷ (join dir m.elf, elf)
                    ∷ (join dir m.input, input)
                    ∷ [])
                  disk
                ≡ (none, left))
      unfolding save_dir
      save_dir-ok elf input disk h = elim (Bool-cases (not (confined_name m.elf))) [
        | inl bad ↦ absurd (cc (rw (save_dir, bad) at h))
        | inr e ↦ elim (Bool-cases (not (confined_name m.input))) [
          | inl bad ↦ absurd (cc (rw (save_dir, e, bad) at h))
          | inr i ↦ elim (Bool-cases (not (create_dir_all disk dir))) [
            | inl bad ↦ absurd (cc (rw (save_dir, e, i, bad) at h))
            | inr d ↦ (e, i, rw (save_dir, e, i, d) at h)
          ]
        ]
      ]

      check_manifest-none :
          m.schema ≡ schema_version
          → m.isa ≡ isa_name
          → not (confined_name m.elf) ≡ false
          → not (confined_name m.input) ≡ false
          → check_manifest m ≡ none
      unfolding check_manifest
      check_manifest-none s a e i =
          let schema = (==_iff m.schema schema_version).1 s in
          let isa : bytes_eq m.isa isa_name ≡ true = rw a (bytes_eq_refl isa_name) in
          rw (check_manifest, schema, isa, e, i) refl

      -- A job that `save_dir` has written without an error is what `load_dir` reads from the directory,
      -- where its manifest is of this version and instruction set and parses back from its JSON, and its
      -- two blobs and the manifest have three different paths.
      pub load_dir-save_dir :
          (elf input : Bytes) (disk : Disk) {left : Disk}
          → save_dir create_dir_all write manifest_json disk dir m elf input ≡ (none, left)
          → parse_manifest (manifest_json m) ≡ some m
          → m.schema ≡ schema_version
          → m.isa ≡ isa_name
          → join dir (text "job.json") ≢ join dir m.elf
          → join dir (text "job.json") ≢ join dir m.input
          → join dir m.elf ≢ join dir m.input
          → load_dir parse_manifest left dir
            ≡ ok (record { manifest = m; dir = dir; elf = elf; input = input })
      unfolding load_dir load_blobs
      load_dir-save_dir elf input disk h parsed s a u v w =
          let (e, i, written) = save_dir-ok elf input disk h in
          let (p, q, r) = three _ _ _ _ _ _ disk u v w written in
          rw (load_dir, p, parsed, check_manifest-none s a e i, q, r) refl
