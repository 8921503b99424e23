-- ===== src/Coordinator/Net/Provers/Replays.antt =====
-- crates/coordinator/src/net.rs: what an answer of the replay judge rests on.
use provework.Prelude.{
  Result-cases, ℕ, Bytes, Option, none, some, false, ◌≡◌, refl, lower_hex, Result, ok, err,
  Bool-cases, inl, inr,
}
use provework.Jobfmt.{JobManifest, is_sp1_v2}
use provework.Jobfmt.Encodings.{journal}
use provework.Contentstore.{Disk, StoreError, join}
use provework.Contentstore.Memory.{IsWriter}
use provework.Contentstore.Jobs.{IsMaterialized, materialize_sound}
use provework.Rvcore.Elf.{ElfImage, parse}
use provework.Coordinator.Dispute.{Attempt, answered, unavailable, lost}
use provework.Coordinator.Dispute.Reexecution.{replay_journal}
use provework.Coordinator.Zk.Verdict.{digest_hex}
use provework.Coordinator.Net.{PendingJob}
use provework.Coordinator.Net.Provers.{ProofEnv, ProveError, read_manifest, place_job}
use provework.Coordinator.Net.Provers.Disputes.{
  replay_dir, replayed, replay_files, replay_manifest, replay_placed, dispute_by_replay,
}

module _ (env : ProofEnv) (job : PendingJob) where
  -- The files of the job written into a directory of a disk.
  abbrev pub IsPlaced : (dir : Bytes) → Disk → Disk → Type 0
  IsPlaced dir start placed =
      IsMaterialized env.blake3 env.store.write env.store.root env.parse_manifest job.descriptor dir
        start placed

  pub place_job_sound :
      (dir : Bytes) (start : Disk) {placed : Disk}
      → IsWriter env.store.write
      → place_job env dir job start ≡ (ok tt, placed)
      → IsPlaced dir start placed
  unfolding place_job
  place_job_sound dir start law h =
      materialize_sound env.blake3 env.store.write env.store.root env.parse_manifest job.descriptor
        dir env.host.create_dir_all start law h

  -- The replay behind an answer of the replay judge: a job of the first format, whose blobs were placed,
  -- and the digest and the output of the run of its ELF file on its input.
  pub record IsReplayed (start : Disk) (digest output_hex : Bytes) : Type 0 where
    pub placed : Disk
    pub manifest : JobManifest
    pub elf : Bytes
    pub input : Bytes
    pub image : ElfImage
    pub instructions : ℕ
    pub output : Bytes
    pub files : IsPlaced (replay_dir env job) start placed
    pub read : read_manifest env.parse_manifest placed (replay_dir env job) ≡ ok manifest
    pub format : is_sp1_v2 manifest ≡ false
    pub elf_there : placed (join (replay_dir env job) manifest.elf) ≡ some elf
    pub input_there : placed (join (replay_dir env job) manifest.input) ≡ some input
    pub parsed : parse elf ≡ ok image
    pub run :
        replay_journal env.blake3 elf image.entry input manifest.chunk_size
          manifest.max_instructions
        ≡ answered (instructions, output)
    pub digest_is : digest ≡ lower_hex (env.sha256 (journal instructions output))
    pub output_is : output_hex ≡ lower_hex output

  abbrev Run : JobManifest → Option Bytes → Option Bytes → Bytes → Bytes → Type 0
  Run m re ri digest output_hex =
      (elf : Bytes) × (input : Bytes) × (image : ElfImage) × (instructions : ℕ) × (output : Bytes)
      × (re ≡ some elf)
      × (ri ≡ some input)
      × (parse elf ≡ ok image)
      × (replay_journal env.blake3 elf image.entry input m.chunk_size m.max_instructions
          ≡ answered (instructions, output))
      × (digest ≡ digest_hex env.sha256 instructions output)
      × (output_hex ≡ lower_hex output)

  pair_injective :
      (a b c d : Bytes) {o : Attempt (Bytes × Bytes)}
      → o ≡ answered (a, b)
      → o ≡ answered (c, d)
      → (c ≡ a) × (d ≡ b)
  pair_injective a b c d p q = (cc, cc)

  replayed-answered :
      (o : Attempt (ℕ × Bytes)) {digest output_hex : Bytes}
      → replayed env o ≡ answered (digest, output_hex)
      → (instructions : ℕ) × (output : Bytes) × (o ≡ answered (instructions, output))
        × (digest ≡ digest_hex env.sha256 instructions output)
        × (output_hex ≡ lower_hex output)
  unfolding replayed
  replayed-answered unavailable h = absurd cc
  replayed-answered lost h = absurd cc
  replayed-answered (answered (instructions, output)) h =
      let (p, q) = pair_injective _ _ _ _ refl h in (instructions, output, refl, p, q)

  replay_files-Run :
      (m : JobManifest) (re ri : Option Bytes) {digest output_hex : Bytes}
      → replay_files env m re ri ≡ answered (digest, output_hex)
      → Run m re ri digest output_hex
  unfolding replay_files
  replay_files-Run m none ri h = absurd cc
  replay_files-Run m (some elf) none h = absurd cc
  replay_files-Run m (some elf) (some input) h = elim (Result-cases (parse elf)) [
    | inl (e, p) ↦ absurd (cc (rw (replay_files, p) at h))
    | inr (image, p) ↦
        let (n, output, r, d, o) = replayed-answered _ (rw (replay_files, p) at h) in
        (elf, input, image, n, output, refl, refl, p, r, d, o)
  ]

  replay_manifest-ok :
      (placed : Disk) (r : Result ProveError JobManifest) {digest output_hex : Bytes}
      → replay_manifest env placed job r ≡ answered (digest, output_hex)
      → (m : JobManifest) × (r ≡ ok m)
        × (is_sp1_v2 m ≡ false)
        × (replay_files env m
              (placed (join (replay_dir env job) m.elf))
              (placed (join (replay_dir env job) m.input))
            ≡ answered (digest, output_hex))
  unfolding replay_manifest
  replay_manifest-ok placed (err e) h = absurd cc
  replay_manifest-ok placed (ok m) h = elim (Bool-cases (is_sp1_v2 m)) [
    | inl second ↦ absurd (cc (rw (replay_manifest, second) at h))
    | inr first ↦ (m, refl, first, rw (replay_manifest, first) at h)
  ]

  replay_placed-IsReplayed :
      (start : Disk) (r : Result StoreError Unit × Disk) {digest output_hex : Bytes}
      → IsWriter env.store.write
      → place_job env (replay_dir env job) job start ≡ r
      → replay_placed env job r ≡ answered (digest, output_hex)
      → IsReplayed start digest output_hex
  unfolding replay_placed digest_hex
  replay_placed-IsReplayed start (err e, left) law w h = absurd cc
  replay_placed-IsReplayed start (ok tt, placed) law w h =
      let (m, r, first, f) = replay_manifest-ok placed _ h in
      let (elf, input, image, n, output, e, i, p, run, d, o) = replay_files-Run m _ _ f in
      record {
        placed = placed;
        manifest = m;
        elf = elf;
        input = input;
        image = image;
        instructions = n;
        output = output;
        files = place_job_sound (replay_dir env job) start law w;
        read = r;
        format = first;
        elf_there = e;
        input_there = i;
        parsed = p;
        run = run;
        digest_is = d;
        output_is = o;
      }

  -- The replay judge of the server answers only for a job of the first format whose blobs the store has
  -- under the descriptor's hashes, and its digest and output are those of the journal of the run of the
  -- job's ELF file on its input from genesis.
  pub dispute_by_replay_sound :
      (disk : Disk) {digest output_hex : Bytes}
      → IsWriter env.store.write
      → dispute_by_replay env disk job ≡ answered (digest, output_hex)
      → IsReplayed (env.remove_dir_all disk (replay_dir env job)) digest output_hex
  unfolding dispute_by_replay
  dispute_by_replay_sound disk law h = replay_placed-IsReplayed _ _ law refl h
