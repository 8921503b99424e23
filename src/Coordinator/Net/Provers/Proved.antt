-- ===== src/Coordinator/Net/Provers/Proved.antt =====
-- crates/coordinator/src/net.rs: what a decision of the proving queue rests on.
use provework.Prelude.{
  Result-cases, some_injective, ok_injective, Bytes, Option, none, some, List, [], ◌∷◌, Bool, ◌≡◌,
  ◌≢◌, ◌⊎◌, refl, ap, sym, length, Result, ok, err, inl, inr,
}
use provework.Jobfmt.{JobManifest, is_sp1_v2}
use provework.Jobfmt.Encodings.{from_hex}
use provework.Contentstore.{Disk, StoreError, JobDescriptor}
use provework.Coordinator.Dispute.{Attempt, answered, unavailable, lost}
use provework.Coordinator.Quorum.{Decision}
use provework.Coordinator.Zk.Receipt.{Files}
use provework.Coordinator.Zk.Receipt.Fresh.{IsFileSystem}
use provework.Coordinator.Zk.Verdict.{ZkJudge, JudgeVerdict, JudgeError, judge_decision}
use provework.Coordinator.Zk.Verdict.Bound.{IsImplied, judge_decision_sound}
use provework.Coordinator.Zk.Verdict.Ran.{IsRun, run_judge_sound}
use provework.Coordinator.Zk.Cache.{
  receipt_cache_key, cache_paths, IsHit, verify_cached, verify_cached_sound,
}
use provework.Coordinator.Net.{PendingJob}
use provework.Coordinator.Net.Receipts.{expected_binding}
use provework.Coordinator.Net.Provers.{ProofEnv, ProveError, read_manifest, place_job}
use provework.Coordinator.Net.Provers.Proving.{
  prove_dir, as_proof, finish_proof, receipt_out, prove_fresh, after_cache, prove_keyed,
  prove_bound, prove_placed, prove_one,
}

-- The three ids of a descriptor as bytes.
abbrev pub Ids : JobDescriptor → List Bytes → Type 0
Ids desc binding =
    (m : Bytes) × (elf : Bytes) × (input : Bytes) × (binding ≡ m ∷ elf ∷ input ∷ [])
    × (from_hex desc.manifest 32 ≡ ok m)
    × (from_hex desc.elf 32 ≡ ok elf)
    × (from_hex desc.input 32 ≡ ok input)

pub expected_binding-Ids :
    (job : PendingJob) {binding : List Bytes}
    → expected_binding job ≡ some binding
    → Ids job.descriptor binding
unfolding expected_binding
expected_binding-Ids job {binding} h = elim (Result-cases (from_hex job.descriptor.manifest 32)) [
  | inl (e, p) ↦ absurd (cc (rw (expected_binding, p) at h))
  | inr (m, p) ↦ elim (Result-cases (from_hex job.descriptor.elf 32)) [
    | inl (e, q) ↦ absurd (cc (rw (expected_binding, p, q) at h))
    | inr (elf, q) ↦ elim (Result-cases (from_hex job.descriptor.input 32)) [
      | inl (e, r) ↦ absurd (cc (rw (expected_binding, p, q, r) at h))
      | inr (input, r) ↦ (
        m,
        elf,
        input,
        sym (some_injective _ _ refl (rw (expected_binding, p, q, r) at h)),
        p,
        q,
        r,
      )
    ]
  ]
]

-- A job whose ids decode has a key in the cache.
receipt_cache_key-some :
    (blake3 : Bytes → Bytes) (desc : JobDescriptor) (binding : List Bytes)
    → Ids desc binding
    → receipt_cache_key blake3 desc ≢ none
unfolding receipt_cache_key
receipt_cache_key-some blake3 desc binding (m, elf, input, b, p, q, r) h =
    cc (rw (receipt_cache_key, p, q, r) at h)

module _ (env : ProofEnv) (zk : ZkJudge) (job : PendingJob) where
  -- The disk of a run of the judge: the job's directory as it was placed, after the look at the cache where
  -- there is one.
  abbrev pub judged_disk :
      Option Bytes → (binding : List Bytes) (v2 : Bool) (key : Bytes) → Files → Disk
  judged_disk none binding v2 key files = files.disk
  judged_disk (some rd) binding v2 key files =
      (verify_cached env.sha256 v2 env.host env.parse_verdict zk binding rd key files).1.disk

  -- Where a run of the judge writes the receipt: the key's place in the cache, if there is a cache.
  abbrev pub judged_out : Option Bytes → Bytes → Option Bytes
  judged_out none key = none
  judged_out (some rd) key = some ((cache_paths rd key).0)

  -- A decision of a verdict that a run of the judge on the job's directory has just given for the ids.
  abbrev pub IsJudged :
      Option Bytes → (binding : List Bytes) (v2 : Bool) → Files → Decision → Type 0
  IsJudged rd binding v2 files d =
      (v : JudgeVerdict) × (key : Bytes) × (receipt_cache_key env.blake3 job.descriptor ≡ some key)
      × IsRun env.parse_judge env.host env.parent zk (judged_disk rd binding v2 key files)
          (prove_dir env zk job) (judged_out rd key) v
      × IsImplied env.sha256 v binding v2 d

  IsJudged-at :
      (rd here : Option Bytes) (binding : List Bytes) (v2 : Bool) (files : Files) (d : Decision)
      → here ≡ rd
      → IsJudged rd binding v2 files d
      → IsJudged here binding v2 files d
  IsJudged-at rd here binding v2 files d e judged = rw e judged

  -- A decision of a receipt of the cache that was verified for the ids, or of a verdict that a run of the
  -- judge on the job's directory has just given for them.
  abbrev pub IsBacked : (binding : List Bytes) (v2 : Bool) → Files → Decision → Type 0
  IsBacked binding v2 files d =
      ((rd : Bytes) × (key : Bytes) × (zk.receipt_dir ≡ some rd)
        × (receipt_cache_key env.blake3 job.descriptor ≡ some key)
        × IsHit env.sha256 v2 env.host env.parse_verdict zk binding ((cache_paths rd key).0) files
            d)
      ⊎ IsJudged zk.receipt_dir binding v2 files d

  as_proof-ok :
      (r : Result JudgeError Decision) {d : Decision} → as_proof env zk job r ≡ ok d → r ≡ ok d
  unfolding as_proof
  as_proof-ok (err e) h = absurd cc
  as_proof-ok (ok x) h = cc

  finish_proof-ok :
      (key : Bytes) (rd : Option Bytes) (binding : List Bytes) (v2 : Bool)
      (r : Result JudgeError JudgeVerdict) (files : Files) {d : Decision}
      → (finish_proof env zk job key rd binding v2 r files).0 ≡ ok d
      → (v : JudgeVerdict) × (r ≡ ok v) × (judge_decision env.sha256 v binding v2 ≡ ok d)
  unfolding finish_proof
  finish_proof-ok key rd binding v2 (err e) files h = absurd cc
  finish_proof-ok key rd binding v2 (ok v) files h = (v, refl, as_proof-ok _ h)

  -- A fresh proof is decided by the verdict of a run on the disk that it is given.
  prove_fresh-ok :
      (key : Bytes) (rd : Option Bytes) (binding : List Bytes) (v2 : Bool) (here : Files)
      {d : Decision}
      → length binding ≡ 3
      → (prove_fresh env zk job key rd binding v2 here).0 ≡ ok d
      → (v : JudgeVerdict) × IsRun env.parse_judge env.host env.parent zk here.disk
          (prove_dir env zk job)
          (receipt_out env zk job key rd)
          v
        × IsImplied env.sha256 v binding v2 d
  unfolding prove_fresh
  prove_fresh-ok key rd binding v2 here l h =
      let (v, r, j) = finish_proof-ok key rd binding v2 _ _ h in
      (
        v,
        run_judge_sound env.parse_judge env.host env.parent zk here.disk (prove_dir env zk job)
            (receipt_out env zk job key rd) r,
        judge_decision_sound env.sha256 v binding v2 l j,
      )

  after_cache-ok :
      (key rd : Bytes) (binding : List Bytes) (v2 : Bool) (looked : Attempt Decision × Files)
      {d : Decision}
      → length binding ≡ 3
      → (after_cache env zk job key rd binding v2 looked).0 ≡ ok d
      → (looked.0 ≡ answered d)
        ⊎ ((v : JudgeVerdict) × IsRun env.parse_judge env.host env.parent zk looked.1.disk
              (prove_dir env zk job)
              (some ((cache_paths rd key).0))
              v
            × IsImplied env.sha256 v binding v2 d)
  unfolding after_cache
  after_cache-ok key rd binding v2 (lost, left) l h = absurd cc
  after_cache-ok key rd binding v2 (unavailable, left) l h =
      inr (prove_fresh-ok key (some rd) binding v2 left l h)
  after_cache-ok key rd binding v2 (answered x, left) l h =
      inl (ap answered (ok_injective x _ refl h))

  -- A proof of a job that has been placed, once its key is computed.
  prove_keyed-IsBacked :
      (key rd : Option Bytes) (binding : List Bytes) (v2 : Bool) (files : Files) {d : Decision}
      → IsFileSystem env.host
      → length binding ≡ 3
      → receipt_cache_key env.blake3 job.descriptor ≡ key
      → zk.receipt_dir ≡ rd
      → (prove_keyed env zk job key rd binding v2 files).0 ≡ ok d
      → IsBacked binding v2 files d
  unfolding prove_keyed
  prove_keyed-IsBacked none rd binding v2 files law l k c h = absurd cc
  prove_keyed-IsBacked (some key) none binding v2 files law l k c h =
      let (v, run, implied) = prove_fresh-ok key none binding v2 files l h in
      inr (IsJudged-at none zk.receipt_dir binding v2 files _ c (v, key, k, run, implied))
  prove_keyed-IsBacked (some key) (some rd) binding v2 files law l k c h =
      elim (after_cache-ok key rd binding v2 _ l h) [
        | inl e ↦ inl (
          rd,
          key,
          c,
          k,
          verify_cached_sound env.sha256 v2 env.host env.parse_verdict zk binding rd key files law
              e,
        )
        | inr (v, run, implied) ↦
            inr
              (IsJudged-at (some rd) zk.receipt_dir binding v2 files _ c (v, key, k, run, implied))
      ]

  -- The job's files as the store has them, its ids as bytes and its manifest, and a decision backed for
  -- them.
  pub record IsProved (files : Files) (d : Decision) : Type 0 where
    pub placed : Disk
    pub binding : List Bytes
    pub manifest : JobManifest
    pub written :
        place_job env
          (prove_dir env zk job)
          job
          (env.remove_dir_all files.disk (prove_dir env zk job))
        ≡ (ok tt, placed)
    pub ids : Ids job.descriptor binding
    pub read : read_manifest env.parse_manifest placed (prove_dir env zk job) ≡ ok manifest
    pub backed : IsBacked binding (is_sp1_v2 manifest) (record files { disk = placed }) d

  pub length-binding : (binding : List Bytes) → Ids job.descriptor binding → length binding ≡ 3
  length-binding binding (m, elf, input, b, p, q, r) = rw b refl

  prove_bound-ok :
      (o : Option (List Bytes)) (r : Result ProveError JobManifest) (files : Files) {d : Decision}
      → IsFileSystem env.host
      → expected_binding job ≡ o
      → (prove_bound env zk job o r files).0 ≡ ok d
      → (binding : List Bytes) × (m : JobManifest) × (o ≡ some binding)
        × (r ≡ ok m)
        × IsBacked binding (is_sp1_v2 m) files d
  unfolding prove_bound
  prove_bound-ok none r files law b h = absurd cc
  prove_bound-ok (some binding) (err e) files law b h = absurd cc
  prove_bound-ok (some binding) (ok m) files law b h = (
    binding,
    m,
    refl,
    refl,
    prove_keyed-IsBacked _ zk.receipt_dir binding (is_sp1_v2 m) files law
        (length-binding binding (expected_binding-Ids job b)) refl refl h,
  )

  prove_placed-ok :
      (r : Result StoreError Unit × Disk) (files : Files) {d : Decision}
      → IsFileSystem env.host
      → place_job env
          (prove_dir env zk job)
          job
          (env.remove_dir_all files.disk (prove_dir env zk job))
        ≡ r
      → (prove_placed env zk job r files).0 ≡ ok d
      → IsProved files d
  unfolding prove_placed
  prove_placed-ok (err e, left) files law w h = absurd cc
  prove_placed-ok (ok tt, placed) files law w h =
      let (binding, m, b, r, backed) =
        prove_bound-ok (expected_binding job) _ (record files { disk = placed }) law refl h in
      record {
        placed = placed;
        binding = binding;
        manifest = m;
        written = w;
        ids = expected_binding-Ids job b;
        read = r;
        backed = backed;
      }

  -- `prove_one` decides a job only if the job's three blobs were materialized from the store, its ids are
  -- 32 bytes each, and the decision is that of a cached receipt that the verifier has just passed for
  -- these ids, or of a verdict for them that a run of the judge has just printed. That run is in the
  -- directory where the files were placed, on the disk as placing them left it (and as the look at the
  -- cache left it, where a receipt directory is configured), and writes its receipt to the key's place in
  -- the cache or nowhere.
  pub prove_one_sound :
      (files : Files) {d : Decision}
      → IsFileSystem env.host
      → (prove_one env zk job files).0 ≡ ok d
      → IsProved files d
  unfolding prove_one
  prove_one_sound files law h = prove_placed-ok _ files law refl h
