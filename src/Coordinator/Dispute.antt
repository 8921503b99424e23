-- ===== src/Coordinator/Dispute.antt =====
-- crates/coordinator/src/dispute.rs: the hex chains, the first divergence, the verdict, and `resolve`.
-- The two judges that re-execute are an interface of `resolve`: what the snapshot judge answers for
-- an index and the agreed chain (none where it is not available), and the chain of
-- the full replay, which may not be available, or panic.
pub mod Divergence
pub mod Verdicts
pub mod Reexecution
mod Examples
use provework.Prelude.{
  ℕ, zero, suc, ◌+◌, ◌-◌, ◌*◌, ◌^◌, Bytes, Option, none, some, List, [], ◌∷◌, Bool, true, false,
  if◌then◌else◌, ltb, leb, ◌==◌, ◌&&◌, ◌||◌, not, bytes_eq, length, get_elem?, Result, ok, err,
}
use provework.Prelude.{hex_pair, cuts_before}
use provework.Jobfmt.{WorkerResult}

abbrev pub Hash : Type 0
Hash = Bytes

-- What is left of a call that executes code or a process: its answer, no answer, or nothing at all, where
-- the thread that made the call is lost to a panic or waits for ever.
pub data Attempt {ℓ} (A : Type ℓ) : Type ℓ where
  answered : A → Attempt A
  unavailable : Attempt A
  lost : Attempt A

-- The errors of `decode_chain`. A slice of a text that cuts a character panics.
pub data ChainError : Type 0 where
  bad_hash_length : ℕ → ChainError
  bad_hex : ℕ → ChainError
  slice_panic : ChainError

pub data Reason : Type 0 where
  no_truth : Reason
  bad_chain : ChainError → Reason

pub data Verdict : Type 0 where
  agreement : Verdict
  claim_honest : (first_divergence : ℕ) → Verdict
  counter_honest : (first_divergence : ℕ) → Verdict
  both_dishonest : (first_divergence : ℕ) → Verdict
  malformed : Reason → Verdict

-- The bytes of a text of `left` pairs, from pair `i` on.
unfoldable pub decode_pairs : ℕ → ℕ → Bytes → Result ChainError Hash
unfolding hex_pair cuts_before
decode_pairs zero i cs = ok []
decode_pairs (suc left) i (c ∷ d ∷ cs) =
    let rest = decode_pairs left (i + 1) cs in
    if cuts_before (c ∷ d ∷ cs) && cuts_before cs
    then elim (hex_pair c d) [
      | none ↦ err (bad_hex i)
      | some b ↦ elim rest [ err e ↦ err e | ok bs ↦ ok (b ∷ bs) ]
    ]
    else err slice_panic
decode_pairs (suc left) i (c ∷ []) = err slice_panic
decode_pairs (suc left) i [] = err slice_panic

unfoldable pub decode_hash : Bytes → Result ChainError Hash
unfolding decode_pairs
decode_hash h = if length h == 64 then decode_pairs 32 0 h else err (bad_hash_length (length h))

-- `decode_chain`: the first error ends it.
unfoldable pub decode_chain : List Bytes → Result ChainError (List Hash)
unfolding decode_hash
decode_chain [] = ok []
decode_chain (h ∷ hs) =
    let rest = decode_chain hs in
    elim (decode_hash h) [
      | err e ↦ err e
      | ok b ↦ elim rest [ err e ↦ err e | ok bs ↦ ok (b ∷ bs) ]
    ]

-- `==` of two entries of a chain, an entry past the end included.
unfoldable pub entry_eq : Option Hash → Option Hash → Bool
entry_eq (some x) (some y) = bytes_eq x y
entry_eq none none = true
entry_eq none (some _) = false
entry_eq (some _) none = false

-- The loop of `first_divergence`: both chains from index `i` on.
unfoldable pub diverge_from : ℕ → List Hash → List Hash → Option ℕ
diverge_from i [] [] = none
diverge_from i [] (y ∷ ys) = some i
diverge_from i (x ∷ xs) [] = some i
diverge_from i (x ∷ xs) (y ∷ ys) =
    let rest = diverge_from (i + 1) xs ys in if bytes_eq x y then rest else some i

unfoldable pub first_divergence : List Hash → List Hash → Option ℕ
unfolding diverge_from
first_divergence a b = diverge_from 0 a b

unfoldable pub verdict_with_truth : List Hash → List Hash → ℕ → Option Hash → Verdict
unfolding entry_eq
verdict_with_truth a b k none = malformed no_truth
verdict_with_truth a b k (some t) =
    if entry_eq (get_elem? a k) (some t)
    then if entry_eq (get_elem? b k) (some t) then agreement else claim_honest k
    else if entry_eq (get_elem? b k) (some t)
    then counter_honest k
    else both_dishonest k

-- The judges, as `resolve` calls them.
pub record Judges : Type 0 where
  pub by_snapshot : ℕ → List Hash → Option Hash
  pub by_replay : Attempt (List Hash)

unfoldable pub truth_at : Judges → ℕ → List Hash → Option Hash
truth_at judges k a = elim (judges.by_snapshot k a) [
  | some t ↦ some t
  | none ↦ elim judges.by_replay [
    | unavailable ↦ none
    | lost ↦ none
    | answered chain ↦ get_elem? chain k
  ]
]

unfoldable pub resolve_chains : Judges → List Hash → List Hash → Verdict
unfolding first_divergence verdict_with_truth truth_at
resolve_chains judges a b = elim (first_divergence a b) [
  | none ↦ agreement
  | some k ↦ verdict_with_truth a b k (truth_at judges k a)
]

abbrev pub is_panic : Result ChainError (List Hash) → Bool
is_panic (err slice_panic) = true
is_panic (err (bad_hash_length _)) = false
is_panic (err (bad_hex _)) = false
is_panic (ok _) = false

abbrev pub is_lost {ℓ} : {A : Type ℓ} → Attempt A → Bool
is_lost lost = true
is_lost unavailable = false
is_lost (answered x) = false

-- Whether two chains need the full replay, and it panics.
unfoldable pub replay_panics : Judges → List Hash → List Hash → Bool
unfolding first_divergence
replay_panics judges a b = elim (first_divergence a b) [
  | none ↦ false
  | some k ↦ elim (judges.by_snapshot k a) [ some t ↦ false | none ↦ is_lost judges.by_replay ]
]

-- The verdict on two chains; none is a panic of the replay.
unfoldable pub resolve_decoded : Judges → List Hash → List Hash → Option Verdict
unfolding resolve_chains replay_panics
resolve_decoded judges a b =
    if replay_panics judges a b then none else some (resolve_chains judges a b)

-- `resolve`, which decodes both chains before it looks at either; none is a panic.
unfoldable pub resolve : Judges → WorkerResult → WorkerResult → Option Verdict
unfolding decode_chain resolve_decoded
resolve judges claim counter =
    let a' = decode_chain claim.chunk_hashes in
    let b' = decode_chain counter.chunk_hashes in
    if is_panic a' || is_panic b' then none else elim a' [
      | err e ↦ some (malformed (bad_chain e))
      | ok a ↦ elim b' [
        | err e ↦ some (malformed (bad_chain e))
        | ok b ↦ resolve_decoded judges a b
      ]
    ]
