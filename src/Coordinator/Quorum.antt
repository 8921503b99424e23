-- ===== src/Coordinator/Quorum.antt =====
-- crates/coordinator/src/lib.rs: `group_by`, `decide` and `slashing`. A bond delta, an `i64`, is its
-- 64-bit pattern. An index out of range panics in the source and is `none` here.
mod Groups
pub mod Decide
pub mod Outcomes
pub mod Workers
pub mod Payments
mod Examples
use provework.Prelude.{
  ℕ, ◌+◌, ◌-◌, ◌*◌, ◌/◌, ◌^◌, ◌≤◌, max, Bytes, Option, none, some, List, [], ◌∷◌, ◌++◌, map, Bool,
  true, false, if◌then◌else◌, leb, ltb, bytes_eq, any, all, filter, length, text,
}
use provework.Jobfmt.{WorkerResult}

pub data Decision : Type 0 where
  accept : (hash : Bytes) (output_hex : Option Bytes) (agreed : List Bytes) (zk : Bool) → Decision
  escalate : Decision
  reject : (reason : Bytes) → Decision

-- Membership of a text in a set or a list of texts (`HashSet::insert`, `Vec::contains`).
abbrev pub contains : List Bytes → Bytes → Bool
contains ids id = any (bytes_eq id) ids

-- A result joins the group of its hash, or opens a new last one.
join : List (Bytes × List WorkerResult) → WorkerResult → List (Bytes × List WorkerResult)
join [] r = (r.result_hash, r ∷ []) ∷ []
join ((h, g) ∷ groups) r =
    let rest = join groups r in
    if bytes_eq h r.result_hash then (h, g ++ r ∷ []) ∷ groups else (h, g) ∷ rest

group_from : List (Bytes × List WorkerResult) → List WorkerResult → List (Bytes × List WorkerResult)
group_from groups [] = groups
group_from groups (r ∷ rs) = group_from (join groups r) rs

pub group_by : List WorkerResult → List (Bytes × List WorkerResult)
unfolding group_from join
group_by rs = group_from [] rs

-- `sort_by_key(Reverse(len))`, which is stable: an equal key goes behind those before it.
insert_group :
    Bytes × List WorkerResult → List (Bytes × List WorkerResult) → List (Bytes × List WorkerResult)
insert_group x [] = x ∷ []
insert_group (h, g) ((k, f) ∷ rest) =
    let behind = insert_group (h, g) rest in
    if ltb (length g) (length f) then (k, f) ∷ behind else (h, g) ∷ (k, f) ∷ rest

pub sort_groups : List (Bytes × List WorkerResult) → List (Bytes × List WorkerResult)
unfolding insert_group
sort_groups [] = []
sort_groups (x ∷ xs) = insert_group x (sort_groups xs)

-- One vote for each worker: the first result under an id counts.
unfoldable pub dedup : List Bytes → List WorkerResult → List WorkerResult
dedup seen [] = []
dedup seen (r ∷ rs) =
    let skipped = dedup seen rs in
    let kept = dedup (r.worker_id ∷ seen) rs in
    if contains seen r.worker_id then skipped else r ∷ kept

unfoldable pub is_halted : WorkerResult → Bool
is_halted r = bytes_eq r.status (text "halted")

abbrev pub bytes_list_eq : List Bytes → List Bytes → Bool
bytes_list_eq [] [] = true
bytes_list_eq (x ∷ xs) (y ∷ ys) =
    let rest = bytes_list_eq xs ys in if bytes_eq x y then rest else false
bytes_list_eq _ _ = false

abbrev pub chain_dispute : Bytes
chain_dispute = text "winning group disagrees on chunk chain (dispute required)"

abbrev pub trapped_majority : Bytes
trapped_majority = text "majority of workers trapped: job is broken"

abbrev pub no_majority : Bytes
no_majority = text "no majority after escalation; bonds returned"

-- What becomes of a winning group with enough votes.
pub accept_group : Bytes → List WorkerResult → Option Decision
accept_group hash [] = none
accept_group hash (first ∷ rest) =
    if all (λ r. bytes_list_eq r.chunk_hashes first.chunk_hashes) (first ∷ rest)
    then some (accept hash first.output_hex (map (λ r. r.worker_id) (first ∷ rest)) false)
    else some (reject chain_dispute)

-- What follows the search for a winning group.
pub fall_through : ℕ → ℕ → ℕ → Decision
fall_through trapped threshold pool =
    if leb threshold trapped
    then reject trapped_majority
    else if leb 5 pool
    then reject no_majority
    else escalate

-- The largest group, and `groups[0]` out of range.
weigh : ℕ → Decision → List (Bytes × List WorkerResult) → Option Decision
unfolding accept_group
weigh threshold other [] = none
weigh threshold other ((hash, group) ∷ _) =
    if leb threshold (length group) then accept_group hash group else some other

pub decide : List WorkerResult → ℕ → Option Decision
decide results expected_pool =
    let refs = dedup [] results in
    let received = length refs in
    let pool = max expected_pool received in
    let threshold = pool / 2 + 1 in
    let halted = filter is_halted refs in
    let trapped = received - length halted in
    let other = fall_through trapped threshold pool in
    if leb threshold (length halted)
    then weigh threshold other (sort_groups (group_by halted))
    else some other

-- The reward and the burn, as `i64` patterns.
abbrev pub reward : ℕ
reward = 10

abbrev pub burn : ℕ
burn = 2 ^ 64 - 100

pub slashing : Decision → List WorkerResult → List (Bytes × ℕ)
slashing (accept hash output agreed zk) results =
    map (λ r. (r.worker_id, if contains agreed r.worker_id then reward else burn)) results
slashing escalate results = map (λ r. (r.worker_id, 0)) results
slashing (reject reason) results = map (λ r. (r.worker_id, 0)) results
