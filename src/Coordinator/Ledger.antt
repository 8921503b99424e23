-- ===== src/Coordinator/Ledger.antt =====
-- crates/coordinator/src/ledger.rs, and `finish_ledger` of crates/coordinator/src/net.rs. A balance,
-- an `i64`, is its 64-bit pattern, which `+=` wraps. The file system's answers and the JSON of a
-- ledger are arguments.
pub mod Balances
mod Examples
use provework.Prelude.{
  ℕ, ◌+◌, ◌%◌, ◌^◌, Bytes, List, [], ◌∷◌, ◌++◌, Option, none, some, if◌then◌else◌, bytes_eq, text,
  Result, ok, err, Bool,
}

pub record LedgerEntry : Type 0 where
  pub job_id : Bytes
  pub decision : Bytes
  pub deltas : List (Bytes × ℕ)

pub record Ledger : Type 0 where
  pub balances : List (Bytes × ℕ)
  pub history : List LedgerEntry

abbrev pub empty_ledger : Ledger
empty_ledger = record { balances = []; history = [] }

-- What `std::fs::read` answers.
pub data ReadOutcome : Type 0 where
  contents : Bytes → ReadOutcome
  not_found : ReadOutcome
  failed : Bytes → ReadOutcome

-- `*balances.entry(id).or_insert(0) += delta`
unfoldable pub credit : Bytes → ℕ → List (Bytes × ℕ) → List (Bytes × ℕ)
credit id delta [] = (id, delta % 2 ^ 64) ∷ []
credit id delta ((k, b) ∷ rest) =
    let behind = credit id delta rest in
    if bytes_eq k id then (k, (b + delta) % 2 ^ 64) ∷ rest else (k, b) ∷ behind

unfoldable pub credit_all : List (Bytes × ℕ) → List (Bytes × ℕ) → List (Bytes × ℕ)
credit_all [] balances = balances
credit_all ((id, delta) ∷ deltas) balances = credit_all deltas (credit id delta balances)

unfoldable pub apply : Ledger → Bytes → Bytes → List (Bytes × ℕ) → Ledger
apply led job_id decision deltas = record {
  balances = credit_all deltas led.balances;
  history = led.history ++ record { job_id = job_id; decision = decision; deltas = deltas } ∷ [];
}

module _ (from_slice : Bytes → Option Ledger) where
  unfoldable pub load : ReadOutcome → Result Bytes Ledger
  load (contents bytes) = elim (from_slice bytes) [
    | none ↦ err (text "ledger: ")
    | some led ↦ ok led
  ]
  load not_found = ok empty_ledger
  load (failed e) = err (text "ledger: " ++ e)

-- The file of a ledger: the JSON of both directions, none where `serde_json` fails, and what a write of
-- the file does, its success and what the next read of the file finds.
pub record LedgerStore : Type 0 where
  pub from_slice : Bytes → Option Ledger
  pub to_json : Ledger → Option Bytes
  pub write : ReadOutcome → Bytes → Bool × ReadOutcome

-- `save`, with the file that it leaves.
unfoldable pub save : LedgerStore → Ledger → ReadOutcome → Result Bytes Unit × ReadOutcome
save store led file = elim (store.to_json led) [
  | none ↦ (err (text "ledger: "), file)
  | some json ↦
      let (done, left) = store.write file json in
      (if done then ok tt else err (text "ledger: "), left)
]

-- `unwrap_or_else`: a failed load counts as an empty ledger.
abbrev pub or_empty_ledger : Result Bytes Ledger → Ledger
or_empty_ledger (ok led) = led
or_empty_ledger (err e) = empty_ledger

-- `finish_ledger` on the file of the configured ledger, if there is one. A failed save is not told to
-- the caller.
unfoldable pub finish_ledger :
    Option LedgerStore → ReadOutcome → Bytes → List (Bytes × ℕ) → ReadOutcome
unfolding load apply save
finish_ledger none file job_id deltas = file
finish_ledger (some store) file job_id deltas =
    (save store
      (apply (or_empty_ledger (load store.from_slice file)) job_id (text "network-run") deltas)
      file).1
