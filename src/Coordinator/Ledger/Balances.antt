-- ===== src/Coordinator/Ledger/Balances.antt =====
-- What `apply` and `finish_ledger` do to each worker's balance.
use provework.Prelude.{
  ℕ, ◌+◌, ◌%◌, ◌^◌, ◌<◌, Bytes, List, [], ◌∷◌, ◌++◌, some, true, ok, err, ◌≡◌, refl, arith,
  if◌then◌else◌, bytes_eq, bytes_eq_iff, All, text, ◌⊎◌, inl, inr,
}
use provework.Coordinator.Ledger.{
  Ledger, LedgerStore, ReadOutcome, contents, credit, credit_all, apply, load, save, finish_ledger,
  empty_ledger, or_empty_ledger,
}

-- The balance of a worker; an id with no entry has none, which counts as 0.
unfoldable pub balance : Bytes → List (Bytes × ℕ) → ℕ
balance id [] = 0
balance id ((k, b) ∷ rest) = if bytes_eq k id then b else balance id rest

-- The deltas that a list holds for one worker, summed as `i64` patterns.
unfoldable pub delta_sum : Bytes → List (Bytes × ℕ) → ℕ
delta_sum id [] = 0
delta_sum id ((k, d) ∷ ds) =
    let rest = delta_sum id ds in if bytes_eq k id then (d + rest) % 2 ^ 64 else rest

pub delta_sum-append :
    (id : Bytes) (xs : List (Bytes × ℕ)) (k : Bytes) (d : ℕ)
    → delta_sum id (xs ++ (k, d) ∷ [])
      ≡ (if bytes_eq k id then (delta_sum id xs + d) % 2 ^ 64 else delta_sum id xs)
unfolding delta_sum
delta_sum-append id [] k d = ground arith
delta_sum-append id ((j, e) ∷ xs) k d = ground (arith, delta_sum-append id xs k d)

abbrev pub InRange : List (Bytes × ℕ) → Type 0
InRange = All (λ x. x.1 < 2 ^ 64)

balance-lt : (id : Bytes) (m : List (Bytes × ℕ)) → InRange m → balance id m < 2 ^ 64
unfolding balance
balance-lt id [] h = omega arith
balance-lt id ((k, b) ∷ m) h = ground (arith, balance-lt id m h.1)

balance-credit :
    (id k : Bytes) (d : ℕ) (m : List (Bytes × ℕ))
    → balance id (credit k d m)
      ≡ (if bytes_eq k id then (balance id m + d) % 2 ^ 64 else balance id m)
unfolding balance credit
balance-credit id k d [] = ground arith
balance-credit id k d ((j, b) ∷ m) =
    ground (arith, bytes_eq_iff j k, bytes_eq_iff j id, bytes_eq_iff k id, balance-credit id k d m)

credit-InRange : (k : Bytes) (d : ℕ) (m : List (Bytes × ℕ)) → InRange m → InRange (credit k d m)
unfolding credit
credit-InRange k d [] h = (omega arith, tt)
credit-InRange k d ((j, b) ∷ m) h = ground (arith, credit-InRange k d m h.1)

pub credit_all-InRange : (ds m : List (Bytes × ℕ)) → InRange m → InRange (credit_all ds m)
unfolding credit_all
credit_all-InRange [] m h = h
credit_all-InRange ((k, d) ∷ ds) m h = credit_all-InRange ds (credit k d m) (credit-InRange k d m h)

balance-credit_all :
    (id : Bytes) (ds m : List (Bytes × ℕ))
    → InRange m
    → balance id (credit_all ds m) ≡ (balance id m + delta_sum id ds) % 2 ^ 64
unfolding credit_all delta_sum
balance-credit_all id [] m h = omega (arith, balance-lt id m h)
balance-credit_all id ((k, d) ∷ ds) m h = ground (
  arith,
  balance-credit id k d m,
  balance-credit_all id ds (credit k d m) (credit-InRange k d m h),
)

-- Applying a job's deltas to a ledger whose balances are in range moves every worker's balance
-- by exactly the sum of its own deltas, in wrapping 64-bit arithmetic, keeps all balances in
-- range, and appends one history entry.
pub apply-balance :
    (led : Ledger) (job_id decision : Bytes) (deltas : List (Bytes × ℕ))
    → InRange led.balances
    → ((id : Bytes)
        → balance id (apply led job_id decision deltas).balances
          ≡ (balance id led.balances + delta_sum id deltas) % 2 ^ 64)
      × InRange (apply led job_id decision deltas).balances
      × ((apply led job_id decision deltas).history
          ≡ led.history ++ record { job_id = job_id; decision = decision; deltas = deltas } ∷ [])
unfolding apply
apply-balance led job_id decision deltas h = (
  λ id. balance-credit_all id deltas led.balances h,
  credit_all-InRange deltas led.balances h,
  refl,
)

-- The save of a ledger over a file succeeds, and its JSON parses back.
pub record IsSaved (store : LedgerStore) (file : ReadOutcome) (led : Ledger) : Type 0 where
  pub json : Bytes
  pub printed : store.to_json led ≡ some json
  pub written : store.write file json ≡ (true, contents json)
  pub parsed : store.from_slice json ≡ some led

pub save-IsSaved :
    (store : LedgerStore) (file : ReadOutcome) (led : Ledger)
    → IsSaved store file led
    → load store.from_slice ((save store led file).1) ≡ ok led
unfolding load save
save-IsSaved store file led saved = rw (save, saved.printed, saved.written, load, saved.parsed) refl

-- The ledger from which `finish_ledger` starts: the loaded one, or an empty one where the load fails.
abbrev pub IsStart : LedgerStore → ReadOutcome → Ledger → Type 0
IsStart store file start =
    (load store.from_slice file ≡ ok start)
    ⊎ ((e : Bytes) × (load store.from_slice file ≡ err e) × (start ≡ empty_ledger))

start-IsStart :
    (store : LedgerStore) (file : ReadOutcome) {start : Ledger}
    → IsStart store file start
    → or_empty_ledger (load store.from_slice file) ≡ start
start-IsStart store file (inl e) = rw e refl
start-IsStart store file (inr (e, p, q)) = rw (p, q) refl

-- Where a ledger is configured and its save succeeds with JSON that parses back, from balances in range,
-- the next load of its file finds a ledger in which every worker's balance has moved by the sum of its deltas and the history has one more entry, from the
-- ledger that the file held, or, where the load failed, from an empty one, so that every balance and
-- entry that the file held is gone.
pub load-finish_ledger :
    (store : LedgerStore) (file : ReadOutcome) (job_id : Bytes) (deltas : List (Bytes × ℕ))
    {start : Ledger}
    → IsStart store file start
    → InRange start.balances
    → IsSaved store file (apply start job_id (text "network-run") deltas)
    → (led : Ledger) × (load store.from_slice (finish_ledger (some store) file job_id deltas)
        ≡ ok led)
      × ((id : Bytes)
          → balance id led.balances ≡ (balance id start.balances + delta_sum id deltas) % 2 ^ 64)
      × (led.history
          ≡ start.history
            ++ record { job_id = job_id; decision = text "network-run"; deltas = deltas } ∷ [])
unfolding finish_ledger
load-finish_ledger store file job_id deltas {start} from r saved =
    let (moved, range, entry) = apply-balance start job_id (text "network-run") deltas r in
    (
      apply start job_id (text "network-run") deltas,
      rw (← start-IsStart store file from)
          (save-IsSaved store file _ (rw (start-IsStart store file from) saved)),
      moved,
      entry,
    )
