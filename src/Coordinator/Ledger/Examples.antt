-- ===== src/Coordinator/Ledger/Examples.antt =====
-- Runs of the ledger on small books.
use provework.Prelude.{
  ℕ, ◌+◌, ◌-◌, ◌%◌, ◌^◌, Bytes, List, [], ◌∷◌, ◌++◌, some, true, ok, ◌≡◌, refl, arith, text, inr,
}
use provework.Coordinator.Ledger.{
  Ledger, LedgerStore, empty_ledger, contents, failed, apply, load, finish_ledger,
}
use provework.Coordinator.Ledger.Balances.{
  balance, delta_sum, InRange, apply-balance, load-finish_ledger,
}

abbrev book : Ledger
book = record { balances = (text "w1", 30) ∷ (text "w2", 2 ^ 64 - 5) ∷ []; history = [] }

abbrev deltas : List (Bytes × ℕ)
deltas = (text "w2", 10) ∷ (text "w3", 10) ∷ (text "w1", 2 ^ 64 - 100) ∷ []

apply-balance_example :
    ((id : Bytes)
      → balance id (apply book (text "job") (text "accept") deltas).balances
        ≡ (balance id book.balances + delta_sum id deltas) % 2 ^ 64)
    × InRange (apply book (text "job") (text "accept") deltas).balances
    × ((apply book (text "job") (text "accept") deltas).history
        ≡ book.history
          ++ record { job_id = text "job"; decision = text "accept"; deltas = deltas } ∷ [])
apply-balance_example =
    apply-balance book (text "job") (text "accept") deltas (omega arith, (omega arith, tt))

-- A store that knows the ledger of one job alone, over a file that cannot be read.
abbrev alone : Ledger
alone = apply empty_ledger (text "job") (text "network-run") deltas

abbrev store : LedgerStore
store = record {
  from_slice = λ bytes. some alone;
  to_json = λ led. some (text "alone");
  write = λ file json. (true, contents json);
}

load-finish_ledger_example :
    (led : Ledger) × (load store.from_slice
        (finish_ledger (some store) (failed (text "denied")) (text "job") deltas)
      ≡ ok led)
    × ((id : Bytes)
        → balance id led.balances
          ≡ (balance id empty_ledger.balances + delta_sum id deltas) % 2 ^ 64)
    × (led.history
        ≡ empty_ledger.history
          ++ record { job_id = text "job"; decision = text "network-run"; deltas = deltas } ∷ [])
load-finish_ledger_example =
    load-finish_ledger store (failed (text "denied")) (text "job") deltas {start = empty_ledger}
      (inr (text "ledger: " ++ text "denied", unfold load in refl, refl)) tt
      (record { json = text "alone"; printed = refl; written = refl; parsed = refl })
