-- ===== src/Coordinator/Net/Dispatch/Shuffle.antt =====
-- A shuffle keeps the length of a list and what holds of all its entries.
use provework.Prelude.{
  ℕ, zero, suc, ◌+◌, ◌%◌, Option, none, some, List, [], ◌∷◌, set, get_elem?, take, All,
}
use provework.Coordinator.Net.Votes.Fair.{OnSome}
use provework.Coordinator.Net.Dispatch.{swap, shuffle_from, shuffle}

module _ {A : Type 0} (P : A → Type 0) where
  All-set : (xs : List A) (i : ℕ) (v : A) → All P xs → P v → All P (set xs i v)
  All-set [] i v h p = tt
  All-set (x ∷ xs) zero v h p = (p, h.1)
  All-set (x ∷ xs) (suc i) v h p = (h.0, All-set xs i v h.1 p)

  All-get : (xs : List A) (i : ℕ) → All P xs → OnSome P (get_elem? xs i)
  All-get [] i h = tt
  All-get (x ∷ xs) zero h = h.0
  All-get (x ∷ xs) (suc i) h = All-get xs i h.1

  pub All-take : (n : ℕ) (xs : List A) → All P xs → All P (take n xs)
  All-take zero xs h = tt
  All-take (suc n) [] h = tt
  All-take (suc n) (x ∷ xs) h = (h.0, All-take n xs h.1)

  All-swap : (xs : List A) (i j : ℕ) → All P xs → All P (swap xs i j)
  unfolding swap
  All-swap xs i j h = swapped (get_elem? xs i) (get_elem? xs j) (All-get xs i h) (All-get xs j h)
    where
      swapped :
          (o p : Option A)
          → OnSome P o
          → OnSome P p
          → All P
              (elim o [ none ↦ xs | some x ↦ elim p [ none ↦ xs | some y ↦ set (set xs i y) j x ] ])
      swapped none p q r = h
      swapped (some x) none q r = h
      swapped (some x) (some y) q r = All-set (set xs i y) j x (All-set xs i y h r) q

  All-shuffle_from :
      (i : ℕ) (draws : List ℕ) (xs : List A) → All P xs → All P (shuffle_from i draws xs)
  unfolding shuffle_from
  All-shuffle_from zero draws xs h = h
  All-shuffle_from (suc i) [] xs h = All-shuffle_from i [] _ (All-swap xs (suc i) 0 h)
  All-shuffle_from (suc i) (d ∷ draws) xs h =
      All-shuffle_from i draws _ (All-swap xs (suc i) (d % (i + 2)) h)

  pub All-shuffle : (draws : List ℕ) (xs : List A) → All P xs → All P (shuffle draws xs)
  unfolding shuffle
  All-shuffle draws xs h = All-shuffle_from _ draws xs h
