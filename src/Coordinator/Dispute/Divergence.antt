-- ===== src/Coordinator/Dispute/Divergence.antt =====
-- `first_divergence` against its meaning: the least index at which the two chains answer differently.
use provework.Prelude.{
  ℕ, zero, suc, ◌+◌, ◌<◌, Option, none, some, List, [], ◌∷◌, true, ◌≡◌, ◌≢◌, ◌↔◌, refl, ap, ◌⊎◌,
  inl, inr, arith, bytes_eq, bytes_eq_refl, bytes_eq→≡, get_elem?, Bool-cases,
}
use provework.Coordinator.Dispute.{Hash, diverge_from, first_divergence}

some-injective {ℓ} : {A : Type ℓ} {x y : A} → some x ≡ some y → x ≡ y
some-injective {x = x} q = ap (λ o. elim o [ some z ↦ z | none ↦ x ]) q

-- The chains agree below an index and differ there, an index past the end of one included.
pub record Diverges (a b : List Hash) (k : ℕ) : Type 0 where
  pub agreed : (i : ℕ) → i < k → get_elem? a i ≡ get_elem? b i
  pub apart : get_elem? a k ≢ get_elem? b k

Diverges-next :
    (x : Hash) (a b : List Hash) (k : ℕ) → Diverges a b k → Diverges (x ∷ a) (x ∷ b) (suc k)
Diverges-next x a b k d = record { agreed = below; apart = d.apart }
  where
    below : (i : ℕ) → i < suc k → get_elem? (x ∷ a) i ≡ get_elem? (x ∷ b) i
    below zero h = refl
    below (suc i) h = d.agreed i (omega arith)

abbrev Found : List Hash → List Hash → ℕ → Option ℕ → Type 0
Found a b i none = a ≡ b
Found a b i (some j) = (k : ℕ) × (j ≡ i + k) × Diverges a b k

Found-next :
    (x y : Hash) (a b : List Hash) (i : ℕ) (o : Option ℕ)
    → x ≡ y
    → Found a b (i + 1) o
    → Found (x ∷ a) (y ∷ b) i o
Found-next x y a b i none e h = rw (e, h) refl
Found-next x y a b i (some j) e (k, p, d) = rw (← e) (suc k, omega arith, Diverges-next x a b k d)

diverge_from-Found : (a b : List Hash) (i : ℕ) → Found a b i (diverge_from i a b)
unfolding diverge_from
diverge_from-Found [] [] i = refl
diverge_from-Found [] (y ∷ ys) i =
    (0, omega arith, record { agreed = λ j h. absurd (omega arith); apart = λ e. cc })
diverge_from-Found (x ∷ xs) [] i =
    (0, omega arith, record { agreed = λ j h. absurd (omega arith); apart = λ e. cc })
diverge_from-Found (x ∷ xs) (y ∷ ys) i = elim (Bool-cases (bytes_eq x y)) [
  | inl e ↦ rw e (Found-next x y xs ys i _ (bytes_eq→≡ x y e) (diverge_from-Found xs ys (i + 1)))
  | inr e ↦ rw e (
    0,
    omega arith,
    record {
      agreed = λ j h. absurd (omega arith);
      apart = λ q. let h : bytes_eq x y ≡ true = head_same x y q in absurd cc;
    },
  )
]
  where
    head_same : (x y : Hash) → some x ≡ some y → bytes_eq x y ≡ true
    head_same x y q = rw (some-injective q) (bytes_eq_refl y)

-- Two indices of divergence are the same one.
Diverges-unique : (a b : List Hash) (j k : ℕ) → Diverges a b j → Diverges a b k → j ≡ k
Diverges-unique a b j k p q = elim (order j k) [
  | inl e ↦ e
  | inr (inl h) ↦ absurd (p.apart (q.agreed j h))
  | inr (inr h) ↦ absurd (q.apart (p.agreed k h))
]
  where
    order : (j k : ℕ) → (j ≡ k) ⊎ ((j < k) ⊎ (k < j))
    order j k = ground arith

-- `first_divergence` answers none exactly for equal chains, and an index exactly where the chains
-- agree below it and differ at it, the end of the shorter one included.
pub first_divergence_lem :
    (a b : List Hash)
    → ((first_divergence a b ≡ none) ↔ (a ≡ b))
      × ((k : ℕ) → (first_divergence a b ≡ some k) ↔ Diverges a b k)
unfolding first_divergence
first_divergence_lem a b = of_found (diverge_from 0 a b) (diverge_from-Found a b 0)
  where
    of_found :
        (o : Option ℕ)
        → Found a b 0 o
        → ((o ≡ none) ↔ (a ≡ b)) × ((k : ℕ) → (o ≡ some k) ↔ Diverges a b k)
    of_found none h = (
      (λ e. h, λ e. refl),
      λ k. (λ e. absurd cc, λ d. absurd (d.apart (ap (λ (t : List Hash). get_elem? t k) h))),
    )
    of_found (some j) (k, p, d) = (
      (λ e. absurd cc, λ e. absurd (d.apart (ap (λ (t : List Hash). get_elem? t k) e))),
      λ i. (
        λ e. let same : i ≡ k = omega (arith, some-injective e) in rw same d,
        λ d'. ap some (omega (arith, Diverges-unique a b k i d d')),
      ),
    )
