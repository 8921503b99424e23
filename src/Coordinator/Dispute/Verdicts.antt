-- ===== src/Coordinator/Dispute/Verdicts.antt =====
-- `resolve_chains`: who wins a dispute.
use provework.Prelude.{
  ℕ, Option, none, some, List, true, false, ◌≡◌, ◌≢◌, refl, ap, sym, ◌∙◌, inl, inr, bytes_eq_refl,
  bytes_eq→≡, get_elem?, Bool-cases,
}
use provework.Coordinator.Dispute.{
  Hash, claim_honest, counter_honest, both_dishonest, entry_eq, verdict_with_truth, Judges,
  truth_at, resolve_chains,
}
use provework.Coordinator.Dispute.Divergence.{Diverges, first_divergence_lem}

entry_eq→≡ : (x y : Option Hash) → entry_eq x y ≡ true → x ≡ y
unfolding entry_eq
entry_eq→≡ (some x) (some y) h = ap some (bytes_eq→≡ x y h)
entry_eq→≡ none none h = refl
entry_eq→≡ none (some y) h = cc
entry_eq→≡ (some x) none h = cc

entry_eq_refl : (x : Option Hash) → entry_eq x x ≡ true
unfolding entry_eq
entry_eq_refl (some x) = bytes_eq_refl x
entry_eq_refl none = refl

entry_eq_apart : (x y : Option Hash) → x ≢ y → entry_eq x y ≡ false
entry_eq_apart x y h = elim (Bool-cases (entry_eq x y)) [
  | inl e ↦ absurd (h (entry_eq→≡ x y e))
  | inr e ↦ e
]

-- The verdict, read off the judge's hash at the divergence.
pub verdict_at :
    (a b : List Hash) (k : ℕ) (judges : Judges)
    → Diverges a b k
    → resolve_chains judges a b ≡ verdict_with_truth a b k (truth_at judges k a)
unfolding resolve_chains
verdict_at a b k judges d = rw (((first_divergence_lem a b).1 k).1 d, resolve_chains) refl

-- Where two chains diverge and the judge has a hash there, the side whose entry at that index is
-- the judge's hash wins, the claim or the counter, and where neither entry is it, both are
-- dishonest.
pub resolve_chains-winner :
    (judges : Judges) (a b : List Hash) (k : ℕ) (t : Hash)
    → Diverges a b k
    → truth_at judges k a ≡ some t
    → ((get_elem? a k ≡ some t → resolve_chains judges a b ≡ claim_honest k)
        × (get_elem? b k ≡ some t → resolve_chains judges a b ≡ counter_honest k))
      × (get_elem? a k ≢ some t
          → get_elem? b k ≢ some t
          → resolve_chains judges a b ≡ both_dishonest k)
unfolding verdict_with_truth
resolve_chains-winner judges a b k t d truth = (
  (
    λ e.
        verdict_at a b k judges d
        ∙ rw
            (
              truth,
              e,
              entry_eq_refl (some t),
              entry_eq_apart (get_elem? b k) (some t) (λ q. d.apart (e ∙ sym q)),
            )
            refl,
    λ e.
        verdict_at a b k judges d
        ∙ rw
            (
              truth,
              e,
              entry_eq_apart (get_elem? a k) (some t) (λ q. d.apart (q ∙ sym e)),
              entry_eq_refl (some t),
            )
            refl,
  ),
  λ p q.
      verdict_at a b k judges d
      ∙ rw
          (
            truth,
            entry_eq_apart (get_elem? a k) (some t) p,
            entry_eq_apart (get_elem? b k) (some t) q,
          )
          refl,
)
