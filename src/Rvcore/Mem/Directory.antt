-- ===== src/Rvcore/Mem/Directory.antt =====
-- The page directory as a map, and its sorted order.
use provework.Prelude.{
  ℕ, ◌<◌, none, some, List, [], ◌∷◌, true, ◌≡◌, refl, arith, if◌then◌else◌, ◌==◌, ltb, All,
  Bool-cases, inl, inr,
}
use provework.Rvcore.Mem.{dir_get, dir_insert}

pub dir_get-insert :
    (page slot k : ℕ) (dir : List (ℕ × ℕ))
    → dir_get (dir_insert page slot dir) k ≡ (if page == k then some slot else dir_get dir k)
unfolding dir_get dir_insert
dir_get-insert page slot k [] = refl
dir_get-insert page slot k ((j, s) ∷ dir) = ground (arith, dir_get-insert page slot k dir)

-- The keys ascend, as a `BTreeMap` iterates them.
abbrev pub Ascending : List (ℕ × ℕ) → Type 0
Ascending [] = Unit
Ascending ((k, s) ∷ dir) = All (λ e. k < e.0) dir × Ascending dir

All-above-insert :
    (k page slot : ℕ) (dir : List (ℕ × ℕ))
    → k < page
    → All (λ e. k < e.0) dir
    → All (λ e. k < e.0) (dir_insert page slot dir)
unfolding dir_insert
All-above-insert k page slot [] h a = (h, tt)
All-above-insert k page slot ((j, s) ∷ dir) h a =
    ground (arith, All-above-insert k page slot dir h a.1)

All-above_trans :
    (j k : ℕ) (dir : List (ℕ × ℕ)) → j < k → All (λ e. k < e.0) dir → All (λ e. j < e.0) dir
All-above_trans j k [] h a = tt
All-above_trans j k (e ∷ dir) h a = (omega (arith, a.0), All-above_trans j k dir h a.1)

pub Ascending-insert :
    (page slot : ℕ) (dir : List (ℕ × ℕ)) → Ascending dir → Ascending (dir_insert page slot dir)
unfolding dir_insert
Ascending-insert page slot [] a = (tt, tt)
Ascending-insert page slot ((k, s) ∷ dir) a = elim (Bool-cases (k == page)) [
  | inl same ↦ rw same (rw (same_key same) a.0, a.1)
  | inr other ↦ rw other (elim (Bool-cases (ltb page k)) [
    | inl below ↦
        rw below ((ground arith, All-above_trans page k dir (ground arith) a.0), (a.0, a.1))
    | inr above ↦
        rw above
          (All-above-insert k page slot dir (ground arith) a.0, Ascending-insert page slot dir a.1)
  ])
]
  where
    same_key : (k == page) ≡ true → page ≡ k
    same_key e = ground arith

-- A key that the directory lacks, where all keys lie above it.
pub dir_get_below : (k : ℕ) (dir : List (ℕ × ℕ)) → All (λ e. k < e.0) dir → dir_get dir k ≡ none
unfolding dir_get
dir_get_below k [] a = refl
dir_get_below k ((j, s) ∷ dir) a = ground (arith, dir_get_below k dir a.1)
