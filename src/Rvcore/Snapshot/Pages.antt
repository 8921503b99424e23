-- ===== src/Rvcore/Snapshot/Pages.antt =====
-- crates/rvcore/src/snapshot.rs and mem.rs: the pages that are put back one after the other, in the
-- order of their indices, are the pages of the memory.
use provework.Prelude.{
  ℕ, suc, ◌+◌, ◌<◌, none, List, [], ◌∷◌, ◌++◌, map, append_assoc, append_nil, length-append, false,
  ◌≡◌, refl, ap, sym, ◌∙◌, arith, ◌==◌, ltb, length, get_or, All,
}
use provework.Rvcore.Mem.{
  Mem, Page, dir_get, dir_insert, pages_from, page_iter, insert_page, empty_mem,
}
use provework.Rvcore.Mem.Directory.{Ascending}

abbrev pub Pages : Type 0
Pages = List (ℕ × Page)

-- The indices ascend.
abbrev pub Rising : Pages → Type 0
Rising [] = Unit
Rising ((k, p) ∷ ps) = All (λ e. k < e.0) ps × Rising ps

-- Every index of the first list is below every one of the second.
abbrev Below : Pages → Pages → Type 0
Below ds ps = All (λ d. All (λ e. d.0 < e.0) ps) ds

unfoldable pub insert_all : Pages → Mem → Mem
insert_all [] m = m
insert_all ((k, p) ∷ ps) m = insert_all ps (insert_page m k p)

-- The directory of pages in slots that count up from `n`.
abbrev numbered : ℕ → Pages → List (ℕ × ℕ)
numbered n [] = []
numbered n ((k, p) ∷ ps) = (k, n) ∷ numbered (n + 1) ps

abbrev contents : Pages → List Page
contents ps = map (λ e. e.1) ps

record Holds (m : Mem) (ds : Pages) : Type 0 where
  slots : m.page_slots ≡ contents ds
  dir : m.page_dir ≡ numbered 0 ds

dir_get-above : (k n : ℕ) (ds : Pages) → All (λ d. d.0 < k) ds → dir_get (numbered n ds) k ≡ none
unfolding dir_get
dir_get-above k n [] h = refl
dir_get-above k n ((j, p) ∷ ds) h = rw (differs j h.0) (dir_get-above k (n + 1) ds h.1)
  where
    differs : (j : ℕ) → j < k → (j == k) ≡ false
    differs j l = ground arith

dir_insert-above :
    (k n : ℕ) (p : Page) (ds : Pages)
    → All (λ d. d.0 < k) ds
    → dir_insert k (n + length ds) (numbered n ds) ≡ numbered n (ds ++ (k, p) ∷ [])
unfolding dir_insert
dir_insert-above k n p [] h = ap (λ (s : ℕ). (k, s) ∷ []) (omega arith)
dir_insert-above k n p ((j, q) ∷ ds) h =
    rw (differs j h.0, later j h.0)
      (ap (λ (t : List (ℕ × ℕ)). (j, n) ∷ t)
        (ap (λ (s : ℕ). dir_insert k s (numbered (n + 1) ds)) (shift n (length ds))
          ∙ dir_insert-above k (n + 1) p ds h.1))
  where
    differs : (j : ℕ) → j < k → (j == k) ≡ false
    differs j l = ground arith

    later : (j : ℕ) → j < k → ltb k j ≡ false
    later j l = ground arith

    shift : (a b : ℕ) → a + suc b ≡ (a + 1) + b
    shift a b = omega arith

contents-snoc :
    (ds : Pages) (k : ℕ) (p : Page) → contents (ds ++ (k, p) ∷ []) ≡ contents ds ++ p ∷ []
contents-snoc [] k p = refl
contents-snoc (d ∷ ds) k p = ap (λ (t : List Page). d.1 ∷ t) (contents-snoc ds k p)

length-contents : (ds : Pages) → length (contents ds) ≡ length ds
length-contents [] = refl
length-contents (d ∷ ds) = ap suc (length-contents ds)

insert_page-absent :
    (m : Mem) (k : ℕ) (p : Page)
    → dir_get m.page_dir k ≡ none
    → ((insert_page m k p).page_slots ≡ m.page_slots ++ p ∷ [])
      × ((insert_page m k p).page_dir ≡ dir_insert k (length m.page_slots) m.page_dir)
unfolding insert_page
insert_page-absent m k p e = (rw (insert_page, e) refl, rw (insert_page, e) refl)

from_zero : (n : ℕ) → n ≡ 0 + n
from_zero n = omega arith

insert_page-Holds :
    (m : Mem) (ds : Pages) (k : ℕ) (p : Page)
    → Holds m ds
    → All (λ d. d.0 < k) ds
    → Holds (insert_page m k p) (ds ++ (k, p) ∷ [])
insert_page-Holds m ds k p h below =
    let (s, d) = insert_page-absent m k p (rw h.dir (dir_get-above k 0 ds below)) in
    record {
      slots = s ∙ (ap (λ (t : List Page). t ++ p ∷ []) h.slots ∙ sym (contents-snoc ds k p));
      dir =
          d
          ∙ (rw (h.dir, h.slots, length-contents ds)
                (ap (λ (s : ℕ). dir_insert k s (numbered 0 ds)) (from_zero (length ds)))
              ∙ dir_insert-above k 0 p ds below);
    }

heads-Below : (ds ps : Pages) (k : ℕ) (p : Page) → Below ds ((k, p) ∷ ps) → All (λ d. d.0 < k) ds
heads-Below [] ps k p h = tt
heads-Below (d ∷ ds) ps k p h = (h.0.0, heads-Below ds ps k p h.1)

Below-snoc :
    (ds ps : Pages) (k : ℕ) (p : Page)
    → Below ds ((k, p) ∷ ps)
    → All (λ e. k < e.0) ps
    → Below (ds ++ (k, p) ∷ []) ps
Below-snoc [] ps k p h a = (a, tt)
Below-snoc (d ∷ ds) ps k p h a = (h.0.1, Below-snoc ds ps k p h.1 a)

insert_all-Holds :
    (ps ds : Pages) (m : Mem)
    → Holds m ds
    → Below ds ps
    → Rising ps
    → Holds (insert_all ps m) (ds ++ ps)
unfolding insert_all
insert_all-Holds [] ds m h b r = rw (append_nil ds) h
insert_all-Holds ((k, p) ∷ ps) ds m h b r = rw (sym (append_assoc ds ((k, p) ∷ []) ps)) (
    insert_all-Holds ps (ds ++ (k, p) ∷ []) (insert_page m k p)
      (insert_page-Holds m ds k p h (heads-Below ds ps k p b)) (Below-snoc ds ps k p b r.0) r.1)

get_or-middle : (pre post : List Page) (p : Page) → get_or (pre ++ p ∷ post) (length pre) [] ≡ p
get_or-middle [] post p = refl
get_or-middle (x ∷ pre) post p = get_or-middle pre post p

pages_from-numbered :
    (ds : Pages) (pre : List Page) → pages_from (pre ++ contents ds) (numbered (length pre) ds) ≡ ds
unfolding pages_from
pages_from-numbered [] pre = refl
pages_from-numbered ((k, p) ∷ ds) pre =
    let rest =
      rw (append_assoc pre (p ∷ []) (contents ds), length-append pre (p ∷ [])) at
        (pages_from-numbered ds (pre ++ p ∷ [])) in
    rw (get_or-middle pre (contents ds) p) (ap (λ (t : Pages). (k, p) ∷ t) rest)

empty-Holds : Holds empty_mem []
unfolding empty_mem
empty-Holds = record { slots = refl; dir = refl }

-- Pages in ascending order that are put into an empty memory are what its iteration gives.
pub page_iter-insert_all : (ps : Pages) → Rising ps → page_iter (insert_all ps empty_mem) ≡ ps
unfolding page_iter
page_iter-insert_all ps r =
    let h = insert_all-Holds ps [] empty_mem empty-Holds tt r in
    rw (page_iter, h.slots, h.dir) (pages_from-numbered ps [])

keys-above :
    (slots : List Page) (k : ℕ) (dir : List (ℕ × ℕ))
    → All (λ e. k < e.0) dir
    → All (λ e. k < e.0) (pages_from slots dir)
unfolding pages_from
keys-above slots k [] h = tt
keys-above slots k ((j, s) ∷ dir) h = (h.0, keys-above slots k dir h.1)

pages_from-Rising :
    (slots : List Page) (dir : List (ℕ × ℕ)) → Ascending dir → Rising (pages_from slots dir)
unfolding pages_from
pages_from-Rising slots [] h = tt
pages_from-Rising slots ((k, s) ∷ dir) h =
    (keys-above slots k dir h.0, pages_from-Rising slots dir h.1)

-- The pages of a memory whose directory ascends do.
pub page_iter-Rising : (m : Mem) → Ascending m.page_dir → Rising (page_iter m)
unfolding page_iter
page_iter-Rising m h = pages_from-Rising m.page_slots m.page_dir h
