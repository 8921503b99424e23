-- ===== src/Rvcore/Hash/Binding.antt =====
-- What a state hash commits to.
use provework.Prelude.{
  append_assoc, ++-split, le_split, ℕ, ◌^◌, ◌<◌, ◌≤◌, Bytes, List, [], ◌∷◌, ◌++◌, ◌≡◌, refl, ap,
  sym, ◌∙◌, arith, length, All, get_or, to_le_bytes, length-to_le_bytes,
}
use provework.Rvcore.Cpu.{Cpu, IsCpu}
use provework.Rvcore.Mem.{Mem, Page, page_size, page_iter}
use provework.Rvcore.Hash.{page_bytes, merkle_root, word_bytes, csr_bytes, state_hash}

words_split :
    (us vs : List ℕ) (xs ys : Bytes)
    → All (λ v. v < 2 ^ 64) us
    → All (λ v. v < 2 ^ 64) vs
    → length us ≡ length vs
    → word_bytes us ++ xs ≡ word_bytes vs ++ ys
    → (us ≡ vs) × (xs ≡ ys)
unfolding word_bytes
words_split [] [] xs ys h g n e = (refl, e)
words_split [] (v ∷ vs) xs ys h g n e = absurd (omega arith)
words_split (u ∷ us) [] xs ys h g n e = absurd (omega arith)
words_split (u ∷ us) (v ∷ vs) xs ys h g n e =
    let (p, q) =
      le_split 8 u v (word_bytes us ++ xs) (word_bytes vs ++ ys) h.0 g.0
        (sym (append_assoc (to_le_bytes 8 u) _ _) ∙ (e ∙ append_assoc (to_le_bytes 8 v) _ _)) in
    let (r, t) = words_split us vs xs ys h.1 g.1 (omega arith) q in (rw (p, r) refl, t)

-- Pages as `page_iter` gives them: an index in 32 bits and a full page.
abbrev pub IsPage : ℕ × Page → Type 0
IsPage (idx, page) = (idx < 2 ^ 32) × (length page ≡ page_size)

longer : (us vs : Bytes) → length us ≤ length (us ++ vs)
longer [] vs = omega arith
longer (u ∷ us) vs = omega (arith, longer us vs)

page_bytes-injective :
    (ps qs : List (ℕ × Page))
    → All IsPage ps
    → All IsPage qs
    → page_bytes ps ≡ page_bytes qs
    → ps ≡ qs
unfolding page_bytes
page_bytes-injective [] [] h g e = refl
page_bytes-injective [] ((j, q) ∷ qs) h g e = absurd (
    let n = ap length e in
    omega (arith, n, length-to_le_bytes 4 j, longer (to_le_bytes 4 j) (q ++ page_bytes qs)))
page_bytes-injective ((i, p) ∷ ps) [] h g e = absurd (
    let n = ap length e in
    omega (arith, n, length-to_le_bytes 4 i, longer (to_le_bytes 4 i) (p ++ page_bytes ps)))
page_bytes-injective ((i, p) ∷ ps) ((j, q) ∷ qs) h g e =
    let (same, rest) = le_split 4 i j _ _ h.0.0 g.0.0 e in
    let (pages, more) = ++-split p q _ _ (h.0.1 ∙ sym g.0.1) rest in
    rw (same, pages, page_bytes-injective ps qs h.1 g.1 more) refl

-- A state hash commits to the whole architectural state: over a digest function without collisions,
-- two states with the same state hash have the same previous hash, registers, program counter, CSRs
-- and pages. The conditions are 64-bit words in 32 registers, previous hashes of one length, and
-- full pages with 32-bit indices.
pub state_hash-injective :
    (blake3 : Bytes → Bytes)
    → ((x y : Bytes) → blake3 x ≡ blake3 y → x ≡ y)
    → (prev prev' : Bytes) (cpu cpu' : Cpu) (mem mem' : Mem) → length prev ≡ length prev'
    → IsCpu cpu
    → IsCpu cpu'
    → All IsPage (page_iter mem)
    → All IsPage (page_iter mem')
    → state_hash blake3 prev cpu mem ≡ state_hash blake3 prev' cpu' mem'
    → ((prev ≡ prev') × ((cpu.x ≡ cpu'.x) × (cpu.pc ≡ cpu'.pc)))
      × (((cpu.mtvec ≡ cpu'.mtvec) × (cpu.mepc ≡ cpu'.mepc))
          × (((cpu.mcause ≡ cpu'.mcause) × (cpu.mstatus ≡ cpu'.mstatus))
              × (page_iter mem ≡ page_iter mem')))
unfolding state_hash csr_bytes merkle_root
state_hash-injective blake3 injective prev prev' cpu cpu' mem mem' n v v' p p' e =
    let (e0, r0) = ++-split prev prev' _ _ n (injective _ _ e) in
    let (e1, r1) = words_split cpu.x cpu'.x _ _ v.words v'.words (v.count ∙ sym v'.count) r0 in
    let (e2, r2) = le_split 8 cpu.pc cpu'.pc _ _ v.pc_word v'.pc_word r1 in
    let (e3, r3) =
      words_split (csrs cpu) (csrs cpu') _ _
        (v.mtvec_word, (v.mepc_word, (v.mcause_word, (v.mstatus_word, tt))))
        (v'.mtvec_word, (v'.mepc_word, (v'.mcause_word, (v'.mstatus_word, tt)))) refl r2 in
    (
      (e0, (e1, e2)),
      (
        (entry 0 e3, entry 1 e3),
        ((entry 2 e3, entry 3 e3), page_bytes-injective _ _ p p' (injective _ _ r3)),
      ),
    )
  where
    csrs : Cpu → List ℕ
    csrs c = c.mtvec ∷ c.mepc ∷ c.mcause ∷ c.mstatus ∷ []

    entry : {us vs : List ℕ} (i : ℕ) → us ≡ vs → get_or us i 0 ≡ get_or vs i 0
    entry i q = ap (λ (l : List ℕ). get_or l i 0) q
