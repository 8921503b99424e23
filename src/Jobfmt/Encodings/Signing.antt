-- ===== src/Jobfmt/Encodings/Signing.antt =====
-- crates/jobfmt/src/lib.rs: what the message that a worker signs determines.
use provework.Prelude.{
  append_assoc, append_nil, ℕ, ◌+◌, ◌%◌, ◌^◌, ◌<◌, Bytes, Option, none, some, List, [], ◌∷◌, ◌++◌,
  ◌≡◌, refl, ap, sym, ◌∙◌, arith, length, All, to_le_bytes, length-to_le_bytes, length-append,
  le_split, ++-split,
}
use provework.Jobfmt.{WorkerResult}
use provework.Jobfmt.Encodings.{put, put_all, put_option, signing_message}

-- What a missing text is signed as.
abbrev pub or_empty : Option Bytes → Bytes
or_empty none = []
or_empty (some bytes) = bytes

abbrev pub IsShort : Bytes → Type 0
IsShort bytes = length bytes < 2 ^ 32

fits : (n : ℕ) → n < 2 ^ 32 → n % 2 ^ 32 ≡ n
fits n h = omega arith

put-split :
    (a b xs ys : Bytes) → IsShort a → IsShort b → put a ++ xs ≡ put b ++ ys → (a ≡ b) × (xs ≡ ys)
unfolding put
put-split a b xs ys h g e =
    let pa = to_le_bytes 4 (length a % 2 ^ 32) in
    let pb = to_le_bytes 4 (length b % 2 ^ 32) in
    let (n, rest) =
      le_split 4 (length a % 2 ^ 32) (length b % 2 ^ 32) (a ++ xs) (b ++ ys) (omega arith)
        (omega arith) (sym (append_assoc pa a xs) ∙ (e ∙ append_assoc pb b ys)) in
    ++-split a b xs ys (sym (fits _ h) ∙ (n ∙ fits _ g)) rest

length-put : (a : Bytes) → length (put a) ≡ 4 + length a
unfolding put
length-put a =
    length-append (to_le_bytes 4 (length a % 2 ^ 32)) a
    ∙ ap (λ (n : ℕ). n + length a) (length-to_le_bytes 4 (length a % 2 ^ 32))

put_all-injective :
    (ls bs : List Bytes) → All IsShort ls → All IsShort bs → put_all ls ≡ put_all bs → ls ≡ bs
unfolding put_all
put_all-injective [] [] h g e = refl
put_all-injective [] (b ∷ bs) h g e = absurd (
    omega (arith, ap (λ (t : Bytes). length t) e, length-append (put b) (put_all bs), length-put b))
put_all-injective (a ∷ ls) [] h g e = absurd (
    omega (arith, ap (λ (t : Bytes). length t) e, length-append (put a) (put_all ls), length-put a))
put_all-injective (a ∷ ls) (b ∷ bs) h g e =
    let (p, rest) = put-split a b (put_all ls) (put_all bs) h.0 g.0 e in
    let q = put_all-injective ls bs h.1 g.1 rest in rw (p, q) refl

put_option-empty : (o : Option Bytes) → put_option o ≡ put (or_empty o)
unfolding put_option put to_le_bytes
put_option-empty none = refl
put_option-empty (some bytes) = refl

-- The texts behind the chain are two more of the same form.
put_all-tail :
    (hs : List Bytes) (o t : Option Bytes)
    → put_all hs ++ (put_option o ++ put_option t) ≡ put_all (hs ++ or_empty o ∷ or_empty t ∷ [])
unfolding put_all
put_all-tail [] o t =
    rw (put_option-empty o, put_option-empty t, append_nil (put (or_empty t))) refl
put_all-tail (h ∷ hs) o t =
    append_assoc (put h) (put_all hs) (put_option o ++ put_option t)
    ∙ ap (λ (x : Bytes). put h ++ x) (put_all-tail hs o t)

two_split :
    (hs ks : List Bytes) (a b c d : Bytes)
    → length hs ≡ length ks
    → hs ++ a ∷ b ∷ [] ≡ ks ++ c ∷ d ∷ []
    → (hs ≡ ks) × (a ≡ c) × (b ≡ d)
two_split [] [] a b c d l e = (refl, cc, cc)
two_split [] (k ∷ ks) a b c d l e = absurd (omega arith)
two_split (h ∷ hs) [] a b c d l e = absurd (omega arith)
two_split (h ∷ hs) (k ∷ ks) a b c d l e =
    let (p, q, r) = two_split hs ks a b c d (omega arith) cc in
    let head : h ≡ k = cc in (rw (head, p) refl, q, r)

-- Every text that is signed is below 2 ^ 32 bytes, and the count fits 64 bits.
pub record Fits (r : WorkerResult) : Type 0 where
  pub worker_id : IsShort r.worker_id
  pub job_id : IsShort r.job_id
  pub status : IsShort r.status
  pub instructions : r.instructions < 2 ^ 64
  pub result_hash : IsShort r.result_hash
  pub chunk_hashes : All IsShort r.chunk_hashes
  pub output_hex : IsShort (or_empty r.output_hex)
  pub trap : IsShort (or_empty r.trap)

-- Two results that agree in all that is signed, a missing text and an empty one alike.
pub record SameSigned (r s : WorkerResult) : Type 0 where
  pub worker_id : r.worker_id ≡ s.worker_id
  pub job_id : r.job_id ≡ s.job_id
  pub status : r.status ≡ s.status
  pub instructions : r.instructions ≡ s.instructions
  pub result_hash : r.result_hash ≡ s.result_hash
  pub chunk_hashes : r.chunk_hashes ≡ s.chunk_hashes
  pub output_hex : or_empty r.output_hex ≡ or_empty s.output_hex
  pub trap : or_empty r.trap ≡ or_empty s.trap

All-two :
    (hs : List Bytes) (a b : Bytes)
    → All IsShort hs
    → IsShort a
    → IsShort b
    → All IsShort (hs ++ a ∷ b ∷ [])
All-two [] a b h p q = (p, (q, tt))
All-two (x ∷ hs) a b h p q = (h.0, All-two hs a b h.1 p q)

-- The chain, the output and the trap of two tails that are equal.
tail-split :
    (r s : WorkerResult)
    → Fits r
    → Fits s
    → put_all r.chunk_hashes ++ (put_option r.output_hex ++ put_option r.trap)
      ≡ put_all s.chunk_hashes ++ (put_option s.output_hex ++ put_option s.trap)
    → (r.chunk_hashes ≡ s.chunk_hashes)
      × (or_empty r.output_hex ≡ or_empty s.output_hex)
      × (or_empty r.trap ≡ or_empty s.trap)
tail-split r s h g e =
    let lists =
      put_all-injective _ _ (All-two r.chunk_hashes _ _ h.chunk_hashes h.output_hex h.trap)
        (All-two s.chunk_hashes _ _ g.chunk_hashes g.output_hex g.trap)
        (sym (put_all-tail r.chunk_hashes r.output_hex r.trap)
          ∙ (e ∙ put_all-tail s.chunk_hashes s.output_hex s.trap)) in
    two_split r.chunk_hashes s.chunk_hashes _ _ _ _
      (omega (
        arith,
        ap (λ (t : List Bytes). length t) lists,
        length-append r.chunk_hashes (or_empty r.output_hex ∷ or_empty r.trap ∷ []),
        length-append s.chunk_hashes (or_empty s.output_hex ∷ or_empty s.trap ∷ []),
      ))
      lists

-- Two results whose texts are below 2 ^ 32 bytes and whose counts fit 64 bits have the same signed
-- message only if they agree in every signed field, where a missing output or trap counts as an empty
-- one: no signature of one result passes for another.
pub signing_message_injective :
    (r s : WorkerResult) → Fits r → Fits s → signing_message r ≡ signing_message s → SameSigned r s
unfolding signing_message
signing_message_injective r s h g e =
    let (w, e1) = put-split _ _ _ _ h.worker_id g.worker_id e in
    let (j, e2) = put-split _ _ _ _ h.job_id g.job_id e1 in
    let (t, e3) = put-split _ _ _ _ h.status g.status e2 in
    let (i, e4) = le_split 8 _ _ _ _ h.instructions g.instructions e3 in
    let (d, e5) = put-split _ _ _ _ h.result_hash g.result_hash e4 in
    let (c, o, x) = tail-split r s h g e5 in
    record {
      worker_id = w;
      job_id = j;
      status = t;
      instructions = i;
      result_hash = d;
      chunk_hashes = c;
      output_hex = o;
      trap = x;
    }
