-- ===== src/Wire/Frames.antt =====
-- What `send` writes, read back by `receive_polled` however the stream cuts it.
use provework.Prelude.{
  append_assoc, leb→lt_flip, ℕ, zero, suc, ◌+◌, ◌-◌, ◌*◌, ◌≤◌, ◌^◌, ◌%◌, Bytes, Option, some, List,
  [], ◌∷◌, ◌++◌, true, false, ◌≡◌, refl, ap, sym, ◌∙◌, arith, if◌then◌else◌, leb, ltb, length, take,
  drop, to_le_bytes, from_le_bytes, length-to_le_bytes, from_le_bytes-to_le_bytes, length-append,
  take-append, drop-append, ok, err, Bool-cases, inl, inr, leb→le,
}
use provework.Wire.{
  bytes, would_block, interrupted, fault, Stream, Filled, full, fill, send, read_frame_body,
  receive_polled, idle_prefix, stalled_body, max_frame, WireError,
}

-- The bytes that a stream delivers.
abbrev pub carried : Stream → Bytes
carried [] = []
carried (bytes bs ∷ s) = bs ++ carried s
carried (would_block late ∷ s) = carried s
carried (interrupted ∷ s) = carried s
carried (fault ∷ s) = carried s

-- No error of another kind, no empty arrival, and no wait beyond the time that the loops allow.
abbrev pub IsCalm : Stream → Type 0
IsCalm [] = Unit
IsCalm (bytes [] ∷ s) = ⊥
IsCalm (bytes (b ∷ bs) ∷ s) = IsCalm s
IsCalm (would_block true ∷ s) = ⊥
IsCalm (would_block false ∷ s) = IsCalm s
IsCalm (interrupted ∷ s) = ⊥
IsCalm (fault ∷ s) = ⊥

module _ {ℓ} {A : Type ℓ} where
  take-append_past :
      (n : ℕ) (xs ys : List A) → length xs ≤ n → take n (xs ++ ys) ≡ xs ++ take (n - length xs) ys
  take-append_past n [] ys h = ap (λ (t : ℕ). take t ys) (omega arith)
  take-append_past zero (x ∷ xs) ys h = absurd (omega arith)
  take-append_past (suc n) (x ∷ xs) ys h =
      ap (λ (t : List A). x ∷ t)
        (take-append_past n xs ys (omega arith) ∙ ap (λ (t : ℕ). xs ++ take t ys) (omega arith))

  drop-append_past :
      (n : ℕ) (xs ys : List A) → length xs ≤ n → drop n (xs ++ ys) ≡ drop (n - length xs) ys
  drop-append_past n [] ys h = ap (λ (t : ℕ). drop t ys) (omega arith)
  drop-append_past zero (x ∷ xs) ys h = absurd (omega arith)
  drop-append_past (suc n) (x ∷ xs) ys h =
      drop-append_past n xs ys (omega arith) ∙ ap (λ (t : ℕ). drop t ys) (omega arith)

  take-append_within : (n : ℕ) (xs ys : List A) → n ≤ length xs → take n (xs ++ ys) ≡ take n xs
  take-append_within zero xs ys h = refl
  take-append_within (suc n) [] ys h = absurd (omega arith)
  take-append_within (suc n) (x ∷ xs) ys h =
      ap (λ (t : List A). x ∷ t) (take-append_within n xs ys (omega arith))

  drop-append_within :
      (n : ℕ) (xs ys : List A) → n ≤ length xs → drop n (xs ++ ys) ≡ drop n xs ++ ys
  drop-append_within zero xs ys h = refl
  drop-append_within (suc n) [] ys h = absurd (omega arith)
  drop-append_within (suc n) (x ∷ xs) ys h = drop-append_within n xs ys (omega arith)

cut-IsCalm :
    (n : ℕ) (bs : Bytes) (s : Stream)
    → n ≤ length bs
    → leb (length bs) n ≡ false
    → IsCalm s
    → IsCalm (bytes (drop n bs) ∷ s)
cut-IsCalm zero [] s h l c = cc
cut-IsCalm (suc n) [] s h l c = absurd (omega arith)
cut-IsCalm zero (b ∷ bs) s h l c = c
cut-IsCalm (suc n) (b ∷ bs) s h l c = cut-IsCalm n bs s (omega arith) (shift (length bs) n l) c
  where
    shift : (a b : ℕ) → leb (suc a) (suc b) ≡ false → leb a b ≡ false
    shift a b e = ground arith

-- What a loop that fills `want` bytes of a stream leads to.
abbrev Fills : (ℕ → Stream → Option Filled) → ℕ → ℕ → Stream → Type 0
Fills late got want s =
    (rest : Stream) × (fill late got want s ≡ full (take want (carried s)) rest)
    × (carried rest ≡ drop want (carried s))
    × IsCalm rest

fill-Fills :
    (late : ℕ → Stream → Option Filled) (got want : ℕ) (s : Stream)
    → IsCalm s
    → want ≤ length (carried s)
    → Fills late got want s
unfolding fill
fill-Fills late got zero s c h = (s, refl, refl, c)
fill-Fills late got (suc w) [] c h = absurd (omega arith)
fill-Fills late got (suc w) (bytes [] ∷ s) c h = elim c [ ]
fill-Fills late got (suc w) (bytes (b ∷ bs) ∷ s) c h =
    elim (Bool-cases (leb (length (b ∷ bs)) (suc w))) [
      | inl whole ↦
          let fits = leb→le _ _ whole in
          let (rest, e, f, d) =
            fill-Fills late (got + length (b ∷ bs)) (suc w - length (b ∷ bs)) s c
              (omega (arith, length-append (b ∷ bs) (carried s))) in
          (
            rest,
            rw (whole, e)
                (sym (
                  ap (λ (t : Bytes). full t rest)
                    (take-append_past (suc w) (b ∷ bs) (carried s) fits))),
            f ∙ sym (drop-append_past (suc w) (b ∷ bs) (carried s) fits),
            d,
          )
      | inr cut ↦
          let within = leb→lt_flip _ _ cut in
          (
            bytes (drop (suc w) (b ∷ bs)) ∷ s,
            rw cut (
                sym (
                  ap (λ (t : Bytes). full t (bytes (drop w bs) ∷ s))
                    (take-append_within (suc w) (b ∷ bs) (carried s) (omega arith)))),
            sym (drop-append_within (suc w) (b ∷ bs) (carried s) (omega arith)),
            cut-IsCalm (suc w) (b ∷ bs) s (omega arith) cut c,
          )
    ]
fill-Fills late got (suc w) (would_block true ∷ s) c h = elim c [ ]
fill-Fills late got (suc w) (would_block false ∷ s) c h = fill-Fills late got (suc w) s c h
fill-Fills late got (suc w) (interrupted ∷ s) c h = elim c [ ]
fill-Fills late got (suc w) (fault ∷ s) c h = elim c [ ]

abbrev prefix_of : Bytes → Bytes
prefix_of json = to_le_bytes 4 (length json % 2 ^ 32)

send-some :
    {T : Type 0} (to_json : T → Option Bytes) (msg : T) (json : Bytes)
    → to_json msg ≡ some json
    → send to_json msg ≡ (
        if ltb max_frame (length json)
        then err WireError.malformed
        else ok (prefix_of json ++ json))
unfolding send
send-some to_json msg json j = rw (send, j) refl

sent-frame :
    {T : Type 0} (to_json : T → Option Bytes) (msg : T) {json frame : Bytes}
    → to_json msg ≡ some json
    → send to_json msg ≡ ok frame
    → (ltb max_frame (length json) ≡ false) × (frame ≡ prefix_of json ++ json)
sent-frame to_json msg {json} {frame} j e = elim (Bool-cases (ltb max_frame (length json))) [
  | inl big ↦ absurd (refused big)
  | inr small ↦ (small, written small)
]
  where
    refused : ltb max_frame (length json) ≡ true → ⊥
    refused big = cc (send-some to_json msg json j, big, e)

    written : ltb max_frame (length json) ≡ false → frame ≡ prefix_of json ++ json
    written small = cc (send-some to_json msg json j, small, e)

prefix-value :
    (json : Bytes)
    → ltb max_frame (length json) ≡ false
    → from_le_bytes (prefix_of json) ≡ length json
prefix-value json small =
    from_le_bytes-to_le_bytes 4 (length json % 2 ^ 32) (omega arith) ∙ omega (arith, within)
  where
    within : length json ≤ 64 * 2 ^ 20
    within = ground arith

-- A loop that fills as many bytes as a part of the stream has ends with that part.
fill-part :
    (late : ℕ → Stream → Option Filled) (n : ℕ) (part tail : Bytes) (s : Stream)
    → IsCalm s
    → n ≡ length part
    → carried s ≡ part ++ tail
    → (rest : Stream) × (fill late 0 n s ≡ full part rest) × (carried rest ≡ tail) × IsCalm rest
fill-part late n part tail s c l d =
    let (rest, e, f, k) =
      fill-Fills late 0 n s c (rw (d, l) (omega (arith, length-append part tail))) in
    (
      rest,
      e ∙ ap (λ (t : Bytes). full t rest) (rw (d, l) (take-append part tail)),
      f ∙ rw (d, l) (drop-append part tail),
      k,
    )

module _ {T : Type 0} (to_json : T → Option Bytes) (from_json : Bytes → Option T) where
  -- A frame that `send` wrote is what `receive_polled` reads next, and the bytes behind it stay, on
  -- every stream that delivers them without a fault, an interrupted read, an end or a wait beyond the allowed time before
  -- they are through, in whatever pieces they arrive, where the JSON of the message parses back.
  pub receive_polled-send :
      (msg : T) {json frame tail : Bytes} (s : Stream)
      → to_json msg ≡ some json
      → from_json json ≡ some msg
      → send to_json msg ≡ ok frame
      → IsCalm s
      → carried s ≡ frame ++ tail
      → (rest : Stream) × (receive_polled from_json s ≡ ok (some msg, rest))
        × (carried rest ≡ tail)
        × IsCalm rest
  unfolding receive_polled read_frame_body
  receive_polled-send msg {json} {frame} {tail} s j p e c d =
      let (small, w) = sent-frame to_json msg j e in
      let (body, f1, g1, c1) =
        fill-part idle_prefix 4 (prefix_of json) (json ++ tail) s c
          (sym (length-to_le_bytes 4 (length json % 2 ^ 32)))
          (d ∙ rw w (append_assoc (prefix_of json) json tail)) in
      let (rest, f2, g2, c2) = fill-part stalled_body (length json) json tail body c1 refl g1 in
      (
        rest,
        rw (receive_polled, f1, prefix-value json small, read_frame_body, small, f2, p) refl,
        g2,
        c2,
      )
