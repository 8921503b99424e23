-- ===== src/Wire/Blocking.antt =====
-- crates/wire/src/lib.rs: the blocking `receive` and `receive_polled` agree where no read has to wait or is interrupted.
use provework.Prelude.{
  ℕ, zero, suc, ◌+◌, ◌-◌, Bytes, Option, some, [], ◌∷◌, true, false, ◌≡◌, refl, leb, ltb, length,
  from_le_bytes, Result, ok, err, Bool-cases, Option-cases, inl, inr,
}
use provework.Wire.{
  bytes, would_block, interrupted, fault, Stream, Filled, full, idle, failed, fill, prepend,
  WireError, max_frame, read_frame_body, receive_polled, idle_prefix, stalled_body, read_exact,
  parse_body, receive_body, receive,
}

-- No read would block, and no read is interrupted, after which `receive` reads on and `receive_polled`
-- does not.
abbrev pub IsReady : Stream → Type 0
IsReady [] = Unit
IsReady (bytes bs ∷ s) = IsReady s
IsReady (would_block late ∷ s) = ⊥
IsReady (interrupted ∷ s) = ⊥
IsReady (fault ∷ s) = IsReady s

-- Where no read would block, the polling loops fill a buffer as `read_exact` does.
fill-read_exact :
    (late : ℕ → Stream → Option Filled) (got want : ℕ) (s : Stream)
    → IsReady s
    → fill late got want s ≡ read_exact want s
unfolding fill read_exact
fill-read_exact late got zero s r = refl
fill-read_exact late got (suc w) [] r = refl
fill-read_exact late got (suc w) (bytes [] ∷ s) r = refl
fill-read_exact late got (suc w) (bytes (b ∷ bs) ∷ s) r =
    rw (fill-read_exact late (got + length (b ∷ bs)) (suc w - length (b ∷ bs)) s r) refl
fill-read_exact late got (suc w) (would_block b ∷ s) r = elim r [ ]
fill-read_exact late got (suc w) (interrupted ∷ s) r = elim r [ ]
fill-read_exact late got (suc w) (fault ∷ s) r = refl

-- A read that ends with bytes leaves a stream whose reads do not block, and no read is idle.
abbrev Reads : Filled → Type 0
Reads (full got rest) = IsReady rest
Reads (idle rest) = ⊥
Reads (failed e) = Unit

prepend-Reads : (bs : Bytes) (r : Filled) → Reads r → Reads (prepend bs r)
prepend-Reads bs (full cs rest) h = h
prepend-Reads bs (idle rest) h = h
prepend-Reads bs (failed e) h = h

read_exact-Reads : (want : ℕ) (s : Stream) → IsReady s → Reads (read_exact want s)
unfolding read_exact
read_exact-Reads zero s r = r
read_exact-Reads (suc w) [] r = tt
read_exact-Reads (suc w) (bytes [] ∷ s) r = tt
read_exact-Reads (suc w) (bytes (b ∷ bs) ∷ s) r =
    elim (Bool-cases (leb (length (b ∷ bs)) (suc w))) [
      | inl whole ↦ rw whole (
          prepend-Reads (b ∷ bs) (read_exact (suc w - length (b ∷ bs)) s)
            (read_exact-Reads (suc w - length (b ∷ bs)) s r))
      | inr cut ↦ rw cut r
    ]
read_exact-Reads (suc w) (would_block late ∷ s) r = elim r [ ]
read_exact-Reads (suc w) (interrupted ∷ s) r = elim r [ ]
read_exact-Reads (suc w) (fault ∷ s) r = tt

module _ {T : Type 0} (from_json : Bytes → Option T) where
  -- The same message and the same rest, or an error for an error.
  abbrev pub Agree : Result WireError (T × Stream) → Result WireError (Option T × Stream) → Type 0
  Agree (ok (msg, rest)) polled = polled ≡ ok (some msg, rest)
  Agree (err e) polled = (x : WireError) × (polled ≡ err x)

  -- The polled message of a body.
  abbrev as_polled : Result WireError (T × Stream) → Result WireError (Option T × Stream)
  as_polled (err e) = err e
  as_polled (ok (msg, left)) = ok (some msg, left)

  parse_body-Agree :
      (json : Bytes) (rest : Stream)
      → Agree (parse_body from_json json rest) (as_polled (parse_body from_json json rest))
  unfolding parse_body
  parse_body-Agree json rest = elim (Option-cases (from_json json)) [
    | inl e ↦ rw (parse_body, e) (WireError.malformed, refl)
    | inr (msg, e) ↦ rw (parse_body, e) refl
  ]

  body-full :
      (len : ℕ) (s : Stream) (json : Bytes) (rest : Stream)
      → ltb max_frame len ≡ false
      → IsReady s
      → read_exact len s ≡ full json rest
      → (receive_body from_json len s ≡ parse_body from_json json rest)
        × (read_frame_body from_json len s ≡ parse_body from_json json rest)
  unfolding receive_body read_frame_body parse_body
  body-full len s json rest small r e = (
    rw (receive_body, small, e) refl,
    rw (read_frame_body, small, fill-read_exact stalled_body 0 len s r, e) refl,
  )

  body-failed :
      (len : ℕ) (s : Stream) (x : WireError)
      → ltb max_frame len ≡ false
      → IsReady s
      → read_exact len s ≡ failed x
      → (receive_body from_json len s ≡ err WireError.io)
        × (read_frame_body from_json len s ≡ err x)
  unfolding receive_body read_frame_body
  body-failed len s x small r e = (
    rw (receive_body, small, e) refl,
    rw (read_frame_body, small, fill-read_exact stalled_body 0 len s r, e) refl,
  )

  body-big :
      (len : ℕ) (s : Stream)
      → ltb max_frame len ≡ true
      → (receive_body from_json len s ≡ err WireError.malformed)
        × (read_frame_body from_json len s ≡ err WireError.malformed)
  unfolding receive_body read_frame_body
  body-big len s big = (rw (receive_body, big) refl, rw (read_frame_body, big) refl)

  body-Agree :
      (len : ℕ) (s : Stream)
      → IsReady s
      → Agree (receive_body from_json len s) (as_polled (read_frame_body from_json len s))
  body-Agree len s r = elim (Bool-cases (ltb max_frame len)) [
    | inl big ↦ let (p, q) = body-big len s big in rw (p, q) (WireError.malformed, refl)
    | inr small ↦ read (read_exact len s) (read_exact-Reads len s r) small refl
  ]
    where
      read :
          (f : Filled)
          → Reads f
          → ltb max_frame len ≡ false
          → read_exact len s ≡ f
          → Agree (receive_body from_json len s) (as_polled (read_frame_body from_json len s))
      read (full json rest) h small e =
          let (p, q) = body-full len s json rest small r e in rw (p, q) (parse_body-Agree json rest)
      read (idle rest) h small e = elim h [ ]
      read (failed x) h small e = let (p, q) = body-failed len s x small r e in rw (p, q) (x, refl)

  prefix-full :
      (s : Stream) (prefix : Bytes) (rest : Stream)
      → IsReady s
      → read_exact 4 s ≡ full prefix rest
      → (receive from_json s ≡ receive_body from_json (from_le_bytes prefix) rest)
        × (receive_polled from_json s
            ≡ as_polled (read_frame_body from_json (from_le_bytes prefix) rest))
  unfolding receive receive_polled
  prefix-full s prefix rest r e =
      (rw (receive, e) refl, rw (receive_polled, fill-read_exact idle_prefix 0 4 s r, e) refl)

  prefix-failed :
      (s : Stream) (x : WireError)
      → IsReady s
      → read_exact 4 s ≡ failed x
      → (receive from_json s ≡ err x) × (receive_polled from_json s ≡ err x)
  unfolding receive receive_polled
  prefix-failed s x r e =
      (rw (receive, e) refl, rw (receive_polled, fill-read_exact idle_prefix 0 4 s r, e) refl)

  -- On a stream whose reads neither block nor are interrupted, in whatever pieces it arrives and with
  -- whatever other error, `receive` and `receive_polled` read the same message and leave the same rest, or
  -- both fail.
  pub receive-Agree :
      (s : Stream) → IsReady s → Agree (receive from_json s) (receive_polled from_json s)
  receive-Agree s r = read (read_exact 4 s) (read_exact-Reads 4 s r) refl
    where
      read :
          (f : Filled)
          → Reads f
          → read_exact 4 s ≡ f
          → Agree (receive from_json s) (receive_polled from_json s)
      read (full prefix rest) h e =
          let (p, q) = prefix-full s prefix rest r e in
          rw (p, q) (body-Agree (from_le_bytes prefix) rest h)
      read (idle rest) h e = elim h [ ]
      read (failed x) h e = let (p, q) = prefix-failed s x r e in rw (p, q) (x, refl)
