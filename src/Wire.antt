-- ===== src/Wire.antt =====
-- crates/wire/src/lib.rs: frames over a byte stream, and the admission proof of work. A message type
-- and its JSON are parameters (`serde_json`), and so is the BLAKE3 hash. A stream is the list of what
-- its reads will find, in order: the bytes that have arrived together, or an error; past the end the
-- peer has closed.
pub mod Frames
pub mod Blocking
pub mod Pow
pub mod Mining
mod Examples
use provework.Prelude.{
  ℕ, zero, suc, ◌+◌, ◌-◌, ◌*◌, ◌%◌, ◌^◌, min, Bytes, Option, none, some, List, [], ◌∷◌, ◌++◌, Bool,
  true, false, if◌then◌else◌, leb, ltb, ◌==◌, length, take, drop, to_le_bytes, from_le_bytes,
  Result, ok, err,
}

abbrev pub max_frame : ℕ
max_frame = 64 * 2 ^ 20

pub data WireError : Type 0 where
  io : WireError
  malformed : WireError
  connection_closed : WireError

-- What a read finds. An error of the kinds `WouldBlock` and `TimedOut` says whether the time that
-- the loop allows has passed by then; one of the kind `Interrupted` is told apart from the others.
pub data Arrival : Type 0 where
  bytes : Bytes → Arrival
  would_block : (late : Bool) → Arrival
  interrupted : Arrival
  fault : Arrival

abbrev pub Stream : Type 0
Stream = List Arrival

-- `send`: the bytes that it writes.
unfoldable pub send : {T : Type 0} → (T → Option Bytes) → T → Result WireError Bytes
send to_json msg = elim (to_json msg) [
  | none ↦ err malformed
  | some json ↦
      if ltb max_frame (length json)
      then err malformed
      else ok (to_le_bytes 4 (length json % 2 ^ 32) ++ json)
]

-- What a loop that fills a buffer ends with: the bytes and the rest of the stream, nothing where it
-- gave up before the first byte, or an error.
pub data Filled : Type 0 where
  full : Bytes → Stream → Filled
  idle : Stream → Filled
  failed : WireError → Filled

abbrev pub prepend : Bytes → Filled → Filled
prepend bs (full cs s) = full (bs ++ cs) s
prepend bs (idle s) = idle s
prepend bs (failed e) = failed e

-- The loops that fill a buffer, from `got` bytes on: `late` is what a read that would block late
-- in the loop ends it with, given the bytes so far and the rest of the stream.
unfoldable pub fill : (ℕ → Stream → Option Filled) → ℕ → ℕ → Stream → Filled
fill late got zero s = full [] s
fill late got (suc want) [] = failed connection_closed
fill late got (suc want) (bytes [] ∷ s) = failed connection_closed
fill late got (suc want) (bytes (b ∷ bs) ∷ s) =
    let whole =
      prepend (b ∷ bs) (fill late (got + length (b ∷ bs)) (suc want - length (b ∷ bs)) s) in
    if leb (length (b ∷ bs)) (suc want)
    then whole
    else full (take (suc want) (b ∷ bs)) (bytes (drop (suc want) (b ∷ bs)) ∷ s)
fill late got (suc want) (would_block false ∷ s) = fill late got (suc want) s
fill late got (suc want) (would_block true ∷ s) =
    let rest = fill late got (suc want) s in elim (late got s) [ none ↦ rest | some r ↦ r ]
fill late got (suc want) (interrupted ∷ s) = failed io
fill late got (suc want) (fault ∷ s) = failed io

-- The prefix loop of `receive_polled` gives up before the first byte only.
unfoldable pub idle_prefix : ℕ → Stream → Option Filled
idle_prefix got s = if got == 0 then some (idle s) else none

-- The body loop stalls wherever it stands.
unfoldable pub stalled_body : ℕ → Stream → Option Filled
stalled_body got s = some (failed io)

module _ {T : Type 0} (from_json : Bytes → Option T) where
  unfoldable pub read_frame_body : ℕ → Stream → Result WireError (T × Stream)
  read_frame_body len s =
      if ltb max_frame len then err malformed else elim (fill stalled_body 0 len s) [
        | full json rest ↦ elim (from_json json) [
          | none ↦ err malformed
          | some msg ↦ ok (msg, rest)
        ]
        | idle _ ↦ err io
        | failed e ↦ err e
      ]

  -- `receive_polled`: no message where the stream stays idle.
  unfoldable pub receive_polled : Stream → Result WireError (Option T × Stream)
  unfolding read_frame_body
  receive_polled s = elim (fill idle_prefix 0 4 s) [
    | full prefix rest ↦ elim (read_frame_body (from_le_bytes prefix) rest) [
      | err e ↦ err e
      | ok (msg, left) ↦ ok (some msg, left)
    ]
    | idle rest ↦ ok (none, rest)
    | failed e ↦ err e
  ]

-- `Read::read_exact`: it reads on after an interrupted read, every other error ends it, and the end of the
-- stream is told apart.
unfoldable pub read_exact : ℕ → Stream → Filled
read_exact zero s = full [] s
read_exact (suc want) [] = failed connection_closed
read_exact (suc want) (bytes [] ∷ s) = failed connection_closed
read_exact (suc want) (bytes (b ∷ bs) ∷ s) =
    let rest = read_exact (suc want - length (b ∷ bs)) s in
    if leb (length (b ∷ bs)) (suc want)
    then prepend (b ∷ bs) rest
    else full (take (suc want) (b ∷ bs)) (bytes (drop (suc want) (b ∷ bs)) ∷ s)
read_exact (suc want) (would_block late ∷ s) = failed io
read_exact (suc want) (interrupted ∷ s) = read_exact (suc want) s
read_exact (suc want) (fault ∷ s) = failed io

module _ {T : Type 0} (from_json : Bytes → Option T) where
  unfoldable pub parse_body : Bytes → Stream → Result WireError (T × Stream)
  parse_body json rest = elim (from_json json) [ none ↦ err malformed | some msg ↦ ok (msg, rest) ]

  -- The body of a frame; its end before the length announced is an error of the stream.
  unfoldable pub receive_body : ℕ → Stream → Result WireError (T × Stream)
  unfolding parse_body
  receive_body len s = if ltb max_frame len then err malformed else elim (read_exact len s) [
    | full json rest ↦ parse_body json rest
    | idle _ ↦ err io
    | failed e ↦ err io
  ]

  -- `receive`, which blocks.
  unfoldable pub receive : Stream → Result WireError (T × Stream)
  unfolding receive_body
  receive s = elim (read_exact 4 s) [
    | full prefix rest ↦ receive_body (from_le_bytes prefix) rest
    | idle _ ↦ err io
    | failed e ↦ err e
  ]

-- `u8::leading_zeros`
unfoldable pub leading_zeros : ℕ → ℕ
leading_zeros b =
    if leb 128 b
    then 0
    else if leb 64 b
    then 1
    else if leb 32 b
    then 2
    else if leb 16 b
    then 3
    else if leb 8 b
    then 4
    else if leb 4 b
    then 5
    else if leb 2 b
    then 6
    else if leb 1 b
    then 7
    else 8

unfoldable pub leading_zero_bits : Bytes → ℕ
unfolding leading_zeros
leading_zero_bits [] = 0
leading_zero_bits (b ∷ bs) =
    let rest = leading_zero_bits bs in if b == 0 then 8 + rest else leading_zeros b

module _ (blake3 : Bytes → Bytes) (nonce : Bytes) where
  unfoldable pub verify_pow : (counter bits : ℕ) → Bool
  unfolding leading_zero_bits
  verify_pow counter bits =
      leb (min bits 256) (leading_zero_bits (blake3 (nonce ++ to_le_bytes 8 counter)))

  -- The loop of `mine_pow` from a counter on; none where the fuel ends first.
  unfoldable pub mine_from : ℕ → (counter bits : ℕ) → Option ℕ
  unfolding verify_pow
  mine_from zero counter bits = none
  mine_from (suc fuel) counter bits =
      let rest = mine_from fuel ((counter + 1) % 2 ^ 64) bits in
      if verify_pow counter bits then some counter else rest

  unfoldable pub mine_pow : ℕ → (bits : ℕ) → Option ℕ
  unfolding mine_from
  mine_pow fuel bits = mine_from fuel 0 bits
