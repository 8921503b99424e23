-- ===== src/Wire/Examples.antt =====
-- The wire at concrete inputs. The JSON of a message is its bytes, and the digest ends in the first
-- byte of the counter.
use provework.Prelude.{
  ℕ, zero, suc, All, IsByte, ◌-◌, ◌*◌, ◌^◌, ◌<◌, ◌≤◌, min, Bytes, Option, some, [], ◌∷◌, true,
  false, ◌≡◌, refl, arith, ◌↔◌, replicate, get_or, ok, to_le_bytes, from_le_bytes,
}
use provework.Wire.{
  Stream, bytes, would_block, send, receive_polled, verify_pow, mine_pow, read_exact, receive,
}
use provework.Wire.Blocking.{receive-Agree}
use provework.Wire.Frames.{carried, IsCalm, receive_polled-send}
use provework.Wire.Pow.{be_value, verify_pow_iff}
use provework.Wire.Mining.{mine_pow-finds}

abbrev plain_json : Bytes → Option Bytes
plain_json bs = some bs

abbrev hello : Bytes
hello = 72 ∷ 105 ∷ []

abbrev pieces : Stream
pieces =
    would_block false
    ∷ bytes (2 ∷ 0 ∷ [])
    ∷ would_block false
    ∷ bytes (0 ∷ 0 ∷ 72 ∷ [])
    ∷ bytes (105 ∷ 9 ∷ [])
    ∷ []

receive_polled-send_example :
    (rest : Stream) × (receive_polled plain_json pieces ≡ ok (some hello, rest))
    × (carried rest ≡ 9 ∷ [])
    × IsCalm rest
unfolding send to_le_bytes
receive_polled-send_example =
    receive_polled-send plain_json plain_json hello pieces refl refl refl tt refl

-- Thirty-two bytes, the first of them the first byte of the counter behind a nonce of one byte.
abbrev digest : Bytes → Bytes
digest message = (16 - get_or message 1 0) ∷ replicate 31 255

replicate-IsByte : (n : ℕ) → All IsByte (replicate n 255)
replicate-IsByte zero = tt
replicate-IsByte (suc n) = (omega arith, replicate-IsByte n)

verify_pow_iff_example :
    (verify_pow digest (7 ∷ []) 15 4 ≡ true)
    ↔ (be_value (digest (7 ∷ to_le_bytes 8 15)) * 2 ^ min 4 256 < 2 ^ 256)
unfolding to_le_bytes
verify_pow_iff_example = verify_pow_iff digest (7 ∷ []) 15 4 (omega arith, replicate-IsByte 31) refl

mine_pow-finds_example :
    (c : ℕ) × (mine_pow digest (7 ∷ []) 20 5 ≡ some c)
    × (verify_pow digest (7 ∷ []) c 5 ≡ true)
    × (c ≤ 13)
    × ((j : ℕ) → j < c → verify_pow digest (7 ∷ []) j 5 ≡ false)
unfolding verify_pow to_le_bytes
mine_pow-finds_example = mine_pow-finds digest (7 ∷ []) 13 20 5 refl (omega arith) (omega arith)

-- The first counter is found, and a test that must fail does.
mined : mine_pow digest (7 ∷ []) 20 5 ≡ some 9
unfolding mine_pow to_le_bytes
mined = refl

refused : verify_pow digest (7 ∷ []) 8 5 ≡ false
unfolding verify_pow to_le_bytes
refused = refl

abbrev ready : Stream
ready = bytes (2 ∷ 0 ∷ []) ∷ bytes (0 ∷ 0 ∷ 72 ∷ []) ∷ bytes (105 ∷ 9 ∷ []) ∷ []

receive-Agree_example : receive_polled plain_json ready ≡ ok (some hello, bytes (9 ∷ []) ∷ [])
unfolding receive read_exact from_le_bytes
receive-Agree_example = receive-Agree plain_json ready tt
