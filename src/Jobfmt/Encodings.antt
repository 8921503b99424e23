-- ===== src/Jobfmt/Encodings.antt =====
-- crates/jobfmt/src/lib.rs: the journal, the messages that are signed, and the hex decoder.
pub mod Decoding
pub mod Signing
mod Examples
use provework.Prelude.{
  ℕ, zero, suc, ◌+◌, ◌-◌, ◌*◌, ◌%◌, ◌^◌, Bytes, Option, none, some, List, [], ◌∷◌, ◌++◌,
  if◌then◌else◌, leb, ◌==◌, ◌&&◌, length, drop, to_le_bytes, Result, ok, err,
}
use provework.Jobfmt.{WorkerResult}

unfoldable pub journal : ℕ → Bytes → Bytes
journal instructions output = to_le_bytes 8 instructions ++ output

-- `journal.get(8..).unwrap_or(&[])`
unfoldable pub journal_output : Bytes → Bytes
journal_output bytes = drop 8 bytes

-- A length, cut to a `u32`, and the bytes.
unfoldable pub put : Bytes → Bytes
put bytes = to_le_bytes 4 (length bytes % 2 ^ 32) ++ bytes

unfoldable pub put_all : List Bytes → Bytes
unfolding put
put_all [] = []
put_all (h ∷ hs) = put h ++ put_all hs

unfoldable pub put_option : Option Bytes → Bytes
unfolding put
put_option none = to_le_bytes 4 0
put_option (some bytes) = put bytes

unfoldable pub signing_message : WorkerResult → Bytes
unfolding put put_all put_option
signing_message r =
    put r.worker_id
    ++ (put r.job_id
        ++ (put r.status
            ++ (to_le_bytes 8 r.instructions
                ++ (put r.result_hash
                    ++ (put_all r.chunk_hashes
                        ++ (put_option r.output_hex ++ put_option r.trap))))))

unfoldable pub receipt_claim_message : Bytes → Bytes → Bytes
unfolding put
receipt_claim_message job_id receipt_hash = put job_id ++ receipt_hash

unfoldable pub submission_message : Bytes → Bytes → Bytes
unfolding put
submission_message job_id descriptor_id = put job_id ++ descriptor_id

pub data HexError : Type 0 where
  bad_length : (got want : ℕ) → HexError
  invalid_byte : ℕ → HexError

unfoldable pub digit : ℕ → Result HexError ℕ
digit c =
    if leb 48 c && leb c 57
    then ok (c - 48)
    else if leb 97 c && leb c 102
    then ok (c - 87)
    else if leb 65 c && leb c 70
    then ok (c - 55)
    else err (invalid_byte c)

unfoldable pub decode_digits : Bytes → Result HexError Bytes
unfolding digit
decode_digits [] = ok []
decode_digits (c ∷ []) = ok []
decode_digits (c ∷ d ∷ cs) =
    let rest = decode_digits cs in
    elim (digit c) [
      | err e ↦ err e
      | ok high ↦ elim (digit d) [
        | err e ↦ err e
        | ok low ↦ elim rest [ err e ↦ err e | ok bs ↦ ok ((high * 16 + low) ∷ bs) ]
      ]
    ]

unfoldable pub from_hex : Bytes → ℕ → Result HexError Bytes
unfolding decode_digits
from_hex s expect =
    if length s == expect * 2 then decode_digits s else err (bad_length (length s) (expect * 2))
