-- ===== src/Jobfmt/Encodings/Examples.antt =====
-- A short journal, a short hex text, and two results whose messages are the same.
use provework.Prelude.{ℕ, Bytes, Option, none, some, [], ◌∷◌, refl, arith, text, to_le_bytes}
use provework.Jobfmt.{WorkerResult}
use provework.Jobfmt.Encodings.{put, put_option, signing_message}
use provework.Jobfmt.Encodings.Signing.{
  IsShort, or_empty, Fits, SameSigned, signing_message_injective,
}

abbrev seven : ℕ
seven = 7

abbrev eight : ℕ
eight = 8

abbrev long : Bytes
long = 1 ∷ 2 ∷ []

abbrev short : Bytes
short = 1 ∷ []

abbrev result : Option Bytes → WorkerResult
result output = record {
  worker_id = text "w";
  job_id = text "j";
  status = text "halted";
  instructions = 4;
  result_hash = text "c0";
  chunk_hashes = text "c0" ∷ [];
  output_hex = output;
  trap = none;
  pubkey_hex = none;
  sig_hex = none;
}

result-Fits : (o : Option Bytes) → IsShort (or_empty o) → Fits (result o)
result-Fits o h = record {
  worker_id = omega arith;
  job_id = omega arith;
  status = omega arith;
  instructions = omega arith;
  result_hash = omega arith;
  chunk_hashes = (omega arith, tt);
  output_hex = h;
  trap = omega arith;
}

signing_message_injective_example : SameSigned (result none) (result (some []))
unfolding signing_message put_option put to_le_bytes
signing_message_injective_example =
    signing_message_injective (result none) (result (some [])) (result-Fits none (omega arith))
      (result-Fits (some []) (omega arith)) refl
