-- ===== src/Encode/Tests.antt =====
-- Runs of stutil/encode.go on concrete buffers, and the theorems at concrete inputs.
use gotools.Common.{
  ℕ, ◌+◌, ◌≡◌, refl, arith, List, [], ◌∷◌, ◌++◌, true, length, drop, ltb, ok, panic, if◌then◌else◌,
}
use gotools.Common.Varint.{varint64}
use gotools.Encode.{
  short_buffer, unexpected_eof, encode_varint, decode_varint, encode_raw_bytes, decode_raw_bytes,
}
use gotools.Encode.Write.{encode_raw_bytes_lem}
use gotools.Encode.RoundTrip.{decode-encode_varint, decode-encode_raw_bytes}

abbrev zeros : List ℕ
zeros = 0 ∷ 0 ∷ 0 ∷ 7 ∷ []

encode_300 : encode_varint zeros 300 ≡ ok (0xac ∷ 2 ∷ 0 ∷ 7 ∷ [], 2)
unfolding encode_varint
encode_300 = refl

encode_short : encode_varint (0 ∷ []) 300 ≡ panic short_buffer
unfolding encode_varint
encode_short = refl

-- Three bytes are needed and three are there.
raw_exact : encode_raw_bytes (0 ∷ 0 ∷ 0 ∷ []) (8 ∷ 9 ∷ []) ≡ panic short_buffer
unfolding encode_raw_bytes
raw_exact = refl

raw_spare : encode_raw_bytes zeros (8 ∷ 9 ∷ []) ≡ ok (2 ∷ 8 ∷ 9 ∷ 7 ∷ [], 3)
unfolding encode_raw_bytes
raw_spare = refl

decode_cut : decode_varint (0x80 ∷ []) ≡ panic unexpected_eof
unfolding decode_varint
decode_cut = refl

decode_padded : decode_varint (0x80 ∷ 0 ∷ []) ≡ ok (0, 2)
unfolding decode_varint
decode_padded = refl

encode_raw_bytes_lem_example : encode_raw_bytes (0 ∷ 0 ∷ 0 ∷ []) (8 ∷ 9 ∷ []) ≡ (
    if ltb (length (varint64 2) + 2) 3
    then ok (
      varint64 2 ++ (8 ∷ 9 ∷ [] ++ drop (length (varint64 2) + 2) (0 ∷ 0 ∷ 0 ∷ [])),
      length (varint64 2) + 2,
    )
    else panic short_buffer)
encode_raw_bytes_lem_example = encode_raw_bytes_lem (0 ∷ 0 ∷ 0 ∷ []) (8 ∷ 9 ∷ []) (omega arith)

decode-encode_varint_example : decode_varint (0xac ∷ 2 ∷ 0 ∷ 7 ∷ []) ≡ ok (300, 2)
decode-encode_varint_example =
    decode-encode_varint zeros (0xac ∷ 2 ∷ 0 ∷ 7 ∷ []) 300 2 (omega arith) encode_300

decode-encode_raw_bytes_example : decode_raw_bytes (2 ∷ 8 ∷ 9 ∷ 7 ∷ []) true ≡ ok (8 ∷ 9 ∷ [], 3)
decode-encode_raw_bytes_example =
    decode-encode_raw_bytes zeros (2 ∷ 8 ∷ 9 ∷ 7 ∷ []) (8 ∷ 9 ∷ []) 3 true (omega arith) raw_spare
