-- ===== src/Frame/Bytes.antt =====
-- The length in front of a message, as stnet/encode.go and stnet/rpc.go write it and MsgLen reads it.
use gotools.Common.{
  ℕ, ◌+◌, ◌*◌, ◌/◌, ◌%◌, ◌^◌, ◌<◌, ◌≡◌, refl, ◌∙◌, arith, bit_or, List, ◌∷◌, ◌++◌, length, none,
  some, ltb, if◌then◌else◌,
}
use gotools.Common.Bits.{bit_or-add}
use gotools.Frame.{msg_len, encode_protocol, rpc_encode_protocol}

-- The frame of a body, with its length in four bytes, the highest first.
abbrev pub frame : List ℕ → List ℕ
frame bytes =
    let n : ℕ = length bytes + 4 in
    (n / 2 ^ 24 % 256) ∷ (n / 2 ^ 16 % 256) ∷ (n / 2 ^ 8 % 256) ∷ (n % 256) ∷ bytes

join_bytes :
    (n : ℕ)
    → n < 2 ^ 32
    → n % 256 + n / 2 ^ 8 % 256 * 2 ^ 8 + n / 2 ^ 16 % 256 * 2 ^ 16 + n / 2 ^ 24 % 256 * 2 ^ 24 ≡ n
join_bytes n h = omega arith

pub or_bytes :
    (b0 b1 b2 b3 : ℕ)
    → b1 < 256
    → b2 < 256
    → b3 < 256
    → bit_or (bit_or (bit_or b3 (b2 * 2 ^ 8)) (b1 * 2 ^ 16)) (b0 * 2 ^ 24)
      ≡ b3 + b2 * 2 ^ 8 + b1 * 2 ^ 16 + b0 * 2 ^ 24
or_bytes b0 b1 b2 b3 h1 h2 h3 =
    rw
      (
        bit_or-add 8 b3 b2 (omega arith),
        bit_or-add 16 (b3 + b2 * 2 ^ 8) b1 (omega arith),
        bit_or-add 24 (b3 + b2 * 2 ^ 8 + b1 * 2 ^ 16) b0 (omega arith),
      )
      refl

pub msg_len-frame :
    (bytes rest : List ℕ)
    → length bytes + 4 < 2 ^ 32
    → msg_len (frame bytes ++ rest) ≡ length bytes + 4
unfolding msg_len
msg_len-frame bytes rest h =
    let n : ℕ = length bytes + 4 in
    or_bytes (n / 2 ^ 24 % 256) (n / 2 ^ 16 % 256) (n / 2 ^ 8 % 256) (n % 256) (omega arith)
      (omega arith) (omega arith)
    ∙ join_bytes n h

pub encode_protocol-frame :
    (bytes : List ℕ) → length bytes + 4 < 2 ^ 16 → encode_protocol bytes ≡ frame bytes
unfolding encode_protocol
encode_protocol-frame bytes h =
    let e : (length bytes + 4) / 2 ^ 18 % 256 ≡ (length bytes + 4) / 2 ^ 16 % 256 = omega arith in
    rw e refl

-- For a body of less than 2 ^ 32 - 4 bytes encodeProtocol returns the frame whose first byte is free,
-- if the frame is shorter than 2 ^ 24 bytes, and refuses every other body.
pub rpc_encode_protocol-frame :
    (bytes : List ℕ)
    → length bytes + 4 < 2 ^ 32
    → rpc_encode_protocol bytes
      ≡ (if ltb (length bytes + 4) (2 ^ 24) then some (frame bytes) else none)
unfolding rpc_encode_protocol
rpc_encode_protocol-frame bytes h = ground arith

-- MsgLen of what EncodeProtocol writes is the length of the frame for frames below 2 ^ 16 bytes; for
-- those from there up to 2 ^ 18 it is the length's remainder by 2 ^ 16, and so always too small.
pub msg_len-encode_protocol :
    (bytes : List ℕ)
    → length bytes + 4 < 2 ^ 18
    → msg_len (encode_protocol bytes) ≡ (length bytes + 4) % 2 ^ 16
unfolding msg_len encode_protocol
msg_len-encode_protocol bytes h =
    let n : ℕ = length bytes + 4 in
    or_bytes (n / 2 ^ 24 % 256) (n / 2 ^ 18 % 256) (n / 2 ^ 8 % 256) (n % 256) (omega arith)
      (omega arith) (omega arith)
    ∙ omega arith
