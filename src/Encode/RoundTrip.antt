-- ===== src/Encode/RoundTrip.antt =====
-- The encoders of stutil/encode.go against the decoders.
use gotools.Common.{
  ℕ, ◌+◌, ◌^◌, ◌<◌, ◌≡◌, refl, arith, List, Bool, true, false, length, drop, ok, panic,
  if◌then◌else◌,
}
use gotools.Common.Varint.{IsU64, varint64}
use gotools.Encode.{Fault, encode_varint, decode_varint, encode_raw_bytes, decode_raw_bytes}
use gotools.Encode.Write.{encode_varint-varint, encode_raw_bytes_lem}
use gotools.Encode.Read.{decode_varint-varint, decode_raw_bytes-encoded}

-- A guarded result that is `ok` passed its guard.
ok_of_else :
    {A : Type 0} (t : Bool) (e : Fault) (a r : A)
    → (if t then panic e else ok a) ≡ ok r
    → (t ≡ false) × (a ≡ r)
ok_of_else true e a r h = cc
ok_of_else false e a r h = (refl, cc)

ok_of_then :
    {A : Type 0} (t : Bool) (e : Fault) (a r : A)
    → (if t then ok a else panic e) ≡ ok r
    → (t ≡ true) × (a ≡ r)
ok_of_then false e a r h = cc
ok_of_then true e a r h = (refl, cc)

-- Whenever EncodeVarint returns on a uint64, DecodeVarint of the whole buffer returns that number
-- and the same count of bytes.
pub decode-encode_varint :
    (b b' : List ℕ) (x n : ℕ)
    → IsU64 x
    → encode_varint b x ≡ ok (b', n)
    → decode_varint b' ≡ ok (x, n)
decode-encode_varint b b' x n h e =
    let found = ok_of_else _ _ _ (b', n) (rw (encode_varint-varint b x h) at e) in
    ground (arith, found.1, decode_varint-varint x (drop (length (varint64 x)) b) h)

-- Whenever EncodeRawBytes returns, DecodeRawBytes of the whole buffer returns the same bytes and
-- the same count, in both of its modes.
pub decode-encode_raw_bytes :
    (b b' s : List ℕ) (n : ℕ) (alloc : Bool)
    → length s + 10 < 2 ^ 63
    → encode_raw_bytes b s ≡ ok (b', n)
    → decode_raw_bytes b' alloc ≡ ok (s, n)
decode-encode_raw_bytes b b' s n alloc h e =
    let found = ok_of_then _ _ _ (b', n) (rw (encode_raw_bytes_lem b s (omega arith)) at e) in
    let v = varint64 (length s) in
    ground (arith, found.1, decode_raw_bytes-encoded s (drop (length v + length s) b) alloc h)
