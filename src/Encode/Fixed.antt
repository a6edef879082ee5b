-- ===== src/Encode/Fixed.antt =====
-- EncodeFixed32 against DecodeFixed32, of stutil/encode.go.
use gotools.Common.{
  ℕ, ◌+◌, ◌*◌, ◌/◌, ◌%◌, ◌^◌, ◌≤◌, ◌<◌, ◌≡◌, refl, arith, List, [], ◌∷◌, ◌++◌, length, drop, ok,
  bit_or,
}
use gotools.Common.Bits.{bit_or-add}
use gotools.Encode.{encode_fixed32, decode_fixed32}

-- Four bytes, lowest first, joined by `|` of shifts.
join-bytes :
    (a b c d : ℕ)
    → a < 256
    → b < 256
    → c < 256
    → d < 256
    → bit_or (bit_or (bit_or a (b * 2 ^ 8 % 2 ^ 32)) (c * 2 ^ 16 % 2 ^ 32)) (d * 2 ^ 24 % 2 ^ 32)
      ≡ a + b * 2 ^ 8 + c * 2 ^ 16 + d * 2 ^ 24
join-bytes a b c d ha hb hc hd =
    let eb : b * 2 ^ 8 % 2 ^ 32 ≡ b * 2 ^ 8 = omega arith in
    let ec : c * 2 ^ 16 % 2 ^ 32 ≡ c * 2 ^ 16 = omega arith in
    let ed : d * 2 ^ 24 % 2 ^ 32 ≡ d * 2 ^ 24 = omega arith in
    rw (
      eb,
      ec,
      ed,
      bit_or-add 8 a b (omega arith),
      bit_or-add 16 (a + b * 2 ^ 8) c (omega arith),
      bit_or-add 24 (a + b * 2 ^ 8 + c * 2 ^ 16) d (omega arith),
    )

abbrev pub fixed32 : ℕ → List ℕ
fixed32 x = (x % 256) ∷ (x / 2 ^ 8 % 256) ∷ (x / 2 ^ 16 % 256) ∷ (x / 2 ^ 24 % 256) ∷ []

encode-eq-fixed32 :
    (b : List ℕ) (x : ℕ) → 4 ≤ length b → encode_fixed32 b x ≡ ok (fixed32 x ++ drop 4 b)
unfolding encode_fixed32
encode-eq-fixed32 (p ∷ q ∷ r ∷ s ∷ rest) x h = ground arith
encode-eq-fixed32 _ x h = absurd (omega arith)

decode-fixed32 : (x : ℕ) (rest : List ℕ) → x < 2 ^ 32 → decode_fixed32 (fixed32 x ++ rest) ≡ ok x
unfolding decode_fixed32
decode-fixed32 x rest h =
    ground (arith, join-bytes (x % 256) (x / 2 ^ 8 % 256) (x / 2 ^ 16 % 256) (x / 2 ^ 24 % 256))

-- On a buffer of at least four bytes, encoding a 32-bit number succeeds, keeps everything behind
-- the first four bytes, and decoding the result gives the number back.
pub decode-encode_fixed32 :
    (b : List ℕ) (x : ℕ)
    → x < 2 ^ 32
    → 4 ≤ length b
    → (b' : List ℕ) × (encode_fixed32 b x ≡ ok b')
      × (decode_fixed32 b' ≡ ok x)
      × (drop 4 b' ≡ drop 4 b)
decode-encode_fixed32 b x h hb =
    (fixed32 x ++ drop 4 b, encode-eq-fixed32 b x hb, decode-fixed32 x (drop 4 b) h, refl)
