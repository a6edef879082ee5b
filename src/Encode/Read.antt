-- ===== src/Encode/Read.antt =====
-- DecodeVarint and DecodeRawBytes on any input.
use gotools.Common.{
  drop_of_length-le, ℕ, zero, suc, ◌+◌, ◌*◌, ◌/◌, ◌%◌, ◌^◌, ◌≤◌, ◌<◌, ◌≡◌, arith, List, [], ◌∷◌,
  ◌++◌, Bool, length, drop, take, ok, length-append, drop-append, take-append, copy,
  take_of_length-le, replicate, length-replicate, append-nil,
}
use gotools.Common.Bits.{top_bit}
use gotools.Common.Varint.{
  IsU64, varint, varint64, length-varint, or_group, or_group_lem, split_group, group-lt,
}
use gotools.Encode.{decode_loop, decode_varint, decode_raw_bytes, slice_raw}

-- One round on the last byte of a number, and on a byte with the top bit set over the group `g`.
last_byte :
    (w x shift n : ℕ) (rest : List ℕ)
    → w < 128
    → shift < 64
    → x < 2 ^ shift
    → IsU64 (x + w * 2 ^ shift)
    → decode_loop (w ∷ rest) shift x n ≡ ok (x + w * 2 ^ shift, n + 1)
unfolding decode_loop
last_byte w x shift n rest hw hs hx fits =
    let m : w % 128 ≡ w = omega arith in ground (arith, top_bit w, or_group_lem x w shift)

inner_byte :
    (g x shift n : ℕ) (rest : List ℕ)
    → g < 128
    → shift < 64
    → x < 2 ^ shift
    → IsU64 (x + g * 2 ^ shift)
    → decode_loop ((g + 128) ∷ rest) shift x n
      ≡ decode_loop rest (shift + 7) (x + g * 2 ^ shift) (n + 1)
unfolding decode_loop
inner_byte g x shift n rest hg hs hx fits =
    let m : (g + 128) % 128 ≡ g = omega arith in
    ground (arith, top_bit (g + 128), or_group_lem x (g + 128) shift)

-- `w` is what is still to be read, and it counts from bit `shift` on.
decode_loop-varint :
    (k w x shift n : ℕ) (rest : List ℕ)
    → w < 128 ^ suc k
    → shift + 7 * k < 64
    → x < 2 ^ shift
    → IsU64 (x + w * 2 ^ shift)
    → decode_loop (varint k w ++ rest) shift x n ≡ ok (x + w * 2 ^ shift, n + length (varint k w))
unfolding varint
decode_loop-varint zero w x shift n rest hw hs hx fits =
    last_byte w x shift n rest hw (omega arith) hx fits
decode_loop-varint (suc k) w x shift n rest hw hs hx fits = ground (
  arith,
  last_byte w x shift n rest,
  split_group w shift,
  inner_byte (w % 128) x shift n (varint k (w / 128) ++ rest),
  group-lt x (w % 128) shift,
  decode_loop-varint k (w / 128) (x + w % 128 * 2 ^ shift) (shift + 7) (n + 1) rest (omega arith),
)

-- DecodeVarint reads back the encoding of any uint64, whatever follows it, and reports its length.
pub decode_varint-varint :
    (x : ℕ) (rest : List ℕ)
    → IsU64 x
    → decode_varint (varint64 x ++ rest) ≡ ok (x, length (varint64 x))
unfolding decode_varint
decode_varint-varint x rest h = ground (arith, decode_loop-varint 9 x 0 0 0 rest)

-- After `j` bytes the shift is 7 * j; the loop reads at most ten.
decode_loop_takes :
    (b : List ℕ) (j x n : ℕ) {y m : ℕ}
    → j ≤ 10
    → decode_loop b (7 * j) x n ≡ ok (y, m)
    → (n < m) × (m + j ≤ n + 10) × (m ≤ n + length b)
unfolding decode_loop
decode_loop_takes [] j x n hj e = cc
decode_loop_takes (c ∷ rest) j x n {y} {m} hj e =
    let s : 7 * j + 7 ≡ 7 * (j + 1) = omega arith in
    ground (arith, decode_loop_takes rest (j + 1) (or_group x c (7 * j)) (n + 1) {y = y} {m = m})

-- Whatever the bytes are, a DecodeVarint that returns has read between one and ten bytes of the
-- buffer and no more than it has.
pub decode_varint_takes :
    (b : List ℕ) (x n : ℕ) → decode_varint b ≡ ok (x, n) → (0 < n) × (n ≤ 10) × (n ≤ length b)
unfolding decode_varint
decode_varint_takes b x n e =
    omega (arith, decode_loop_takes b 0 0 0 {y = x} {m = n} (omega arith) e)

copied : (s : List ℕ) → copy (replicate (length s) 0) s ≡ s
copied s =
    let zeros : List ℕ = replicate (length s) 0 in
    let n : length zeros ≡ length s = length-replicate (length s) 0 in
    let front : take (length zeros) s ≡ s = take_of_length-le _ s (omega arith) in
    let back : drop (length s) zeros ≡ [] = drop_of_length-le (length s) zeros (omega arith) in
    rw (front, back) (append-nil s)

sliced :
    (v s rest : List ℕ) (alloc : Bool)
    → length s + length v < 2 ^ 63
    → slice_raw (v ++ (s ++ rest)) (length s) (length v) alloc ≡ ok (s, length s + length v)
unfolding slice_raw
sliced v s rest alloc h =
    let whole : take (length s) (drop (length v) (v ++ (s ++ rest))) ≡ s =
      rw drop-append (take-append s rest) in
    rw whole (ground (arith, length-append v (s ++ rest), length-append s rest, copied s))

-- DecodeRawBytes gives back what EncodeRawBytes wrote, whatever follows it and whether or not it
-- copies, and reports how many bytes it took.
pub decode_raw_bytes-encoded :
    (s rest : List ℕ) (alloc : Bool)
    → length s + 10 < 2 ^ 63
    → decode_raw_bytes (varint64 (length s) ++ (s ++ rest)) alloc
      ≡ ok (s, length s + length (varint64 (length s)))
unfolding decode_raw_bytes
decode_raw_bytes-encoded s rest alloc h =
    rw (decode_varint-varint (length s) (s ++ rest) (omega arith))
      (sliced (varint64 (length s)) s rest alloc (omega (arith, length-varint 9 (length s))))
