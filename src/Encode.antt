-- ===== src/Encode.antt =====
-- stutil/encode.go: fixed 32-bit numbers, varints and length-prefixed bytes in a byte buffer. A
-- `[]byte` is the list of its bytes; a function that writes into its argument returns the new list.
pub mod Fixed
pub mod Write
pub mod Read
pub mod RoundTrip
mod Tests
use gotools.Common.{
  ℕ, zero, suc, ◌+◌, ◌*◌, ◌/◌, ◌%◌, ◌^◌, ◌≤◌, ◌<◌, arith, List, [], ◌∷◌, ltb, leb, ◌==◌, length,
  set, take, drop, copy_at, copy, replicate, bit_and, bit_or, Bool, true, false, if◌then◌else◌,
  get_or, Outcome, ok, panic, ◌>>=◌, dec_lt,
}
use gotools.Common.Order.{lt_wf}
use gotools.Common.Varint.{or_group}
use mathlib.Core.Logic.{dite}
use mathlib.Core.WellFounded.{Acc}

-- The panics of the file. `out_of_range` is the runtime's, for a bad index, slice or length.
pub data Fault : Type 0 where
  short_buffer unexpected_eof bad_length out_of_range : Fault

-- `_ = b[3]` is the bounds check.
pub encode_fixed32 : List ℕ → ℕ → Outcome Fault (List ℕ)
encode_fixed32 b x =
    if ltb 3 (length b)
    then ok (
        set (set (set (set b 0 (x % 256)) 1 (x / 2 ^ 8 % 256)) 2 (x / 2 ^ 16 % 256)) 3
          (x / 2 ^ 24 % 256))
    else panic out_of_range

pub decode_fixed32 : List ℕ → Outcome Fault ℕ
decode_fixed32 b =
    if ltb 3 (length b)
    then ok (
        bit_or
          (bit_or (bit_or (get_or b 0 0) (get_or b 1 0 * 2 ^ 8 % 2 ^ 32))
            (get_or b 2 0 * 2 ^ 16 % 2 ^ 32))
          (get_or b 3 0 * 2 ^ 24 % 2 ^ 32))
    else panic out_of_range

shift_shrinks : (x : ℕ) → 127 < x → x / 128 < x
shift_shrinks x h = omega arith

-- `for n = 0; x > 127; n++`, and the byte behind the loop.
pub encode_loop : List ℕ → ℕ → (x : ℕ) → Acc ◌<◌ x → Outcome Fault (List ℕ × ℕ)
encode_loop b n x (Acc.intro _ smaller) =
    dite (dec_lt 127 x)
      (λ more.
        let next =
          encode_loop (set b n (bit_or 0x80 (bit_and x 0x7f % 256))) (n + 1) (x / 128)
            (smaller _ (shift_shrinks x more)) in
        if leb (length b) n then panic short_buffer else next)
      (λ _. if leb (length b) n then panic short_buffer else ok (set b n (x % 256), n + 1))

pub encode_varint : List ℕ → ℕ → Outcome Fault (List ℕ × ℕ)
unfolding encode_loop lt_wf dec_lt
encode_varint b x = encode_loop b 0 x (lt_wf.apply x)

-- The list is what of `b` stands behind the first `n` bytes.
pub decode_loop : List ℕ → ℕ → ℕ → ℕ → Outcome Fault (ℕ × ℕ)
decode_loop [] shift x n = panic unexpected_eof
decode_loop (b ∷ rest) shift x n =
    let x' = or_group x b shift in
    let more = decode_loop rest (shift + 7) x' (n + 1) in
    if ltb shift 64
    then if bit_and b 0x80 == 0 then ok (x', n + 1) else more
    else panic unexpected_eof

pub decode_varint : List ℕ → Outcome Fault (ℕ × ℕ)
unfolding decode_loop
decode_varint b = decode_loop b 0 0 0

pub encode_raw_bytes : List ℕ → List ℕ → Outcome Fault (List ℕ × ℕ)
unfolding encode_varint
encode_raw_bytes b s = do
  let l = length s
  (b', n) ← encode_varint b l
  if leb (length b) (n + l) then panic short_buffer else ok (copy_at b' n s, n + l)

-- The part of DecodeRawBytes behind the length `x`, which took `n` bytes. `int(x)` is negative from
-- 2 ^ 63 on. A sum that wraps is negative: it passes the test, and the slice or the `make` behind
-- it panics. A copy (`alloc`) has the same bytes as the slice.
pub slice_raw : List ℕ → ℕ → ℕ → Bool → Outcome Fault (List ℕ × ℕ)
slice_raw b x n alloc =
    if leb (2 ^ 63) x
    then panic bad_length
    else if leb (2 ^ 63) (x + n)
    then panic out_of_range
    else if ltb (length b) (x + n)
    then panic unexpected_eof
    else if alloc
    then ok (copy (replicate x 0) (take x (drop n b)), x + n)
    else ok (take x (drop n b), x + n)

pub decode_raw_bytes : List ℕ → Bool → Outcome Fault (List ℕ × ℕ)
unfolding decode_varint slice_raw
decode_raw_bytes b alloc = do (x, n) ← decode_varint b; slice_raw b x n alloc
