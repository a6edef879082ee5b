-- ===== src/Encode/Write.antt =====
-- What EncodeVarint and EncodeRawBytes leave in the buffer, on every buffer.
use gotools.Common.{
  ℕ, zero, suc, ◌+◌, ◌/◌, ◌%◌, ◌^◌, ◌≤◌, ◌<◌, ◌≡◌, sym, ◌∙◌, arith, List, [], ◌∷◌, ◌++◌, ltb, leb,
  length, drop, length-append, set-append, append_assoc, drop-append, copy_at, take, take-append,
  take_of_length-le, length-drop, drop-drop, Bool-cases, inl, inr, bit_and, bit_or, Outcome, ok,
  panic, ◌>>=◌, if◌then◌else◌, set,
}
use gotools.Common.Bits.{mask_seven, top_or}
use gotools.Common.Varint.{IsU64, varint, varint64, length-varint}
use gotools.Encode.{Fault, short_buffer, encode_loop, encode_varint, encode_raw_bytes}
use mathlib.Core.WellFounded.{Acc}

top_group : (x : ℕ) → bit_or 0x80 (bit_and x 0x7f % 256) ≡ x % 128 + 128
top_group x =
    let e : bit_and x 0x7f % 256 ≡ x % 128 = omega (arith, mask_seven x) in
    rw e (top_or (x % 128) (omega arith))

-- The buffer once `w` is written over the front of `rest`, or the panic where it does not fit.
abbrev written : List ℕ → List ℕ → List ℕ → Outcome Fault (List ℕ × ℕ)
written pre w rest =
    if ltb (length rest) (length w)
    then panic short_buffer
    else ok (pre ++ (w ++ drop (length w) rest), length pre + length w)

-- One byte written ahead, and the others behind it.
written-cons :
    (pre w rest : List ℕ) (c r : ℕ)
    → written (pre ++ c ∷ []) w rest ≡ written pre (c ∷ w) (r ∷ rest)
written-cons pre w rest c r = rw (append_assoc, length-append) (ground arith)

set_next :
    (pre rest : List ℕ) (r v : ℕ) → set (pre ++ r ∷ rest) (length pre) v ≡ (pre ++ v ∷ []) ++ rest
set_next pre rest r v = set-append pre r v rest ∙ sym (append_assoc pre (v ∷ []) rest)

encode_loop_full :
    (k : ℕ) (pre : List ℕ) (x : ℕ) (w : Acc ◌<◌ x)
    → encode_loop (pre ++ []) (length pre) x w ≡ written pre (varint k x) []
unfolding encode_loop
encode_loop_full k pre x (Acc.intro _ smaller) =
    ground (arith, length-varint k x, length-append pre [])

encode_loop-varint :
    (k : ℕ) (pre rest : List ℕ) (x : ℕ) (w : Acc ◌<◌ x)
    → x < 128 ^ suc k
    → encode_loop (pre ++ rest) (length pre) x w ≡ written pre (varint k x) rest
unfolding encode_loop varint
encode_loop-varint k pre [] x w h = encode_loop_full k pre x w
encode_loop-varint zero pre (r ∷ rest) x (Acc.intro _ smaller) h = ground (
  arith,
  length-append pre (r ∷ rest),
  set_next pre rest r (x % 256),
  append_assoc pre (x ∷ []) rest,
)
encode_loop-varint (suc k) pre (r ∷ rest) x (Acc.intro _ smaller) h =
    let c : ℕ = x % 128 + 128 in
    grind (
      arith,
      length-append pre (r ∷ rest),
      length-append pre (c ∷ []),
      set_next pre rest r c,
      set_next pre rest r (x % 256),
      append_assoc pre (x ∷ []) rest,
      top_group x,
      written-cons pre (varint k (x / 128)) rest c r,
      λ (w : Acc ◌<◌ (x / 128)).
          encode_loop-varint k (pre ++ c ∷ []) rest (x / 128) w (omega arith),
    )

-- On any buffer EncodeVarint of a uint64 either panics, exactly when the number's encoding is
-- longer than the buffer, or writes that encoding over the front of the buffer, keeps the bytes
-- behind it, and returns the encoding's length.
pub encode_varint-varint :
    (b : List ℕ) (x : ℕ)
    → IsU64 x
    → encode_varint b x ≡ (
        if ltb (length b) (length (varint64 x))
        then panic short_buffer
        else ok (varint64 x ++ drop (length (varint64 x)) b, length (varint64 x)))
unfolding encode_varint
encode_varint-varint b x h = rw (encode_loop-varint 9 [] b x _ (omega arith)) (ground arith)

copy_behind :
    (v b s : List ℕ)
    → length v + length s ≤ length b
    → copy_at (v ++ drop (length v) b) (length v) s ≡ v ++ (s ++ drop (length v + length s) b)
copy_behind v b s h =
    let fits : take (length (drop (length v) b)) s ≡ s =
      take_of_length-le _ s (omega (arith, length-drop (length v) b)) in
    rw (take-append, drop-append, fits, drop-drop)

framed :
    (v b s : List ℕ)
    → ◌>>=◌ {A = List ℕ × ℕ} {B = List ℕ × ℕ}
        (if ltb (length b) (length v)
          then panic short_buffer
          else ok (v ++ drop (length v) b, length v))
        (λ p.
          if leb (length b) (p.1 + length s)
          then panic short_buffer
          else ok (copy_at p.0 p.1 s, p.1 + length s))
      ≡ (if ltb (length v + length s) (length b)
          then ok (v ++ (s ++ drop (length v + length s) b), length v + length s)
          else panic short_buffer)
framed v b s = elim (Bool-cases (ltb (length b) (length v))) [
  | inl long ↦ rw long (ground arith)
  | inr fits ↦ rw fits (ground (arith, copy_behind v b s))
]

-- EncodeRawBytes writes the length as a varint and the bytes behind it, keeps the rest of the
-- buffer, and returns how many bytes it wrote; but it panics unless at least one byte of the buffer
-- is left over, so a buffer of exactly the needed length is refused.
pub encode_raw_bytes_lem :
    (b s : List ℕ)
    → IsU64 (length s)
    → encode_raw_bytes b s ≡ (
        if ltb (length (varint64 (length s)) + length s) (length b)
        then ok (
          varint64 (length s) ++ (s ++ drop (length (varint64 (length s)) + length s) b),
          length (varint64 (length s)) + length s,
        )
        else panic short_buffer)
unfolding encode_raw_bytes
encode_raw_bytes_lem b s h =
    rw (encode_varint-varint b (length s) h) (framed (varint64 (length s)) b s)
