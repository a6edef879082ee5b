-- ===== src/Spb/Numbers.antt =====
-- Numbers and headers of stnet/spb.go: packNumber and packHeader against the reads.
use gotools.Common.{
  ℕ, zero, suc, ◌+◌, ◌-◌, ◌*◌, ◌/◌, ◌%◌, ◌^◌, ◌<◌, ◌≡◌, refl, sym, ap, ◌∙◌, arith, List, [], ◌∷◌,
  ◌++◌, ltb, length, length-append, drop, drop-drop, length-drop, drop-append, take-append,
  append_assoc, bit_and, bit_or, if◌then◌else◌, Bool-cases, inl, inr, ltb→lt,
}
use gotools.Common.Bits.{mask_seven, or_top, low_four, eq_below}
use gotools.Common.Order.{lt_wf}
use gotools.Common.Varint.{IsU64, varint, varint64, or_group_lem, split_group, group-lt}
use gotools.Spb.Pack.{number_loop, pack_number, pack_header}
use gotools.Spb.Read.{Spb, done, digit_loop, unpack_number, unpack_byte, unpack_header}
use mathlib.Core.WellFounded.{Acc}

top_group : (x : ℕ) → bit_or (bit_and x 0x7f) 0x80 % 256 ≡ x % 128 + 128
top_group x = rw (mask_seven x, or_top (x % 128) (omega arith)) (omega arith)

number_loop-varint :
    (k : ℕ) (buf : List ℕ) (x : ℕ) (w : Acc ◌<◌ x)
    → x < 128 ^ suc k
    → number_loop buf x w ≡ buf ++ varint k x
unfolding number_loop varint
number_loop-varint zero buf x (Acc.intro _ smaller) h = ground arith
number_loop-varint (suc k) buf x (Acc.intro _ smaller) h =
    let c : ℕ = x % 128 + 128 in
    grind (
      arith,
      top_group x,
      append_assoc buf (c ∷ []) (varint k (x / 128)),
      λ (w : Acc ◌<◌ (x / 128)). number_loop-varint k (buf ++ c ∷ []) (x / 128) w (omega arith),
    )

pub pack_number-varint : (x : ℕ) (buf : List ℕ) → IsU64 x → pack_number x buf ≡ buf ++ varint64 x
unfolding pack_number
pack_number-varint x buf h = number_loop-varint 9 buf x (lt_wf.apply x) (omega arith)

-- The state after `n` bytes, and what stands before it.
abbrev pub advance : ℕ → Spb → Spb
advance n s = record s { index = s.index + n }

abbrev pub Ahead : Spb → List ℕ → Type 0
Ahead s l = drop s.index s.buf ≡ l

pub Ahead-advance :
    (s : Spb) (w rest : List ℕ) → Ahead s (w ++ rest) → Ahead (advance (length w) s) rest
Ahead-advance s w rest h =
    sym (drop-drop s.index (length w) s.buf) ∙ ap (drop (length w)) h ∙ drop-append w rest

last_byte :
    (w shift x used : ℕ) (s : Spb) (rest : List ℕ)
    → w < 128
    → shift < 64
    → x < 2 ^ shift
    → IsU64 (x + w * 2 ^ shift)
    → digit_loop (w ∷ rest) shift x used s ≡ done (x + w * 2 ^ shift) (advance (used + 1) s)
unfolding digit_loop
last_byte w shift x used s rest hw hs hx fits =
    let m : w % 128 ≡ w = omega arith in ground (arith, or_group_lem x w shift)

inner_byte :
    (g shift x used : ℕ) (s : Spb) (rest : List ℕ)
    → g < 128
    → shift < 64
    → x < 2 ^ shift
    → IsU64 (x + g * 2 ^ shift)
    → digit_loop ((g + 128) ∷ rest) shift x used s
      ≡ digit_loop rest (shift + 7) (x + g * 2 ^ shift) (used + 1) s
unfolding digit_loop
inner_byte g shift x used s rest hg hs hx fits =
    let m : (g + 128) % 128 ≡ g = omega arith in ground (arith, or_group_lem x (g + 128) shift)

digit_loop-varint :
    (k w shift x used : ℕ) (s : Spb) (rest : List ℕ)
    → w < 128 ^ suc k
    → shift + 7 * k < 64
    → x < 2 ^ shift
    → IsU64 (x + w * 2 ^ shift)
    → digit_loop (varint k w ++ rest) shift x used s
      ≡ done (x + w * 2 ^ shift) (advance (used + length (varint k w)) s)
unfolding varint
digit_loop-varint zero w shift x used s rest hw hs hx fits =
    last_byte w shift x used s rest hw (omega arith) hx fits
digit_loop-varint (suc k) w shift x used s rest hw hs hx fits = ground (
  arith,
  split_group w shift,
  last_byte w shift x used s rest,
  group-lt x (w % 128) shift,
  inner_byte (w % 128) shift x used s (varint k (w / 128) ++ rest),
  digit_loop-varint k (w / 128) (shift + 7) (x + w % 128 * 2 ^ shift) (used + 1) s rest
      (omega arith),
)

pub unpack_number-varint :
    (x : ℕ) (s : Spb) (rest : List ℕ)
    → IsU64 x
    → Ahead s (varint64 x ++ rest)
    → unpack_number s ≡ done x (advance (length (varint64 x)) s)
unfolding unpack_number
unpack_number-varint x s rest h ahead =
    rw ahead (ground (arith, digit_loop-varint 9 x 0 0 0 s rest))

-- unpackNumber reads back what packNumber wrote for any uint64, wherever it stands in the buffer,
-- and moves the index behind it.
pub unpack_number-pack_number :
    (x : ℕ) (s : Spb) (rest : List ℕ)
    → IsU64 x
    → Ahead s (pack_number x [] ++ rest)
    → unpack_number s ≡ done x (advance (length (pack_number x [])) s)
unpack_number-pack_number x s rest h ahead =
    rw (pack_number-varint x [] h)
      (unpack_number-varint x s rest h (rw (pack_number-varint x [] h) at ahead))

-- The bytes of a header.
abbrev pub header_bytes : ℕ → ℕ → List ℕ
header_bytes tag typ = if ltb tag 15 then (typ * 16 + tag) ∷ [] else (typ * 16 + 15) ∷ varint64 tag

join_table : (b : ℕ) → b < 256 → bit_or (b / 16 * 2 ^ 4 % 256) (b % 16 % 256) ≡ b
join_table = eq_below 256 (λ b. bit_or (b / 16 * 2 ^ 4 % 256) (b % 16 % 256)) (λ b. b) refl

join_header :
    (tag typ : ℕ) → tag < 16 → typ < 16 → bit_or (typ * 2 ^ 4 % 256) (tag % 256) ≡ typ * 16 + tag
join_header tag typ ht hy =
    let high : (typ * 16 + tag) / 16 ≡ typ = omega arith in
    let low : (typ * 16 + tag) % 16 ≡ tag = omega arith in
    rw (high, low) at (join_table (typ * 16 + tag) (omega arith))

pub pack_header_lem :
    (tag typ : ℕ) (buf : List ℕ)
    → tag < 2 ^ 32
    → typ < 16
    → pack_header tag typ buf ≡ buf ++ header_bytes tag typ
unfolding pack_header
pack_header_lem tag typ buf ht hy = ground (
  arith,
  join_header tag typ,
  join_header 15 typ,
  pack_number-varint tag (buf ++ ((typ * 16 + 15) ∷ [])),
  append_assoc buf ((typ * 16 + 15) ∷ []) (varint64 tag),
)

-- Something ahead means that the index is inside the buffer.
pub length-Ahead : (s : Spb) (l : List ℕ) → Ahead s l → length l ≡ length s.buf - s.index
length-Ahead s l h = sym (ap length h) ∙ length-drop s.index s.buf

unpack_short :
    (tag typ : ℕ) (s : Spb) (rest : List ℕ)
    → tag < 15
    → typ < 16
    → Ahead s ((typ * 16 + tag) ∷ rest)
    → unpack_header s ≡ done (record { tag = tag; typ = typ }) (advance 1 s)
unfolding unpack_header
unpack_short tag typ s rest ht hy ahead =
    rw ahead
      (ground (arith, length-Ahead s ((typ * 16 + tag) ∷ rest) ahead, low_four (typ * 16 + tag)))

unpack_long :
    (tag typ : ℕ) (s : Spb) (rest : List ℕ)
    → tag < 2 ^ 32
    → typ < 16
    → Ahead s ((typ * 16 + 15) ∷ (varint64 tag ++ rest))
    → unpack_header s
      ≡ done (record { tag = tag; typ = typ }) (advance (suc (length (varint64 tag))) s)
unfolding unpack_header
unpack_long tag typ s rest ht hy ahead =
    let behind = Ahead-advance s ((typ * 16 + 15) ∷ []) (varint64 tag ++ rest) ahead in
    let number = unpack_number-varint tag (advance 1 s) rest (omega arith) behind in
    rw ahead (
      ground (
        arith,
        number,
        length-Ahead s ((typ * 16 + 15) ∷ (varint64 tag ++ rest)) ahead,
        low_four (typ * 16 + 15),
      ))

pub unpack_header_bytes :
    (tag typ : ℕ) (s : Spb) (rest : List ℕ)
    → tag < 2 ^ 32
    → typ < 16
    → Ahead s (header_bytes tag typ ++ rest)
    → unpack_header s
      ≡ done (record { tag = tag; typ = typ }) (advance (length (header_bytes tag typ)) s)
unpack_header_bytes tag typ s rest ht hy ahead = elim (Bool-cases (ltb tag 15)) [
  | inl short ↦ rw short (unpack_short tag typ s rest (ltb→lt tag 15 short) hy (rw short at ahead))
  | inr long ↦ rw long (unpack_long tag typ s rest ht hy (rw long at ahead))
]

-- unpackHeader reads back what packHeader wrote for any field number of 32 bits and any type, in
-- the short form and in the long one, and moves the index behind it.
pub unpack_header-header :
    (tag typ : ℕ) (s : Spb) (rest : List ℕ)
    → tag < 2 ^ 32
    → typ < 16
    → Ahead s (pack_header tag typ [] ++ rest)
    → unpack_header s
      ≡ done (record { tag = tag; typ = typ }) (advance (length (pack_header tag typ [])) s)
unpack_header-header tag typ s rest ht hy ahead =
    rw (pack_header_lem tag typ [] ht hy)
      (unpack_header_bytes tag typ s rest ht hy (rw (pack_header_lem tag typ [] ht hy) at ahead))

nil_of_length : (b : List ℕ) → length b ≡ 0 → b ≡ []
nil_of_length [] h = refl
nil_of_length (c ∷ b) h = absurd (omega arith)

-- unpackByte takes the bytes that stand ahead.
pub unpack_byte_lem :
    (b rest : List ℕ) (s : Spb)
    → s.index + length b < 2 ^ 63
    → Ahead s (b ++ rest)
    → unpack_byte (length b) s ≡ done b (advance (length b) s)
unfolding unpack_byte
unpack_byte_lem b rest s h ahead = rw ahead (
    ground (
      arith,
      take-append b rest,
      length-append b rest,
      length-Ahead s (b ++ rest) ahead,
      nil_of_length b,
    ))
