-- ===== src/Spb/Steps.antt =====
-- One field of each type, read where it stands ahead in the buffer: what `unpack` makes of it, given
-- what the loops make of what is inside.
use gotools.Common.{ℕ, suc, ◌+◌, ◌^◌, ◌≤◌, ◌<◌, ◌≡◌, ap, ◌∙◌, arith, List, ◌++◌, length, Bool, some}
use gotools.Common.Varint.{IsU64, varint64}
use gotools.Spb.Values.{Ty, Value, Values, Entries, Fields}
use gotools.Spb.Pack.{struct_end}
use gotools.Spb.Read.{Spb, done, failed, unpack_number, Header, unpack_header}
use gotools.Spb.Unpack.{
  Runtime, Target, target_of, value_at, put_at, modify_at, set_positive, set_negative, set_string,
  make_map, shape_of,
}
use gotools.Spb.Decode.{unpack_field, elems_loop, entries_loop, fields_loop}
use gotools.Spb.Numbers.{
  advance, Ahead, Ahead-advance, header_bytes, unpack_header_bytes, unpack_number-varint,
  unpack_byte_lem,
}

abbrev pub head : ℕ → ℕ → Header
head tag typ = record { tag = tag; typ = typ }

-- A header and a number ahead: both reads, and what is ahead then.
pub header-number :
    (tag typ n : ℕ) (s : Spb) (rest : List ℕ)
    → tag < 2 ^ 32
    → typ < 16
    → IsU64 n
    → Ahead s (header_bytes tag typ ++ (varint64 n ++ rest))
    → (unpack_header s ≡ done (head tag typ) (advance (length (header_bytes tag typ)) s))
      × (unpack_number (advance (length (header_bytes tag typ)) s)
          ≡ done n (advance (length (header_bytes tag typ) + length (varint64 n)) s))
      × Ahead (advance (length (header_bytes tag typ) + length (varint64 n)) s) rest
header-number tag typ n s rest ht hy hn ahead =
    let h : ℕ = length (header_bytes tag typ) in
    let behind = Ahead-advance s (header_bytes tag typ) (varint64 n ++ rest) ahead in
    let number = unpack_number-varint n (advance h s) rest hn behind in
    let after = Ahead-advance (advance h s) (varint64 n) rest behind in
    let same : s.index + h + length (varint64 n) ≡ s.index + (h + length (varint64 n)) =
      omega arith in
    (
      unpack_header_bytes tag typ s (varint64 n ++ rest) ht hy ahead,
      number ∙ ap (λ (i : ℕ). done n (record s { index = i })) same,
      rw same at after,
    )

module _ (rt : Runtime) (first : Bool) (x : Value) (t : Target) (tag fuel : ℕ) (s : Spb) where
  -- The state behind a header and a number.
  abbrev pub behind : ℕ → ℕ → Spb
  behind typ n = advance (length (header_bytes tag typ) + length (varint64 n)) s

  pub read_positive :
      (n : ℕ) (rest : List ℕ)
      → tag < 2 ^ 32
      → IsU64 n
      → target_of first tag x ≡ t
      → Ahead s (header_bytes tag 0 ++ (varint64 n ++ rest))
      → unpack_field rt (suc fuel) first x s ≡ done (modify_at t (set_positive n) x) (behind 0 n)
  unfolding unpack_field
  read_positive n rest ht hn target ahead =
      let (h, number, _) = header-number tag 0 n s rest ht (omega arith) hn ahead in
      ground (arith, h, number, target)

  pub read_negative :
      (n : ℕ) (rest : List ℕ)
      → tag < 2 ^ 32
      → IsU64 n
      → target_of first tag x ≡ t
      → Ahead s (header_bytes tag 1 ++ (varint64 n ++ rest))
      → unpack_field rt (suc fuel) first x s ≡ done (modify_at t (set_negative n) x) (behind 1 n)
  unfolding unpack_field
  read_negative n rest ht hn target ahead =
      let (h, number, _) = header-number tag 1 n s rest ht (omega arith) hn ahead in
      ground (arith, h, number, target)

  pub read_text :
      (b rest : List ℕ)
      → tag < 2 ^ 32
      → (behind 4 (length b)).index + length b < 2 ^ 63
      → target_of first tag x ≡ t
      → Ahead s (header_bytes tag 4 ++ (varint64 (length b) ++ (b ++ rest)))
      → unpack_field rt (suc fuel) first x s
        ≡ done (modify_at t (set_string b) x) (advance (length b) (behind 4 (length b)))
  unfolding unpack_field
  read_text b rest ht hn target ahead =
      let (h, number, after) =
        header-number tag 4 (length b) s (b ++ rest) ht (omega arith) (omega arith) ahead in
      let text = unpack_byte_lem b rest (behind 4 (length b)) hn after in
      ground (arith, h, number, target, text)

  pub read_vector :
      (e : Ty) (n : ℕ) (old vs : Values) (rest : List ℕ) (s' : Spb)
      → tag < 2 ^ 32
      → n < 2 ^ 63
      → n ≤ rt.max_cap
      → target_of first tag x ≡ t
      → value_at t x ≡ some (Value.slice e old)
      → Ahead s (header_bytes tag 5 ++ (varint64 n ++ rest))
      → elems_loop rt fuel n e (behind 5 n) ≡ done vs s'
      → unpack_field rt (suc fuel) first x s ≡ done (put_at t (Value.slice e vs) x) s'
  unfolding unpack_field shape_of
  read_vector e n old vs rest s' ht hn hc target value ahead loop =
      let (h, number, _) = header-number tag 5 n s rest ht (omega arith) (omega arith) ahead in
      ground (arith, h, number, target, value, loop)

  pub read_mapping :
      (k e : Ty) (n : ℕ) (old es : Entries) (rest : List ℕ) (s' : Spb)
      → tag < 2 ^ 32
      → n < 2 ^ 63
      → n ≤ rt.max_cap
      → target_of first tag x ≡ t
      → value_at t x ≡ some (Value.mapping k e old)
      → Ahead s (header_bytes tag 6 ++ (varint64 n ++ rest))
      → entries_loop rt fuel n k e (behind 6 n) ≡ done es s'
      → unpack_field rt (suc fuel) first x s
        ≡ done (put_at t (Value.mapping k e (make_map rt es Entries.empty)) x) s'
  unfolding unpack_field shape_of
  read_mapping k e n old es rest s' ht hn hc target value ahead loop =
      let (h, number, _) = header-number tag 6 n s rest ht (omega arith) (omega arith) ahead in
      ground (arith, h, number, target, value, loop)

  pub read_struct :
      (old : Fields) (v : Value) (rest : List ℕ) (s' : Spb)
      → tag < 2 ^ 32
      → target_of first tag x ≡ t
      → value_at t x ≡ some (Value.struct old)
      → Ahead s (header_bytes tag 7 ++ rest)
      → fields_loop rt fuel (Value.struct old) (advance (length (header_bytes tag 7)) s) ≡ done v s'
      → unpack_field rt (suc fuel) first x s ≡ done (put_at t v x) s'
  unfolding unpack_field shape_of
  read_struct old v rest s' ht target value ahead loop =
      let h = unpack_header_bytes tag 7 s rest ht (omega arith) ahead in
      ground (arith, h, target, value, loop)

  -- The end mark of a struct is no field.
  pub read_end :
      (rest : List ℕ)
      → tag < 2 ^ 32
      → Ahead s (header_bytes tag 8 ++ rest)
      → unpack_field rt (suc fuel) first x s
        ≡ failed struct_end (advance (length (header_bytes tag 8)) s)
  unfolding unpack_field
  read_end rest ht ahead =
      let h = unpack_header_bytes tag 8 s rest ht (omega arith) ahead in ground (arith, h)
