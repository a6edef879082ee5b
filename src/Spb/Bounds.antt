-- ===== src/Spb/Bounds.antt =====
-- unpackNumber of stnet/spb.go on any input.
use gotools.Common.{ℕ, ◌+◌, ◌*◌, ◌≤◌, ◌<◌, ◌≡◌, arith, List, [], ◌∷◌, length, drop, length-drop}
use gotools.Common.Varint.{or_group}
use gotools.Spb.Read.{Spb, done, digit_loop, unpack_number}

-- After `j` bytes the shift is 7 * j; the loop reads at most ten.
digit_loop_takes :
    (b : List ℕ) (j x used : ℕ) (s : Spb) {y : ℕ} {s' : Spb}
    → j ≤ 10
    → digit_loop b (7 * j) x used s ≡ done y s'
    → (s'.buf ≡ s.buf)
      × (s.index + used < s'.index)
      × (s'.index + j ≤ s.index + used + 10)
      × (s'.index ≤ s.index + used + length b)
unfolding digit_loop
digit_loop_takes [] j x used s hj e = cc
digit_loop_takes (c ∷ rest) j x used s {y} {s'} hj e =
    let shift : 7 * j + 7 ≡ 7 * (j + 1) = omega arith in
    ground
      (arith, digit_loop_takes rest (j + 1) (or_group x c (7 * j)) (used + 1) s {y = y} {s' = s'})

-- Whatever the bytes are, an unpackNumber that succeeds leaves the buffer as it was, has moved the
-- index by one to ten bytes, and has not moved it behind the end of the buffer.
pub unpack_number_takes :
    (s : Spb) (y : ℕ) (s' : Spb)
    → unpack_number s ≡ done y s'
    → (s'.buf ≡ s.buf)
      × (s.index < s'.index)
      × (s'.index ≤ s.index + 10)
      × (s'.index ≤ length s.buf)
unfolding unpack_number
unpack_number_takes s y s' e =
    let (same, more, ten, inside) =
      digit_loop_takes (drop s.index s.buf) 0 0 0 s {y = y} {s' = s'} (omega arith) e in
    let behind = length-drop s.index s.buf in (same, omega arith, omega arith, omega arith)
