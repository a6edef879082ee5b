-- ===== src/Kv/Written.antt =====
-- What stkvbuffer/kvbuffer.go writes for a new key, one chunk after another.
use gotools.Common.{
  ℕ, suc, ◌+◌, ◌-◌, ◌≤◌, ◌≡◌, refl, sym, ap, ◌∙◌, arith, List, [], ◌∷◌, ◌++◌, length, length-append,
  length-drop, take, drop, drop_of_length-le, copy, copy_at, All, Bool, true, false, if◌then◌else◌,
  dec_lt,
}
use mathlib.Core.Path.{subst}
use gotools.Kv.{
  Bytes, Chunk, write_uint32, next_of, write_key, write_val, bytes_of, write_chunks, write_node,
}
use gotools.Kv.Copies.{
  drop-append_le, drop-append_ge, copy_at-nil, copy_at-append, copy_at-append_long, length-copy_at,
  drop-copy_at,
}

abbrev pub body : List Bytes → Bytes
body [] = []
body (c ∷ cs) = drop 4 c ++ body cs

-- The room for the key and the value in the chunks of a node.
abbrev pub payload : List Bytes → Bytes
payload [] = []
payload (c ∷ cs) = drop 12 c ++ body cs

-- A chunk after the key and the value have been written from `start` on.
abbrev filled : ℕ → ℕ → Bytes → Bytes → Bytes → Bytes × Bytes × Bool
filled size start key val c = let k = write_key size start key c in write_val size k.2 val k.0

-- What is written, what is left, and that nothing is left where the loop breaks off.
abbrev IsFilled : ℕ → ℕ → Bytes → Bytes → Bytes → Bytes → Bool → Type 0
IsFilled size start w c d rest over =
    (d ≡ copy_at c start w) × (rest ≡ drop (size - start) w) × (over ≡ true → rest ≡ [])

write_val-IsFilled :
    (size start : ℕ) (val c : Bytes)
    → length c ≡ size
    → start ≤ size
    → IsFilled size start val c
        (write_val size start val c).0
        (write_val size start val c).1
        (write_val size start val c).2
write_val-IsFilled size start [] c e h = (
  ground (arith, copy_at-nil c start),
  ground (arith, drop_of_length-le {A = ℕ} (size - start) [] (omega arith)),
  λ over. refl,
)
write_val-IsFilled size start (x ∷ val) c e h = elim (dec_lt start size) [
  | no full ↦
      let same = copy_at-append_long c start [] (x ∷ val) (omega arith) ∙ copy_at-nil c start in
      let none_fits : size - start ≡ 0 = omega arith in
      (
        ground (arith, full, same),
        ground (arith, full, none_fits),
        λ over. absurd (ground (arith, full, over)),
      )
  | yes room ↦ elim (dec_lt (size - start) (length (x ∷ val))) [
    | yes p ↦ (
      ground (arith, room, p),
      ground (arith, room, p),
      λ over. absurd (ground (arith, room, p, over)),
    )
    | no n ↦ (
      ground (arith, room, n),
      ground (arith, room, n, drop_of_length-le (size - start) (x ∷ val) (omega arith)),
      λ over. ground (arith, room, n),
    )
  ]
]

-- The key and the value are written as one text.
filled-IsFilled :
    (size start : ℕ) (key val c : Bytes)
    → length c ≡ size
    → start ≤ size
    → IsFilled size start
        (key ++ val)
        c
        (filled size start key val c).0
        ((write_key size start key c).1 ++ (filled size start key val c).1)
        (filled size start key val c).2
filled-IsFilled size start [] val c e h = write_val-IsFilled size start val c e h
filled-IsFilled size start (x ∷ key) val c e h =
    let w = x ∷ key in
    elim (dec_lt (size - start) (length w)) [
      | yes p ↦ (
        ground (arith, p, copy_at-append_long c start w val (omega arith)),
        ground (arith, p, drop-append_le (size - start) w val (omega arith)),
        λ over. absurd (ground (arith, p, over)),
      )
      | no n ↦
          let key_fits : write_key size start w c ≡ (copy_at c start w, [], start + length w) =
            ground (arith, n) in
          let (d, rest, over) =
            write_val-IsFilled size (start + length w) val (copy_at c start w)
              (length-copy_at c start w ∙ e) (omega arith) in
          (
            ground (arith, n, d, copy_at-append c start w val (omega arith)),
            ground (arith, n, rest, drop-append_ge (size - start) w val (omega arith)),
            subst
                (λ k.
                  (write_val size k.2 val k.0).2 ≡ true
                  → k.1 ++ (write_val size k.2 val k.0).1 ≡ [])
                (sym key_fits) over,
          )
    ]

-- A text that starts with another.
abbrev pub Starts : Bytes → Bytes → Type 0
Starts w text = take (length w) text ≡ w

-- One chunk takes what fits, and the rest follows.
Starts-copy : (w c rest : Bytes) → Starts (drop (length c) w) rest → Starts w (copy c w ++ rest)
Starts-copy [] c rest h = refl
Starts-copy (x ∷ w) [] rest h = h
Starts-copy (x ∷ w) (y ∷ c) rest h = ap (◌∷◌ x) (Starts-copy w c rest h)

Starts-chunk :
    (size start : ℕ) (w c d left more : Bytes)
    → length c ≡ size
    → start ≤ size
    → d ≡ copy_at c start w
    → left ≡ drop (size - start) w
    → Starts left more
    → Starts w (drop start d ++ more)
Starts-chunk size start w c d left more e h written rest starts =
    let room : length (drop start c) ≡ size - start = omega (arith, length-drop start c) in
    let tail : Starts (drop (length (drop start c)) w) more =
      rw room (subst (λ t. Starts t more) rest starts) in
    rw (written ∙ refl)
      (rw (drop-copy_at c start w (omega arith)) (Starts-copy w (drop start c) more tail))

length-filled :
    (size start : ℕ) (key val c left : Bytes)
    → left ≡ drop (size - start) (key ++ val)
    → length left ≡ length (key ++ val) - (size - start)
length-filled size start key val c left e =
    omega (arith, ap (λ (t : Bytes). length t) e, length-drop (size - start) (key ++ val))

-- The chunks behind one: the loop broke off, with nothing left, or it went on.
Starts-more :
    (over : Bool) (left : Bytes) (old new : List Bytes)
    → (over ≡ true → left ≡ [])
    → Starts left (body new)
    → Starts left (body (if over then old else new))
Starts-more true left old new h goes_on = subst (λ t. Starts t (body old)) (sym (h refl)) refl
Starts-more false left old new h goes_on = goes_on

Starts-none : (w : Bytes) → length w ≡ 0 → Starts w []
Starts-none [] e = refl
Starts-none (x ∷ w) e = absurd (omega arith)

body-write_chunks :
    (size : ℕ) (key val : Bytes) (cs : List Chunk)
    → All (λ d. length d ≡ size) (bytes_of cs)
    → 4 ≤ size
    → length (key ++ val) ≤ length (body (bytes_of cs))
    → Starts (key ++ val) (body (write_chunks size key val cs))
unfolding write_chunks
body-write_chunks size key val [] sizes h fits = Starts-none (key ++ val) (omega arith)
body-write_chunks size key val ((i, c) ∷ cs) sizes h fits =
    let linked = write_uint32 c 0 (next_of i cs) in
    let e : length linked ≡ size = length-copy_at c 0 _ ∙ sizes.0 in
    let (d, rest, over) = filled-IsFilled size 4 key val linked e h in
    let short = length-filled size 4 key val c _ rest in
    let goes_on =
      body-write_chunks size (write_key size 4 key linked).1 (filled size 4 key val linked).1 cs
        sizes.1 h
        (omega (
          arith,
          short,
          sizes.0,
          length-append (drop 4 c) (body (bytes_of cs)),
          length-drop 4 c,
        )) in
    Starts-chunk size 4 (key ++ val) linked _ _ _ e h d rest
      (Starts-more _ _ (bytes_of cs) _ over goes_on)

-- The first chunk with the two sizes and its link.
sized-size :
    (size : ℕ) (key val : Bytes) (i : ℕ) (c : Bytes) (cs : List Chunk)
    → length c ≡ size
    → length (
        write_uint32 (write_uint32 (write_uint32 c 4 (length key)) 8 (length val)) 0 (next_of i cs))
      ≡ size
sized-size size key val i c cs e =
    length-copy_at (write_uint32 (write_uint32 c 4 (length key)) 8 (length val)) 0 _
    ∙ length-copy_at (write_uint32 c 4 (length key)) 8 _
    ∙ length-copy_at c 4 _
    ∙ e

pub payload-write_node :
    (size : ℕ) (key val : Bytes) (cs : List Chunk)
    → All (λ d. length d ≡ size) (bytes_of cs)
    → 12 ≤ size
    → length (key ++ val) ≤ length (payload (bytes_of cs))
    → Starts (key ++ val) (payload (write_node size key val cs))
unfolding write_node
payload-write_node size key val [] sizes h fits = Starts-none (key ++ val) (omega arith)
payload-write_node size key val ((i, c) ∷ cs) sizes h fits =
    let sized = write_uint32 (write_uint32 c 4 (length key)) 8 (length val) in
    let linked = write_uint32 sized 0 (next_of i cs) in
    let e = sized-size size key val i c cs sizes.0 in
    let (d, rest, over) = filled-IsFilled size 12 key val linked e h in
    let short = length-filled size 12 key val c _ rest in
    let goes_on =
      body-write_chunks size (write_key size 12 key linked).1 (filled size 12 key val linked).1 cs
        sizes.1 (omega arith)
        (omega (
          arith,
          short,
          sizes.0,
          length-append (drop 12 c) (body (bytes_of cs)),
          length-drop 12 c,
        )) in
    Starts-chunk size 12 (key ++ val) linked _ _ _ e h d rest
      (Starts-more _ _ (bytes_of cs) _ over goes_on)

chunk-size :
    (size start : ℕ) (w c d : Bytes) → length c ≡ size → d ≡ copy_at c start w → length d ≡ size
chunk-size size start w c d e written =
    ap (λ (t : Bytes). length t) written ∙ length-copy_at c start w ∙ e

either-sizes :
    (over : Bool) (size : ℕ) (old : List Chunk) (new : List Bytes)
    → All (λ d. length d ≡ size) (bytes_of old)
    → All (λ d. length d ≡ size) new
    → All (λ d. length d ≡ size) (if over then bytes_of old else new)
either-sizes true size old new h h' = h
either-sizes false size old new h h' = h'

pub length-bytes_of : (cs : List Chunk) → length (bytes_of cs) ≡ length cs
length-bytes_of [] = refl
length-bytes_of ((i, c) ∷ cs) = ap suc (length-bytes_of cs)

either-length :
    (over : Bool) (old : List Chunk) (new : List Bytes)
    → length new ≡ length old
    → length (if over then bytes_of old else new) ≡ length old
either-length true old new e = length-bytes_of old
either-length false old new e = e

-- The chunks keep their sizes, and are as many.
write_chunks-sizes :
    (size : ℕ) (key val : Bytes) (cs : List Chunk)
    → All (λ d. length d ≡ size) (bytes_of cs)
    → 4 ≤ size
    → All (λ d. length d ≡ size) (write_chunks size key val cs)
      × (length (write_chunks size key val cs) ≡ length cs)
unfolding write_chunks
write_chunks-sizes size key val [] sizes h = (tt, refl)
write_chunks-sizes size key val ((i, c) ∷ cs) sizes h =
    let linked = write_uint32 c 0 (next_of i cs) in
    let e : length linked ≡ size = length-copy_at c 0 _ ∙ sizes.0 in
    let (d, rest, over) = filled-IsFilled size 4 key val linked e h in
    let (sizes', same) =
      write_chunks-sizes size (write_key size 4 key linked).1 (filled size 4 key val linked).1 cs
        sizes.1 h in
    (
      (chunk-size size 4 (key ++ val) linked _ e d, either-sizes _ size cs _ sizes.1 sizes'),
      ap suc (either-length _ cs _ same),
    )

pub write_node-sizes :
    (size : ℕ) (key val : Bytes) (cs : List Chunk)
    → All (λ d. length d ≡ size) (bytes_of cs)
    → 12 ≤ size
    → All (λ d. length d ≡ size) (write_node size key val cs)
      × (length (write_node size key val cs) ≡ length cs)
unfolding write_node
write_node-sizes size key val [] sizes h = (tt, refl)
write_node-sizes size key val ((i, c) ∷ cs) sizes h =
    let sized = write_uint32 (write_uint32 c 4 (length key)) 8 (length val) in
    let linked = write_uint32 sized 0 (next_of i cs) in
    let e = sized-size size key val i c cs sizes.0 in
    let (d, rest, over) = filled-IsFilled size 12 key val linked e h in
    let (sizes', same) =
      write_chunks-sizes size (write_key size 12 key linked).1 (filled size 12 key val linked).1 cs
        sizes.1 (omega arith) in
    (
      (chunk-size size 12 (key ++ val) linked _ e d, either-sizes _ size cs _ sizes.1 sizes'),
      ap suc (either-length _ cs _ same),
    )
