-- ===== src/Kv/ReadBack.antt =====
-- What GetKey and GetVal of stkvbuffer/kvbuffer.go read from the chunks of a node, and that it is what
-- Set has written for a new key.
use gotools.Common.{
  ℕ, zero, suc, ◌+◌, ◌-◌, ◌≤◌, ◌<◌, ◌≡◌, refl, sym, ap, ◌∙◌, arith, List, [], ◌∷◌, ◌++◌, length,
  length-append, length-drop, take, drop, get_or, drop-drop, All, some, dec_lt,
}
use gotools.Kv.{
  Bytes, Chunk, get_rest, get_key, pos_loop, get_val_pos, get_val_at, get_val, bytes_of, write_node,
}
use gotools.Kv.Copies.{drop-append_le, drop-append_ge, take-append_le, take-append_ge}
use gotools.Kv.Written.{
  body, payload, Starts, payload-write_node, write_node-sizes, length-bytes_of,
}

abbrev pub OfSize : ℕ → List Bytes → Type 0
OfSize size cs = All (λ c. length c ≡ size) cs

get_rest-body :
    (size rest : ℕ) (cs : List Bytes)
    → OfSize size cs
    → 4 < size
    → rest ≤ length (body cs)
    → get_rest size rest cs ≡ some (take rest (body cs))
unfolding get_rest
get_rest-body size zero [] sizes h fits = ground arith
get_rest-body size (suc rest) [] sizes h fits = absurd (omega arith)
get_rest-body size rest (c ∷ cs) sizes h fits =
    let room : length (drop 4 c) ≡ size - 4 = omega (arith, length-drop 4 c, sizes.0) in
    let all = length-append (drop 4 c) (body cs) in
    elim (dec_lt rest (size - 4)) [
      | yes p ↦ elim (dec_lt 0 rest) [
        | yes q ↦ ground (arith, p, q, take-append_le rest (drop 4 c) (body cs) (omega arith))
        | no n ↦ let e : rest ≡ 0 = omega arith in rw e (ground (arith, p))
      ]
      | no n ↦
          let more = get_rest-body size (rest - (size - 4)) cs sizes.1 h (omega arith) in
          let joined = take-append_ge rest (drop 4 c) (body cs) (omega arith) in
          ground (arith, n, more, joined, room)
    ]

pub get_key-payload :
    (size key_size : ℕ) (cs : List Bytes)
    → OfSize size cs
    → 12 ≤ size
    → 1 ≤ length cs
    → key_size ≤ length (payload cs)
    → get_key cs key_size ≡ some (take key_size (payload cs))
unfolding get_key
get_key-payload size key_size [] sizes h one fits = absurd (omega arith)
get_key-payload size key_size (c ∷ cs) sizes h one fits =
    let room : length (drop 12 c) ≡ size - 12 = omega (arith, length-drop 12 c, sizes.0) in
    let all = length-append (drop 12 c) (body cs) in
    elim (dec_lt (size - 12) key_size) [
      | no n ↦
          ground (arith, n, sizes.0, take-append_le key_size (drop 12 c) (body cs) (omega arith))
      | yes p ↦
          let more =
            get_rest-body size (key_size + 12 - size) cs sizes.1 (omega arith) (omega arith) in
          let joined = take-append_ge key_size (drop 12 c) (body cs) (omega arith) in
          let e : key_size - length (drop 12 c) ≡ key_size + 12 - size = omega arith in
          ground (arith, p, sizes.0, more, joined, e)
    ]

get_val_at-body :
    (size start val_size : ℕ) (c : Bytes) (cs : List Bytes)
    → OfSize size (c ∷ cs)
    → 4 < size
    → start ≤ size
    → val_size ≤ length (drop start c ++ body cs)
    → get_val_at size start val_size (c ∷ cs) ≡ some (take val_size (drop start c ++ body cs))
get_val_at-body size start val_size c cs sizes h inside fits =
    let room : length (drop start c) ≡ size - start = omega (arith, length-drop start c, sizes.0) in
    let all = length-append (drop start c) (body cs) in
    elim (dec_lt (size - start) val_size) [
      | no n ↦ ground (arith, n, take-append_le val_size (drop start c) (body cs) (omega arith))
      | yes p ↦
          let more = get_rest-body size (val_size + start - size) cs sizes.1 h (omega arith) in
          let joined = take-append_ge val_size (drop start c) (body cs) (omega arith) in
          let e : val_size - length (drop start c) ≡ val_size + start - size = omega arith in
          ground (arith, p, more, joined, e)
    ]

get_val_at-here :
    (size rest val_size : ℕ) (c : Bytes) (cs : List Bytes)
    → OfSize size (c ∷ cs)
    → 4 < size
    → rest < size - 4
    → rest + val_size ≤ length (body (c ∷ cs))
    → get_val_at size (rest + 4) val_size (c ∷ cs)
      ≡ some (take val_size (drop rest (body (c ∷ cs))))
get_val_at-here size rest val_size c cs sizes h here fits =
    let room : length (drop 4 c) ≡ size - 4 = omega (arith, length-drop 4 c, sizes.0) in
    let inside : rest ≤ length (drop 4 c) = omega arith in
    let same : drop rest (drop 4 c ++ body cs) ≡ drop (rest + 4) c ++ body cs =
      drop-append_le rest (drop 4 c) (body cs) inside
      ∙ ap (λ t. t ++ body cs) (drop-drop 4 rest c ∙ ap (λ (n : ℕ). drop n c) (omega arith)) in
    let size_of_all = length-append (drop 4 c) (body cs) in
    let left = length-append (drop (rest + 4) c) (body cs) in
    let tail = length-drop (rest + 4) c in
    rw same (
      get_val_at-body size (rest + 4) val_size c cs sizes h (omega arith)
        (omega (arith, size_of_all, left, tail, sizes.0)))

-- Where getValPos leads, among the chunks behind the first.
pos_loop-body :
    (fuel size idx rest val_size : ℕ) (cs : List Bytes)
    → OfSize size cs
    → 4 < size
    → rest ≤ fuel
    → rest < length (body cs)
    → rest + val_size ≤ length (body cs)
    → (idx ≤ (pos_loop fuel size idx rest).0)
      × (get_val_at size
            ((pos_loop fuel size idx rest).1 + 4)
            val_size
            (drop ((pos_loop fuel size idx rest).0 - idx) cs)
          ≡ some (take val_size (drop rest (body cs))))
unfolding pos_loop
pos_loop-body fuel size idx rest val_size [] sizes h enough inside fits = absurd (omega arith)
pos_loop-body zero size idx rest val_size (c ∷ cs) sizes h enough inside fits =
    let e : idx - idx ≡ 0 = omega arith in
    (omega arith, rw e (get_val_at-here size rest val_size c cs sizes h (omega arith) fits))
pos_loop-body (suc fuel) size idx rest val_size (c ∷ cs) sizes h enough inside fits =
    let room : length (drop 4 c) ≡ size - 4 = omega (arith, length-drop 4 c, sizes.0) in
    let all = length-append (drop 4 c) (body cs) in
    elim (dec_lt rest (size - 4)) [
      | yes p ↦
          let e : idx - idx ≡ 0 = omega arith in
          (
            ground (arith, p),
            ground (arith, p, e, get_val_at-here size rest val_size c cs sizes h p fits),
          )
      | no n ↦
          let (le, more) =
            pos_loop-body fuel size (idx + 1) (rest - (size - 4)) val_size cs sizes.1 h
              (omega arith) (omega arith) (omega arith) in
          let skip = drop-append_ge rest (drop 4 c) (body cs) (omega arith) in
          let pos = pos_loop fuel size (idx + 1) (rest - (size - 4)) in
          let one : pos.0 - idx ≡ suc (pos.0 - (idx + 1)) = omega arith in
          (ground (arith, n, le), ground (arith, n, more, skip, one, room))
    ]

pub get_val-payload :
    (size key_size val_size : ℕ) (cs : List Bytes)
    → OfSize size cs
    → 12 ≤ size
    → key_size < length (payload cs)
    → key_size + val_size ≤ length (payload cs)
    → get_val cs key_size val_size ≡ some (take val_size (drop key_size (payload cs)))
unfolding get_val get_val_pos
get_val-payload size key_size val_size [] sizes h inside fits = absurd (omega arith)
get_val-payload size key_size val_size (c ∷ cs) sizes h inside fits =
    let room : length (drop 12 c) ≡ size - 12 = omega (arith, length-drop 12 c, sizes.0) in
    let all = length-append (drop 12 c) (body cs) in
    elim (dec_lt key_size (size - 12)) [
      | yes p ↦
          let same : drop key_size (drop 12 c ++ body cs) ≡ drop (12 + key_size) c ++ body cs =
            drop-append_le key_size (drop 12 c) (body cs) (omega arith)
            ∙ ap (λ t. t ++ body cs) (drop-drop 12 key_size c) in
          let left = length-append (drop (12 + key_size) c) (body cs) in
          let tail = length-drop (12 + key_size) c in
          let first =
            get_val_at-body size (12 + key_size) val_size c cs sizes (omega arith) (omega arith)
              (omega (arith, all, left, tail, sizes.0)) in
          ground (arith, p, sizes.0, same, first)
      | no n ↦
          let rest : ℕ = key_size + 12 - size in
          let (le, later) =
            pos_loop-body rest size 1 rest val_size cs sizes.1 (omega arith) (omega arith)
              (omega arith) (omega arith) in
          let pos = pos_loop rest size 1 rest in
          let one : pos.0 ≡ suc (pos.0 - 1) = omega arith in
          let skip = drop-append_ge key_size (drop 12 c) (body cs) (omega arith) in
          let e : key_size - length (drop 12 c) ≡ rest = omega arith in
          ground (arith, n, sizes.0, later, one, skip, e)
    ]

length-body :
    (size : ℕ) (a b : List Bytes)
    → OfSize size a
    → OfSize size b
    → length a ≡ length b
    → length (body a) ≡ length (body b)
length-body size [] [] ha hb e = refl
length-body size [] (d ∷ b) ha hb e = absurd (omega arith)
length-body size (c ∷ a) [] ha hb e = absurd (omega arith)
length-body size (c ∷ a) (d ∷ b) ha hb e = omega (
  arith,
  length-body size a b ha.1 hb.1 (omega arith),
  length-append (drop 4 c) (body a),
  length-append (drop 4 d) (body b),
  length-drop 4 c,
  length-drop 4 d,
  ha.0,
  hb.0,
)

length-payload :
    (size : ℕ) (a b : List Bytes)
    → OfSize size a
    → OfSize size b
    → length a ≡ length b
    → length (payload a) ≡ length (payload b)
length-payload size [] [] ha hb e = refl
length-payload size [] (d ∷ b) ha hb e = absurd (omega arith)
length-payload size (c ∷ a) [] ha hb e = absurd (omega arith)
length-payload size (c ∷ a) (d ∷ b) ha hb e = omega (
  arith,
  length-body size a b ha.1 hb.1 (omega arith),
  length-append (drop 12 c) (body a),
  length-append (drop 12 d) (body b),
  length-drop 12 c,
  length-drop 12 d,
  ha.0,
  hb.0,
)

Starts-parts :
    (k v text : Bytes)
    → Starts (k ++ v) text
    → (take (length k) text ≡ k) × (take (length v) (drop (length k) text) ≡ v)
Starts-parts [] v text h = (refl, h)
Starts-parts (x ∷ k) v [] h = absurd (ground (arith, ap (λ (t : Bytes). length t) h))
Starts-parts (x ∷ k) v (y ∷ text) h =
    let head : y ≡ x = ap (λ (t : Bytes). get_or t 0 0) h in
    let tail : Starts (k ++ v) text = ap (λ (t : Bytes). drop 1 t) h in
    let (a, b) = Starts-parts k v text tail in (rw head (ap (◌∷◌ x) a), b)

-- GetKey and GetVal of chunks that Set has written for a new key return that key and that value, if
-- the chunks have room for both, and more than for the key alone.
pub get-write_node :
    (size : ℕ) (key val : Bytes) (cs : List Chunk)
    → OfSize size (bytes_of cs)
    → 12 ≤ size
    → length key < length (payload (bytes_of cs))
    → length key + length val ≤ length (payload (bytes_of cs))
    → (get_key (write_node size key val cs) (length key) ≡ some key)
      × (get_val (write_node size key val cs) (length key) (length val) ≡ some val)
get-write_node size key val [] sizes h more fits = absurd (omega arith)
get-write_node size key val (c ∷ cs) sizes h more fits =
    let ds = write_node size key val (c ∷ cs) in
    let (sizes', count) = write_node-sizes size key val (c ∷ cs) sizes h in
    let same =
      length-payload size ds (bytes_of (c ∷ cs)) sizes' sizes
        (count ∙ sym (length-bytes_of (c ∷ cs))) in
    let starts =
      payload-write_node size key val (c ∷ cs) sizes h (omega (arith, length-append key val)) in
    let (k, v) = Starts-parts key val (payload ds) starts in
    (
      get_key-payload size (length key) ds sizes' h (omega (arith, count)) (omega (arith, same))
          ∙ ap some k,
      get_val-payload size (length key) (length val) ds sizes' h (omega (arith, same))
            (omega (arith, same))
          ∙ ap some v,
    )
