-- ===== src/Transport/Received.antt =====
-- What dorecv reads and the buffers that it reads into (stnet/session.go).
use gotools.Common.{
  ℕ, zero, suc, ◌*◌, ◌/◌, ◌≤◌, ◌<◌, ◌≡◌, ◌⊎◌, refl, sym, ap, ◌∙◌, arith, List, [], ◌∷◌, ◌++◌,
  append_assoc, ltb, length, length-append, take, drop, true, inl, inr, dec_lt, ℕ_discrete,
}
use mathlib.Core.Path.{subst}
use gotools.Frame.Cut.{together}
use gotools.Transport.{
  Read, gives, fails, Receiving, panicked, msg_buff_size, min_msg_size, next_size, dorecv,
}

-- The sizes that a buffer has: 64 bytes, doubled so many times.
abbrev pub doubled : ℕ → ℕ
doubled zero = 64
doubled (suc k) = doubled k * 2

doubled-least : (k : ℕ) → 64 ≤ doubled k
doubled-least zero = omega arith
doubled-least (suc k) = omega (arith, doubled-least k)

-- A size that is reached on a stream of `l` bytes.
abbrev pub IsSize : ℕ → ℕ → Type 0
IsSize l size = ((k : ℕ) × (size ≡ doubled k)) × ((size ≤ msg_buff_size) ⊎ (size ≤ 2 * l))

next_size-doubled : (n k size : ℕ) → size ≡ doubled k → (j : ℕ) × (next_size n size ≡ doubled j)
unfolding next_size
next_size-doubled n zero size e = elim (ℕ_discrete n size) [
  | yes all ↦ (suc zero, ground (arith, e, all))
  | no part ↦ (zero, ground (arith, e, part))
]
next_size-doubled n (suc k) size e = elim (dec_lt (n * 2) size) [
  | yes small ↦ (
    k,
    let big : ltb min_msg_size size ≡ true = ground (arith, e, doubled-least k) in
        let half : size / 2 ≡ doubled k = omega (arith, e) in ground (arith, big, small, half),
  )
  | no large ↦ elim (ℕ_discrete n size) [
    | yes all ↦ (suc (suc k), ground (arith, e, all, large))
    | no part ↦ (suc k, ground (arith, e, part, large))
  ]
]

next_size-most :
    (n size l b : ℕ)
    → n ≤ l
    → (size ≤ b) ⊎ (size ≤ 2 * l)
    → (next_size n size ≤ b) ⊎ (next_size n size ≤ 2 * l)
unfolding next_size
next_size-most n size l b le h = elim (ℕ_discrete n size) [
  | yes all ↦ inr (ground arith)
  | no part ↦ elim h [
    | inl below ↦ inl (ground (arith, part, below))
    | inr below ↦ inr (ground (arith, part, below))
  ]
]

front : (k s : ℕ) (l : List ℕ) → take k (take s l) ++ drop (length (take k (take s l))) l ≡ l
front zero s l = refl
front (suc k) zero l = refl
front (suc k) (suc s) [] = refl
front (suc k) (suc s) (x ∷ l) = ap (λ t. x ∷ t) (front k s l)

module _ (k : ℕ) (reads : List Read) (size : ℕ) (stream : List ℕ) where
  abbrev first : List ℕ
  first = take k (take size stream)

  abbrev later : Receiving
  later = dorecv reads (next_size (length first) size) (drop (length first) stream)

  dorecv-stops :
      length first ≡ 0
      → dorecv (gives k ∷ reads) size stream
        ≡ record { chunks = []; size = size; rest = stream; state = panicked }
  unfolding dorecv
  dorecv-stops e = ground (arith, e)

  dorecv-goes :
      0 < length first
      → dorecv (gives k ∷ reads) size stream ≡ record later { chunks = first ∷ later.chunks }
  unfolding dorecv
  dorecv-goes lt = ground (arith)

-- What dorecv has done from a buffer of `size` on: the chunks and the rest are the stream, and the
-- buffer has a size that it may have.
pub record Reads (l : ℕ) (stream : List ℕ) (r : Receiving) : Type 0 where
  pub all : together r.chunks ++ r.rest ≡ stream
  pub size : IsSize l r.size

dorecv-Reads :
    (reads : List Read) (l size : ℕ) (stream : List ℕ)
    → length stream ≤ l
    → IsSize l size
    → Reads l stream (dorecv reads size stream)
unfolding dorecv
dorecv-Reads [] l size stream le h = record { all = refl; size = h }
dorecv-Reads (fails ∷ reads) l size stream le h = record { all = refl; size = h }
dorecv-Reads (gives k ∷ reads) l size stream le h =
    let c = first k reads size stream in
    let whole = front k size stream in
    let parts = length-append c (drop (length c) stream) in
    let len = ap (λ (t : List ℕ). length t) whole in
    elim (dec_lt 0 (length c)) [
      | yes lt ↦
          let next = next_size-doubled (length c) h.0.0 size h.0.1 in
          let most = next_size-most (length c) size l msg_buff_size (omega arith) h.1 in
          let r =
            dorecv-Reads reads l (next_size (length c) size) (drop (length c) stream) (omega arith)
              (next, most) in
          subst (λ d. Reads l stream d) (sym (dorecv-goes k reads size stream lt))
            record {
              all =
                  append_assoc c (together (later k reads size stream).chunks)
                    (later k reads size stream).rest
                  ∙ ap (λ t. c ++ t) r.all
                  ∙ whole;
              size = r.size;
            }
      | no over ↦
          subst (λ d. Reads l stream d) (sym (dorecv-stops k reads size stream (omega arith)))
            record { all = refl; size = h }
    ]

-- However a TCP socket cuts a stream into reads: the chunks that dorecv hands over, then what it
-- has not read, are the stream; and its buffer is of 64 bytes doubled some times, of at most 1024
-- bytes or twice the stream's length.
pub dorecv-stream :
    (reads : List Read) (stream : List ℕ)
    → Reads (length stream) stream (dorecv reads msg_buff_size stream)
dorecv-stream reads stream =
    dorecv-Reads reads (length stream) msg_buff_size stream (omega arith)
      ((4, refl), inl (omega arith))
