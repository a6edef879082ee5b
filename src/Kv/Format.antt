-- ===== src/Kv/Format.antt =====
-- NewKVBuffer of stkvbuffer/kvbuffer.go on memory that is not formatted yet.
use gotools.Common.{
  ℕ, zero, suc, ◌+◌, ◌*◌, ◌%◌, ◌^◌, ◌≤◌, ◌<◌, ◌≡◌, ◌≢◌, refl, sym, ap, ◌∙◌, arith, List, [], ◌∷◌,
  ltb, leb, ◌==◌, ◌||◌, length, length-drop, drop-drop, get_or, Option, length-take, take, drop,
  map, All, Bool, none, some, if◌then◌else◌, Bool-cases, inl, inr, ◌⊎◌,
}
use gotools.Config.Text.{str_discrete}
use gotools.Lru.{new_lru}
use gotools.Lru.Valid.{IsValid, new_lru-IsValid}
use gotools.Lru.Refine.{entry, entries}
use gotools.Kv.{Bytes, header_size, write_uint32}
use gotools.Kv.Copies.{length-copy_at}
use gotools.Kv.ReadBack.{OfSize}
use gotools.Kv.SetGet.{Apart}
use gotools.Kv.Buffer.{KvBuffer, on_evicted}

-- How NewKVBuffer ends without a buffer that can be used. The first two are its errors. With
-- `nil_cache` it returns no error but a buffer without chunks, whose cache is nil since NewLRU refused
-- its size. With `no_end` its loop does not end, and with `panics` a chunk begins less than four bytes
-- before the end of the block.
pub data NewError : Type 0 where
  small_data small_chunk nil_cache no_end panics : NewError

-- The loop over the memory behind the header: whole chunks, each marked free; `none` is the panic of
-- write_uint32. The fuel is the number of the bytes; a round takes at least one. The mark of a chunk
-- of less than four bytes goes over its end, onto bytes that the next mark sets to zero too.
unfoldable pub free_chunks : ℕ → ℕ → Bytes → Option (List Bytes)
free_chunks zero size block = some []
free_chunks (suc fuel) size block =
    let more = free_chunks fuel size (drop size block) in
    if ltb (length block) size
    then some []
    else if ltb (length block) 4
    then none
    else elim more [ none ↦ none | some cs ↦ some (write_uint32 (take size block) 0 0 ∷ cs) ]

-- The numbers of as many chunks as there are, from `i` on; `uint32(chunkNum)`.
unfoldable pub numbers_from : ℕ → List Bytes → List ℕ
numbers_from i [] = []
numbers_from i (c ∷ cs) = (i % 2 ^ 32) ∷ numbers_from (i + 1) cs

-- The size of a chunk comes as a signed number of 64 bits and is cut to 32 bits.
unfoldable pub format : Bool → Bool → Bytes → ℕ → KvBuffer ⊎ NewError
unfolding free_chunks numbers_from new_lru on_evicted
format open_lru told block chunk_size =
    let size = chunk_size % 2 ^ 32 in
    if ltb (length block) 1024
    then inr small_data
    else if leb (2 ^ 63) chunk_size || ltb chunk_size 32
    then inr small_chunk
    else if size == 0
    then inr no_end
    else elim (free_chunks (length block) size (drop header_size block)) [
      | none ↦ inr panics
      | some memory ↦
          let num = length memory % 2 ^ 32 in
          elim (new_lru num (some (on_evicted told))) [
            | none ↦ inr nil_cache
            | some c ↦ inl (record {
              size = length block;
              chunk_size = size;
              chunk_num = num;
              store = record { memory = memory; free = numbers_from 1 memory; deleted = [] };
              lru = c;
              open_lru = open_lru;
            })
          ]
    ]

-- The chunk at place `i` of a memory that is cut into chunks and marked.
abbrev pub marked_chunk : ℕ → ℕ → Bytes → Bytes
marked_chunk i size block = write_uint32 (take size (drop (i * size) block)) 0 0

-- The chunks of a memory: whole, as many as fit, and each marked.
abbrev pub AreChunks : ℕ → Bytes → List Bytes → Type 0
AreChunks size block cs =
    OfSize size cs
    × (length cs * size ≤ length block)
    × (length block < length cs * size + size)
    × ((i : ℕ) → i < length cs → get_or cs i [] ≡ marked_chunk i size block)

no_chunks : (size : ℕ) (block : Bytes) → length block < size → AreChunks size block []
no_chunks size block h = (tt, omega arith, omega arith, λ i lt. absurd (omega arith))

more_marks :
    (size : ℕ) (block : Bytes) (cs : List Bytes)
    → ((i : ℕ) → i < length cs → get_or cs i [] ≡ marked_chunk i size (drop size block))
    → (i : ℕ) → i < suc (length cs)
    → get_or (write_uint32 (take size block) 0 0 ∷ cs) i [] ≡ marked_chunk i size block
more_marks size block cs marks zero lt =
    let start : 0 * size ≡ 0 = omega arith in
    ap (λ n. write_uint32 (take size (drop n block)) 0 0) (sym start)
more_marks size block cs marks (suc i) lt =
    let place : suc i * size ≡ size + i * size = omega arith in
    marks i (omega arith)
    ∙ ap (λ b. write_uint32 (take size b) 0 0) (drop-drop size (i * size) block)
    ∙ ap (λ n. write_uint32 (take size (drop n block)) 0 0) (sym place)

one_more :
    (size : ℕ) (block : Bytes) (cs : List Bytes)
    → size ≤ length block
    → AreChunks size (drop size block) cs
    → AreChunks size block (write_uint32 (take size block) 0 0 ∷ cs)
one_more size block cs fits (sizes, least, most, marks) =
    let left = length-drop size block in
    let product : (length cs + 1) * size ≡ length cs * size + size = omega arith in
    (
      (length-copy_at (take size block) 0 _ ∙ ground (arith, fits, length-take size block), sizes),
      ground (arith, product, left),
      ground (arith, product, left),
      more_marks size block cs marks,
    )

free_chunks-AreChunks :
    (fuel size : ℕ) (block : Bytes)
    → 4 ≤ size
    → length block ≤ fuel
    → (cs : List Bytes) × (free_chunks fuel size block ≡ some cs) × AreChunks size block cs
unfolding free_chunks
free_chunks-AreChunks zero size block h enough = ([], refl, no_chunks size block (omega arith))
free_chunks-AreChunks (suc fuel) size block h enough = elim (Bool-cases (ltb (length block) size)) [
  | inl e ↦ ([], ground (arith, e), no_chunks size block (ground (arith, e)))
  | inr e ↦
      let (cs, made, chunks) =
        free_chunks-AreChunks fuel size (drop size block) h
          (ground (arith, e, length-drop size block)) in
      (
        write_uint32 (take size block) 0 0 ∷ cs,
        ground (arith, e, made),
        one_more size block cs (ground (arith, e)) chunks,
      )
]

after-numbers_from :
    (i j : ℕ) (cs : List Bytes)
    → i < j
    → j + length cs ≤ 2 ^ 32
    → All (λ k. i ≢ k) (numbers_from j cs)
unfolding numbers_from
after-numbers_from i j [] h fits = tt
after-numbers_from i j (c ∷ cs) h fits =
    (λ e. absurd (omega (arith, e)), after-numbers_from i (j + 1) cs (omega arith) (omega arith))

numbers_from-Apart :
    (i n : ℕ) (cs : List Bytes)
    → 1 ≤ i
    → i + length cs ≤ n + 1
    → n < 2 ^ 32
    → Apart n (numbers_from i cs)
unfolding numbers_from
numbers_from-Apart i n [] h fits small = tt
numbers_from-Apart i n (c ∷ cs) h fits small = (
  omega arith,
  omega arith,
  (let same : i % 2 ^ 32 ≡ i = omega arith in
      rw same (after-numbers_from i (i + 1) cs (omega arith) (omega arith))),
  numbers_from-Apart (i + 1) n cs (omega arith) (omega arith) small,
)

length-numbers_from : (i : ℕ) (cs : List Bytes) → length (numbers_from i cs) ≡ length cs
unfolding numbers_from
length-numbers_from i [] = refl
length-numbers_from i (c ∷ cs) = ap suc (length-numbers_from (i + 1) cs)

at_least : (n size : ℕ) → 4 ≤ size → n ≤ n * size
at_least zero size h = omega arith
at_least (suc n) size h = omega (arith, at_least n size h)

first_fits : (n size : ℕ) → 0 < n → size ≤ n * size
first_fits zero size h = absurd (omega arith)
first_fits (suc n) size h = omega arith

-- An empty cache with a place for each chunk. The chunks are those of the memory behind the header,
-- whole and as many as fit, each marked free; all of them are in the free list, each once.
abbrev pub IsFresh : Bytes → ℕ → KvBuffer → Type 0
IsFresh block chunk_size b =
    IsValid str_discrete b.lru
    × (entries b.lru ≡ [])
    × (b.lru.size ≡ b.chunk_num)
    × (b.chunk_size ≡ chunk_size)
    × (b.chunk_num ≡ length b.store.memory)
    × AreChunks chunk_size (drop header_size block) b.store.memory
    × Apart b.chunk_num b.store.free
    × (length b.store.free ≡ b.chunk_num)

-- On a block of 1024 bytes at least that is below 4 GB, and for a chunk size from 32 on that 32 bits
-- hold, NewKVBuffer ends in one of two ways. If a chunk fits behind the header of 16 bytes, it makes a
-- buffer: its cache is empty and has a place for each chunk, its chunks are those of the memory behind
-- the header, of the size asked for, as many as fit and each marked free, and all of them are listed
-- as free, each once. If none fits, it returns a buffer whose cache is nil.
pub format-IsFresh :
    (open_lru told : Bool) (block : Bytes) (chunk_size : ℕ)
    → 1024 ≤ length block
    → length block < 2 ^ 32
    → 32 ≤ chunk_size
    → chunk_size < 2 ^ 32
    → ((b : KvBuffer) × (format open_lru told block chunk_size ≡ inl b)
        × (chunk_size + header_size ≤ length block)
        × IsFresh block chunk_size b)
      ⊎ ((length block < chunk_size + header_size)
          × (format open_lru told block chunk_size ≡ inr nil_cache))
unfolding format
format-IsFresh open_lru told block chunk_size large small least most =
    let size : chunk_size % 2 ^ 32 ≡ chunk_size = omega arith in
    let memory = drop header_size block in
    let left = length-drop header_size block in
    let (cs, made, chunks) =
      free_chunks-AreChunks (length block) chunk_size memory (omega arith) (omega arith) in
    let few = at_least (length cs) chunk_size (omega arith) in
    let num : length cs % 2 ^ 32 ≡ length cs = omega (arith, chunks.1, few, left) in
    elim (new_lru-IsValid str_discrete (length cs % 2 ^ 32) (some (on_evicted told))) [
      | inl (z, e) ↦
          let nothing : 0 * chunk_size ≡ 0 = omega arith in
          let none_fits : length cs * chunk_size ≡ 0 =
            ap (λ n. n * chunk_size) (sym num ∙ z) ∙ nothing in
          inr (omega (arith, none_fits, chunks.2, left), ground (arith, size, made, e))
      | inr (c, e, valid, places, pos, empty) ↦
          let b : KvBuffer = record {
            size = length block;
            chunk_size = chunk_size % 2 ^ 32;
            chunk_num = length cs % 2 ^ 32;
            store = record { memory = cs; free = numbers_from 1 cs; deleted = [] };
            lru = c;
            open_lru = open_lru;
          } in
          let fits = first_fits (length cs) chunk_size (omega (arith, num, pos)) in
          inl (
            b,
            ground (arith, size, made, e),
            omega (arith, fits, chunks.1, left),
            (
              valid,
              ap (λ es. map entry es) empty,
              places,
              size,
              num,
              chunks,
              numbers_from-Apart 1 _ cs (omega arith) (omega arith) (omega arith),
              length-numbers_from 1 cs ∙ sym num,
            ),
          )
    ]
