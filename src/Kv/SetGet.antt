-- ===== src/Kv/SetGet.antt =====
-- A Set for a new key in stkvbuffer/kvbuffer.go, and the Get behind it.
use gotools.Common.{
  ℕ, zero, suc, ◌+◌, ◌-◌, ◌*◌, ◌/◌, ◌%◌, ◌^◌, ◌≤◌, ◌<◌, ◌≡◌, ◌≢◌, refl, sym, ap, ◌∙◌, arith, List,
  [], ◌∷◌, length, length-append, length-drop, length-set, length-take, dec_lt, take, drop, set,
  get_or, All, none, some,
}
use mathlib.Core.Path.{subst}
use gotools.Common.Places.{get_or-set, get_or-set_ne}
use gotools.Common.Assoc.{get}
use gotools.Config.Text.{str_discrete}
use gotools.Lru.{add, get_value}
use gotools.Lru.Valid.{IsValid, lookup_elem_lem, add-IsValid}
use gotools.Lru.Refine.{entries, get-entries, get_value-entries}
use gotools.Lru.Evict.{add-entries}
use gotools.Kv.{Bytes, get_val, bytes_of, write_node, chunks_needed}
use gotools.Kv.Written.{body, payload, write_node-sizes}
use gotools.Kv.ReadBack.{OfSize, get-write_node}
use gotools.Kv.Buffer.{
  Node, Store, Cache, KvBuffer, chunk_at, chunks_at, numbered, put_chunks, kv_get, kv_set, set_new,
  make_room, place,
}

length-body-times :
    (size : ℕ) (cs : List Bytes) → OfSize size cs → length (body cs) ≡ length cs * (size - 4)
length-body-times size [] sizes = omega arith
length-body-times size (c ∷ cs) sizes =
    let times : suc (length cs) * (size - 4) ≡ (size - 4) + length cs * (size - 4) = omega arith in
    omega (
      arith,
      times,
      length-append (drop 4 c) (body cs),
      length-drop 4 c,
      sizes.0,
      length-body-times size cs sizes.1,
    )

length-payload-times :
    (size : ℕ) (cs : List Bytes)
    → OfSize size cs
    → 12 ≤ size
    → 1 ≤ length cs
    → length (payload cs) + 8 ≡ length cs * (size - 4)
length-payload-times size [] sizes h one = absurd (omega arith)
length-payload-times size (c ∷ cs) sizes h one =
    let times : suc (length cs) * (size - 4) ≡ (size - 4) + length cs * (size - 4) = omega arith in
    omega (
      arith,
      times,
      length-append (drop 12 c) (body cs),
      length-drop 12 c,
      sizes.0,
      length-body-times size cs sizes.1,
    )

factor-pos : (q m need : ℕ) → need ≡ q * m → 1 ≤ need → 1 ≤ q
factor-pos zero m need e h = absurd (omega arith)
factor-pos (suc q) m need e h = omega arith

-- The chunks that Set asks for have the room that it needs.
chunks_needed-le :
    (size need : ℕ)
    → 12 ≤ size
    → 1 ≤ need
    → (need ≤ chunks_needed size need * (size - 4)) × (1 ≤ chunks_needed size need)
unfolding chunks_needed
chunks_needed-le size need h some_need =
    let m : ℕ = size - 4 in
    let q : ℕ = need / m in
    let divided : need ≡ q * m + need % m = omega arith in
    let rest : need % m < m = omega arith in
    let more : (q + 1) * m ≡ q * m + m = omega arith in
    elim (dec_lt 0 (need % m)) [
      | yes p ↦ (ground (arith, p, divided, rest, more), ground (arith, p))
      | no n ↦
          let exact : need ≡ q * m = omega arith in
          let one : 1 ≤ q = factor-pos q m need exact some_need in
          (ground (arith, n, exact), ground (arith, n, one))
    ]

-- Numbers of chunks, from 1 on and within the memory, no two the same.
abbrev pub Apart : ℕ → List ℕ → Type 0
Apart n [] = Unit
Apart n (i ∷ is) = (1 ≤ i) × (i ≤ n) × All (λ j. i ≢ j) is × Apart n is

pub chunk_at-put_chunks :
    (i : ℕ) (is : List ℕ) (ds m : List Bytes)
    → 1 ≤ i
    → All (λ j. i ≢ j) is
    → Apart (length m) is
    → chunk_at (put_chunks is ds m) i ≡ chunk_at m i
chunk_at-put_chunks i [] ds m h other apart = refl
chunk_at-put_chunks i (j ∷ is) [] m h other apart = refl
chunk_at-put_chunks i (j ∷ is) (d ∷ ds) m h other apart =
    let keeps = length-set m (j - 1) d in
    let rest : Apart (length (set m (j - 1) d)) is = rw keeps apart.3 in
    let ne : j - 1 ≢ i - 1 = λ e. other.0 (omega arith) in
    chunk_at-put_chunks i is ds (set m (j - 1) d) h other.1 rest
    ∙ get_or-set_ne m (j - 1) (i - 1) d [] ne

-- What is put into chunks is there.
chunks_at-put_chunks :
    (is : List ℕ) (ds m : List Bytes)
    → Apart (length m) is
    → length ds ≡ length is
    → chunks_at (put_chunks is ds m) is ≡ ds
chunks_at-put_chunks [] [] m apart same = refl
chunks_at-put_chunks [] (d ∷ ds) m apart same = absurd (omega arith)
chunks_at-put_chunks (i ∷ is) [] m apart same = absurd (omega arith)
chunks_at-put_chunks (i ∷ is) (d ∷ ds) m apart same =
    let keeps = length-set m (i - 1) d in
    let m' = set m (i - 1) d in
    let rest : Apart (length m') is = rw keeps apart.3 in
    let here : chunk_at (put_chunks is ds m') i ≡ d =
      chunk_at-put_chunks i is ds m' apart.0 apart.2 rest
      ∙ get_or-set m (i - 1) d [] (omega arith) in
    rw here (ap (◌∷◌ d) (chunks_at-put_chunks is ds m' rest (omega arith)))

bytes_of-numbered : (m : List Bytes) (is : List ℕ) → bytes_of (numbered m is) ≡ chunks_at m is
bytes_of-numbered m [] = refl
bytes_of-numbered m (i ∷ is) = ap (◌∷◌ (chunk_at m i)) (bytes_of-numbered m is)

length-numbered : (m : List Bytes) (is : List ℕ) → length (numbered m is) ≡ length is
length-numbered m [] = refl
length-numbered m (i ∷ is) = ap suc (length-numbered m is)

length-chunks_at : (m : List Bytes) (is : List ℕ) → length (chunks_at m is) ≡ length is
length-chunks_at m [] = refl
length-chunks_at m (i ∷ is) = ap suc (length-chunks_at m is)

-- A key that the cache does not have is not found, and the cache stays as it is.
pub get_value-absent :
    (key : Bytes) (c : Cache)
    → IsValid str_discrete c
    → get str_discrete key (entries c) ≡ none
    → get_value str_discrete key c ≡ (c, none)
unfolding get_value
get_value-absent key c valid gone = ground (
  arith,
  lookup_elem_lem str_discrete key c valid,
  get-entries str_discrete key c.evict_list,
  gone,
)

get-take_first :
    (key : Bytes) (node : Node) (n : ℕ) (es : List (Bytes × Node))
    → 0 < n
    → get str_discrete key (take n ((key, node) ∷ es)) ≡ some node
unfolding get
get-take_first key node zero es h = absurd (omega arith)
get-take_first key node (suc n) es h = ground arith

-- A new node is what the cache has under its key, and nothing is evicted for it, if there is a place.
pub add-new :
    (key : Bytes) (node : Node) (c : Cache) (s : Store)
    → IsValid str_discrete c
    → get str_discrete key (entries c) ≡ none
    → length c.evict_list < c.size
    → ((get_value str_discrete key (add str_discrete key node (c, s)).0.0).1 ≡ some node)
      × ((add str_discrete key node (c, s)).0.1 ≡ s)
unfolding get
add-new key node c s valid gone room =
    let (view, over, told) =
      add-entries str_discrete key node c s valid (omega arith) (omega arith) in
    let valid' = (add-IsValid str_discrete key node c s valid (omega arith)).0 in
    let found =
      (get_value-entries str_discrete key (add str_discrete key node (c, s)).0.0 valid').0 in
    (
      found
          ∙ ap (λ es. get str_discrete key es) view
          ∙ get-take_first key node c.size _ (omega arith),
      ground (arith, over, gone, told),
    )

length-get_or :
    (size : ℕ) (m : List Bytes) (i : ℕ)
    → OfSize size m
    → i < length m
    → length (get_or m i []) ≡ size
length-get_or size [] i sizes h = absurd (omega arith)
length-get_or size (c ∷ m) zero sizes h = sizes.0
length-get_or size (c ∷ m) (suc i) sizes h = length-get_or size m i sizes.1 (omega arith)

chunks_at-OfSize :
    (size : ℕ) (m : List Bytes) (is : List ℕ)
    → OfSize size m
    → Apart (length m) is
    → OfSize size (chunks_at m is)
chunks_at-OfSize size m [] sizes apart = tt
chunks_at-OfSize size m (i ∷ is) sizes apart = (
  length-get_or size m (i - 1) sizes (omega (arith, apart.0, apart.1)),
  chunks_at-OfSize size m is sizes apart.3,
)

pub All-take : (P : ℕ → Type 0) (n : ℕ) (is : List ℕ) → All P is → All P (take n is)
All-take P zero is h = tt
All-take P (suc n) [] h = tt
All-take P (suc n) (i ∷ is) h = (h.0, All-take _ n is h.1)

pub take-Apart : (n m : ℕ) (is : List ℕ) → Apart m is → Apart m (take n is)
take-Apart zero m is h = tt
take-Apart (suc n) m [] h = tt
take-Apart (suc n) m (i ∷ is) h = (h.0, h.1, All-take _ n is h.2, take-Apart n m is h.3)

pub make_room-none :
    (fuel need : ℕ) (b : KvBuffer) → need ≤ length b.store.free → make_room fuel need b ≡ (b, none)
unfolding make_room
make_room-none zero need b h = ground arith
make_room-none (suc fuel) need b h = ground arith

-- The first chunks of the free list, written and read back.
get_val-placed :
    (size need : ℕ) (key val : Bytes) (m : List Bytes) (free : List ℕ)
    → OfSize size m
    → Apart (length m) free
    → 12 ≤ size
    → 0 < length val
    → need ≡ chunks_needed size (length key + length val + 8)
    → need ≤ length free
    → get_val
        (chunks_at
          (put_chunks (take need free) (write_node size key val (numbered m (take need free))) m)
          (take need free))
        (length key)
        (length val)
      ≡ some val
get_val-placed size need key val m free sizes apart h some_val e enough =
    let is = take need free in
    let cs = numbered m is in
    let apart' = take-Apart need (length m) free apart in
    let count : length is ≡ need = omega (arith, length-take need free) in
    let (covers, one) = chunks_needed-le size (length key + length val + 8) h (omega arith) in
    let same = bytes_of-numbered m is in
    let sizes' : OfSize size (bytes_of cs) =
      subst (OfSize size) (sym same) (chunks_at-OfSize size m is sizes apart') in
    let long : length (bytes_of cs) ≡ need =
      ap (λ (t : List Bytes). length t) same ∙ length-chunks_at m is ∙ count in
    let room = length-payload-times size (bytes_of cs) sizes' h (omega (arith, long, one, e)) in
    let space : length key + length val ≤ length (payload (bytes_of cs)) =
      omega (arith, room, covers, ap (λ (n : ℕ). n * (size - 4)) (long ∙ e)) in
    let written = write_node-sizes size key val cs sizes' h in
    let there =
      chunks_at-put_chunks is (write_node size key val cs) m apart'
        (written.1 ∙ length-numbered m is) in
    rw there (get-write_node size key val cs sizes' h (omega arith) space).1

-- On a buffer that is in order, with chunks of 12 bytes at least, a place in the cache and enough free
-- chunks, a Set of a new key with a value that is not empty, of sizes within the limits that Set tests,
-- succeeds, and a Get behind it finds that value.
pub kv_get-kv_set :
    (key val : Bytes) (b : KvBuffer)
    → IsValid str_discrete b.lru
    → OfSize b.chunk_size b.store.memory
    → Apart (length b.store.memory) b.store.free
    → 12 ≤ b.chunk_size
    → get str_discrete key (entries b.lru) ≡ none
    → length b.lru.evict_list < b.lru.size
    → 0 < length val
    → length key + length val + 8 < 2 ^ 32
    → length key + length val + 8 ≤ (b.chunk_size - 4) * b.chunk_num % 2 ^ 32
    → chunks_needed b.chunk_size (length key + length val + 8) ≤ length b.store.free
    → ((kv_set key val b).1 ≡ none) × ((kv_get key (kv_set key val b).0).1 ≡ some (some val))
unfolding kv_set kv_get set_new place
kv_get-kv_set key val b valid sizes apart h gone room some_val small fits enough =
    let need = chunks_needed b.chunk_size (length key + length val + 8) in
    let free = b.store.free in
    let is = take need free in
    let node : Node = record { chunks = is; key_size = length key; val_size = length val } in
    let written =
      put_chunks is (write_node b.chunk_size key val (numbered b.store.memory is)) b.store.memory in
    let s : Store = record b.store { memory = written; free = drop need free } in
    let absent = get_value-absent key b.lru valid gone in
    let whole : (length key + length val + 8) % 2 ^ 32 ≡ length key + length val + 8 =
      omega arith in
    let roomy = make_room-none (length b.lru.evict_list) need (record b { lru = b.lru }) enough in
    let (found, kept) = add-new key node b.lru s valid gone room in
    let placed =
      get_val-placed b.chunk_size need key val b.store.memory free sizes apart h some_val refl
        enough in
    (
      ground (arith, whole, absent, roomy, fits),
      ground (arith, whole, absent, roomy, fits, found, kept, placed),
    )
