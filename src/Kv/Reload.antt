-- ===== src/Kv/Reload.antt =====
-- NewKVBuffer of stkvbuffer/kvbuffer.go on a block that is formatted already, and both cases together.
-- The numbers of chunks are not cut to 32 bits here: for chunks of 32 bytes or more that would matter
-- from a block of 128 GB on.
use gotools.Common.{
  ℕ, zero, suc, ◌+◌, ◌-◌, ◌*◌, ◌%◌, ◌^◌, List, [], ◌∷◌, ◌++◌, ltb, ◌==◌, ◌&&◌, not, length, take,
  drop, get_or, map, Bool, true, false, none, some, if◌then◌else◌, inl, inr, ◌⊎◌, Outcome, ok, err,
  panic, ◌>>=◌, ℕ_discrete,
}
use gotools.Common.Assoc.{get, insert}
use gotools.Config.Text.{str_discrete}
use gotools.Lru.{new_lru, add, resize}
use gotools.Kv.{Bytes, Chunk, header_size, write_uint32, get_key}
use gotools.Kv.Buffer.{Node, Store, Cache, KvBuffer, on_evicted, chunks_at}
use gotools.Kv.Format.{format, NewError, small_data, nil_cache, no_end}

pub data LoadError : Type 0 where
  not_new : NewError → LoadError
  wrong_chunk_size wrong_size wrong_data bad_key : LoadError

-- read_uint32 and read_uint64, on a machine with the low byte first.
abbrev pub read_uint32 : Bytes → ℕ → ℕ
read_uint32 b i =
    get_or b i 0
    + get_or b (i + 1) 0 * 2 ^ 8
    + get_or b (i + 2) 0 * 2 ^ 16
    + get_or b (i + 3) 0 * 2 ^ 24

abbrev pub read_uint64 : Bytes → ℕ → ℕ
read_uint64 b i = read_uint32 b i + read_uint32 b (i + 4) * 2 ^ 32

-- The whole chunks behind the header, from 1 on. The fuel is the number of the bytes.
unfoldable pub whole_chunks : ℕ → ℕ → ℕ → Bytes → List Chunk
whole_chunks zero i size block = []
whole_chunks (suc fuel) i size block =
    let more = whole_chunks fuel (i + 1) size (drop size block) in
    if ltb (length block) size then [] else (i, take size block) ∷ more

-- What the loop over the chunks collects: those that are free, those that end a node, and from a chunk
-- the one before it.
pub record Found : Type 0 where
  pub free : List ℕ
  pub ends : List ℕ
  pub before : List (ℕ × ℕ)

unfoldable pub find_chunks : List Chunk → Found → Found
unfolding insert ℕ_discrete
find_chunks [] f = f
find_chunks ((i, d) ∷ cs) f =
    let next = read_uint32 d 0 in
    find_chunks cs (
      if next == 0
      then record f { free = f.free ++ i ∷ [] }
      else if i == next
      then record f { ends = f.ends ++ i ∷ [] }
      else record f { before = insert ℕ_discrete next i f.before })

-- The chunks of a node, from its last one back. No chunk comes up twice, so that as many rounds as
-- there are chunks are enough.
unfoldable pub chain : ℕ → List (ℕ × ℕ) → ℕ → List ℕ → List ℕ
unfolding get ℕ_discrete
chain zero before i is = is
chain (suc fuel) before i is = elim (get ℕ_discrete i before) [
  | none ↦ is
  | some p ↦ chain fuel before p (p ∷ is)
]

-- The node that ends at a chunk, and its key.
unfoldable pub load_node : ℕ → List Bytes → List ℕ → Outcome LoadError (Bytes × Node)
unfolding get_key
load_node size memory is =
    let first : Bytes = get_or (chunks_at memory is) 0 [] in
    let key_size = read_uint32 first 4 in
    let val_size = read_uint32 first 8 in
    if ltb ((length is * (size - 4) - 8) % 2 ^ 32) ((key_size + val_size) % 2 ^ 32)
    then err wrong_data
    else elim (get_key (chunks_at memory is) key_size) [
      | none ↦ panic bad_key
      | some key ↦ ok (key, record { chunks = is; key_size = key_size; val_size = val_size })
    ]

unfoldable pub load_nodes :
    ℕ → ℕ → List (ℕ × ℕ) → List ℕ → Cache × Store → Outcome LoadError (Cache × Store)
unfolding chain load_node add str_discrete
load_nodes size num before [] (c, s) = ok (c, s)
load_nodes size num before (e ∷ es) (c, s) = do
  (key, node) ← load_node size s.memory (chain num before e (e ∷ []))
  load_nodes size num before es (add str_discrete key node (c, s)).0

-- `new data`: the chunks behind those of the old size become free.
unfoldable pub extend : List Chunk → KvBuffer → KvBuffer
unfolding resize str_discrete
extend all b =
    let new = drop b.chunk_num all in
    let store : Store = record {
      memory = b.store.memory ++ map (λ c. write_uint32 c.1 0 0) new;
      free = b.store.free ++ map (λ c. c.0) new;
      deleted = b.store.deleted;
    } in
    let left = resize str_discrete (length all) (b.lru, store) in
    record b { chunk_num = length all; lru = left.0.0; store = left.0.1 }

abbrev pub as_loaded : KvBuffer ⊎ NewError → Outcome LoadError KvBuffer
as_loaded (inl b) = ok b
as_loaded (inr e) = err (not_new e)

-- The reading of a formatted block; the chunk size is cut to 32 bits. `not_new nil_cache` and
-- `not_new no_end` are no errors of Go: a buffer is returned whose cache is nil, and the loop over the
-- chunks does not end. With a nil cache the growth to a larger block panics. A chunk of less than four
-- bytes, over whose end Go reads the next number, is read as if zeros followed it.
unfoldable pub load : Bool → Bytes → ℕ → Outcome LoadError KvBuffer
unfolding whole_chunks find_chunks load_nodes extend new_lru on_evicted
load told block size =
    let chunk_size = size % 2 ^ 32 in
    let old_size = read_uint64 block 8 in
    let old = whole_chunks (length block) 1 chunk_size (drop header_size (take old_size block)) in
    let all = whole_chunks (length block) 1 chunk_size (drop header_size block) in
    let found = find_chunks old (record { free = []; ends = []; before = [] }) in
    let store : Store = record { memory = map (λ c. c.1) old; free = found.free; deleted = [] } in
    if not (read_uint32 block 4 == chunk_size)
    then err wrong_chunk_size
    else if ltb (length block) old_size
    then err wrong_size
    else if chunk_size == 0
    then err (not_new no_end)
    else elim (new_lru (length old) (some (on_evicted told))) [
      | none ↦
          if ltb old_size (length block) then panic (not_new nil_cache) else err (not_new nil_cache)
      | some cache ↦ do
        (c, s) ← load_nodes chunk_size (length old) found.before found.ends (cache, store)
        let b : KvBuffer = record {
          size = length block;
          chunk_size = chunk_size;
          chunk_num = length old;
          store = s;
          lru = c;
          open_lru = false;
        }
        ok (if ltb old_size (length block) then extend all b else b)
    ]

-- NewKVBuffer. NewLRUKVBuffer sets `open_lru`, and the function to be told of evictions, when this is
-- done, so nothing is told of an eviction during the reading.
unfoldable pub new_kv_buffer : Bytes → ℕ → Outcome LoadError KvBuffer
unfolding load format
new_kv_buffer block chunk_size =
    if ltb (length block) 1024
    then err (not_new small_data)
    else if get_or block 0 0 == 0xFE
        && get_or block 1 0 == 0xDC
        && get_or block 2 0 == 0xBA
        && get_or block 3 0 == 0x98
    then load false block chunk_size
    else as_loaded (format false false block chunk_size)

-- NewLRUKVBuffer
unfoldable pub new_lru_kv_buffer : Bool → Bytes → ℕ → Outcome LoadError KvBuffer
unfolding new_kv_buffer on_evicted
new_lru_kv_buffer told block chunk_size = do
  b ← new_kv_buffer block chunk_size
  ok (record b { open_lru = true; lru = record b.lru { on_evict = some (on_evicted told) } })
