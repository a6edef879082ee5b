-- ===== src/Kv/Buffer.antt =====
-- The KVBuffer of stkvbuffer/kvbuffer.go: its memory and free list, which the callback of the LRU cache
-- changes too, and Get, Set, Del and Stat. A node holds the numbers of its chunks.
use gotools.Common.{
  ℕ, zero, suc, ◌+◌, ◌-◌, ◌*◌, ◌/◌, ◌%◌, ◌^◌, ◌≤◌, ◌<◌, List, [], ◌∷◌, ◌++◌, ltb, leb, ◌==◌, length,
  take, drop, set, get_or, replicate, map, Bool, true, false, not, Option, none, some,
  if◌then◌else◌,
}
use gotools.Config.Text.{str_discrete}
use gotools.Lru.{Lru, keys, remove_oldest, add, get_value, remove}
use gotools.Kv.{
  Bytes, Chunk, write_uint32, get_val, get_val_pos, write_node, chunks_needed, next_of,
}
use mathlib.Core.List.{reverse}

pub record Node : Type 0 where
  pub chunks : List ℕ
  pub key_size : ℕ
  pub val_size : ℕ

-- What an eviction changes: the memory, by chunks, the chunks that are free, in their order, and the
-- calls of onLruDel, each with what GetVal makes of the value.
pub record Store : Type 0 where
  pub memory : List Bytes
  pub free : List ℕ
  pub deleted : List (Bytes × Option Bytes)

abbrev pub Cache : Type 0
Cache = Lru Bytes Node Store

pub record KvBuffer : Type 0 where
  pub size : ℕ
  pub chunk_size : ℕ
  pub chunk_num : ℕ
  pub store : Store
  pub lru : Cache
  pub open_lru : Bool

-- The bytes of chunk i, which begins with 1.
abbrev pub chunk_at : List Bytes → ℕ → Bytes
chunk_at memory i = get_or memory (i - 1) []

abbrev pub chunks_at : List Bytes → List ℕ → List Bytes
chunks_at memory [] = []
chunks_at memory (i ∷ is) = chunk_at memory i ∷ chunks_at memory is

abbrev pub numbered : List Bytes → List ℕ → List Chunk
numbered memory [] = []
numbered memory (i ∷ is) = (i, chunk_at memory i) ∷ numbered memory is

abbrev pub put_chunks : List ℕ → List Bytes → List Bytes → List Bytes
put_chunks [] ds memory = memory
put_chunks (i ∷ is) [] memory = memory
put_chunks (i ∷ is) (d ∷ ds) memory = put_chunks is ds (set memory (i - 1) d)

abbrev pub insert_free : ℕ → List ℕ → List ℕ
insert_free i [] = i ∷ []
insert_free i (j ∷ js) = if ltb j i then j ∷ insert_free i js else i ∷ j ∷ js

-- delChunk
abbrev pub del_chunk : ℕ → Store → Store
del_chunk i s = record s {
  memory = set s.memory (i - 1) (write_uint32 (chunk_at s.memory i) 0 0);
  free = insert_free i s.free;
}

-- delNode
abbrev pub del_chunks : List ℕ → Store → Store
del_chunks [] s = s
del_chunks (i ∷ is) s = del_chunks is (del_chunk i s)

-- The callback that newLRU gives to the cache; `told` is whether there is an onLruDel.
unfoldable pub on_evicted : Bool → Bytes → Node → Store → Store
unfolding get_val
on_evicted told key node s =
    let value = get_val (chunks_at s.memory node.chunks) node.key_size node.val_size in
    del_chunks node.chunks
      (if told then record s { deleted = s.deleted ++ (key, value) ∷ [] } else s)

-- Get: whether there is a value, and the value, or the panic of GetVal.
unfoldable pub kv_get : Bytes → KvBuffer → KvBuffer × Option (Option Bytes)
unfolding get_value str_discrete get_val
kv_get k b =
    let found = get_value str_discrete k b.lru in
    (
      record b { lru = found.0 },
      elim found.1 [
        | none ↦ none
        | some node ↦
            some (get_val (chunks_at b.store.memory node.chunks) node.key_size node.val_size)
      ],
    )

pub data SetError : Type 0 where
  too_long full no_end : SetError

-- `b.lru.removeOldest()`
unfoldable pub evict_oldest : KvBuffer → KvBuffer
unfolding remove_oldest str_discrete
evict_oldest b =
    let left = remove_oldest str_discrete (b.lru, b.store) in
    record b { lru = left.0; store = left.1 }

-- The loop that makes room for a new key; `no_end` stands for a loop that is not done by the fuel.
unfoldable pub make_room : ℕ → ℕ → KvBuffer → KvBuffer × Option SetError
unfolding evict_oldest
make_room zero need b = if leb need (length b.store.free) then (b, none) else (b, some no_end)
make_room (suc fuel) need b =
    let more = make_room fuel need (evict_oldest b) in
    if leb need (length b.store.free)
    then (b, none)
    else if not b.open_lru
    then (b, some full)
    else more

-- `chNeed > chNow` in an update: the chunks of the node so far.
unfoldable pub grow : ℕ → ℕ → List ℕ → KvBuffer → (KvBuffer × List ℕ) × Option SetError
unfolding evict_oldest
grow zero need now b = if leb need (length now) then ((b, now), none) else ((b, now), some no_end)
grow (suc fuel) need now b =
    let evicted = grow fuel need now (evict_oldest b) in
    let taken =
      grow fuel need (now ++ take 1 b.store.free)
        (record b { store = record b.store { free = drop 1 b.store.free } }) in
    if leb need (length now)
    then ((b, now), none)
    else if not (length b.store.free == 0)
    then taken
    else if not b.open_lru
    then ((b, now), some full)
    else evicted

-- The writing of an update into the chunks from the value's first on. What is left of the value stays
-- as it is in the last round.
unfoldable pub update_chunks : ℕ → ℕ → Bytes → List Chunk → List Bytes
update_chunks size start val [] = []
update_chunks size start val ((i, d) ∷ cs) =
    let linked = write_uint32 d 0 (next_of i cs) in
    let left = if ltb (size - start) (length val) then drop (size - start) val else val in
    let more = update_chunks size 4 left cs in
    (if ltb 0 (length val) then gotools.Common.copy_at linked start val else linked) ∷ more

-- The part of an update behind the two loops over chunks.
unfoldable pub rewrite_val : Bytes → Bytes → Node → KvBuffer → KvBuffer
unfolding get_val_pos update_chunks add str_discrete
rewrite_val key val node b =
    let pos = get_val_pos b.chunk_size node.key_size in
    let first = take 1 node.chunks in
    let sized =
      put_chunks first (map (λ d. write_uint32 d 8 (length val)) (chunks_at b.store.memory first))
        b.store.memory in
    let tail = drop pos.0 node.chunks in
    let written =
      put_chunks tail (update_chunks b.chunk_size pos.1 val (numbered sized tail)) sized in
    let added =
      add str_discrete key (record node { val_size = length val })
        (b.lru, record b.store { memory = written }) in
    record b { lru = added.0.0; store = added.0.1 }

-- Set for a key that is there.
unfoldable pub set_old : Bytes → Bytes → ℕ → Node → KvBuffer → KvBuffer × Option SetError
unfolding grow rewrite_val
set_old key val need node b =
    let grown = grow (need + length b.lru.evict_list) need node.chunks b in
    let b' = grown.0.0 in
    let over = reverse (drop need grown.0.1) in
    let shrunk = record b' { store = del_chunks over b'.store } in
    elim grown.1 [
      | some e ↦ (b', some e)
      | none ↦ (rewrite_val key val (record node { chunks = take need grown.0.1 }) shrunk, none)
    ]

-- Set for a new key, when there is room.
unfoldable pub place : Bytes → Bytes → ℕ → KvBuffer → KvBuffer
unfolding write_node add str_discrete
place key val need b =
    let is = take need b.store.free in
    let written =
      put_chunks is (write_node b.chunk_size key val (numbered b.store.memory is)) b.store.memory in
    let node : Node = record { chunks = is; key_size = length key; val_size = length val } in
    let added =
      add str_discrete key node
        (b.lru, record b.store { memory = written; free = drop need b.store.free }) in
    record b { lru = added.0.0; store = added.0.1 }

unfoldable pub set_new : Bytes → Bytes → ℕ → KvBuffer → KvBuffer × Option SetError
unfolding make_room place
set_new key val need b =
    let room = make_room (length b.lru.evict_list) need b in
    elim room.1 [ some e ↦ (room.0, some e) | none ↦ (place key val need room.0, none) ]

-- Set
unfoldable pub kv_set : Bytes → Bytes → KvBuffer → KvBuffer × Option SetError
unfolding get_value str_discrete chunks_needed set_old set_new
kv_set key val b =
    let need : ℕ = (length key + length val + 8) % 2 ^ 32 in
    let found = get_value str_discrete key b.lru in
    let b' = record b { lru = found.0 } in
    let chunks = chunks_needed b.chunk_size need in
    if ltb ((b.chunk_size - 4) * b.chunk_num % 2 ^ 32) need
    then (b, some too_long)
    else elim found.1 [
      | some node ↦ set_old key val chunks node b'
      | none ↦ set_new key val chunks b'
    ]

-- Del
unfoldable pub kv_del : Bytes → KvBuffer → KvBuffer × Bool
unfolding remove str_discrete
kv_del k b =
    let left = remove str_discrete k (b.lru, b.store) in
    (record b { lru = left.0.0; store = left.0.1 }, left.1)

abbrev pub kv_keys : KvBuffer → List Bytes
kv_keys b = keys b.lru
