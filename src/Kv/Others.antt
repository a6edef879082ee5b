-- ===== src/Kv/Others.antt =====
-- A Set for a new key in stkvbuffer/kvbuffer.go, and the Get of another key behind it.
use gotools.Common.{
  ℕ, ◌+◌, ◌-◌, ◌*◌, ◌%◌, ◌^◌, ◌≤◌, ◌<◌, ◌≡◌, ◌≢◌, refl, ap, ◌∙◌, arith, List, [], ◌∷◌, length,
  length-map, take, drop, take_of_length-le, All, none, some,
}
use gotools.Common.Assoc.{get, delete, get-delete, length-delete-le}
use gotools.Config.Text.{str_discrete}
use gotools.Lru.{add, get_value}
use gotools.Lru.Valid.{IsValid, add-IsValid}
use gotools.Lru.Refine.{entry, entries, get_value-entries}
use gotools.Lru.Evict.{add-entries}
use gotools.Kv.{Bytes, write_node, chunks_needed}
use gotools.Kv.Buffer.{
  Node, Store, Cache, KvBuffer, chunk_at, chunks_at, numbered, put_chunks, kv_get, kv_set, set_new,
  place,
}
use gotools.Kv.SetGet.{
  Apart, take-Apart, All-take, chunk_at-put_chunks, get_value-absent, add-new, make_room-none,
}

-- The chunks of a node are chunks, and none of them is in the list.
abbrev pub Off : List ℕ → List ℕ → Type 0
Off is js = All (λ j. (1 ≤ j) × All (λ i. j ≢ i) is) js

chunks_at-Off :
    (is js : List ℕ) (ds m : List Bytes)
    → Apart (length m) is
    → Off is js
    → chunks_at (put_chunks is ds m) js ≡ chunks_at m js
chunks_at-Off is [] ds m apart off = refl
chunks_at-Off is (j ∷ js) ds m apart off =
    rw (chunk_at-put_chunks j is ds m off.0.0 off.0.1 apart)
      (ap (◌∷◌ (chunk_at m j)) (chunks_at-Off is js ds m apart off.1))

take-Off : (n : ℕ) (is js : List ℕ) → Off is js → Off (take n is) js
take-Off n is [] off = tt
take-Off n is (j ∷ js) off = ((off.0.0, All-take _ n is off.0.1), take-Off n is js off.1)

-- The other keys have their nodes behind an Add.
add-others :
    (key j : Bytes) (node : Node) (c : Cache) (s : Store)
    → IsValid str_discrete c
    → length c.evict_list < c.size
    → key ≢ j
    → (get_value str_discrete j (add str_discrete key node (c, s)).0.0).1
      ≡ get str_discrete j (entries c)
unfolding get
add-others key j node c s valid room other =
    let view = (add-entries str_discrete key node c s valid (omega arith) (omega arith)).0 in
    let valid' = (add-IsValid str_discrete key node c s valid (omega arith)).0 in
    let found =
      (get_value-entries str_discrete j (add str_discrete key node (c, s)).0.0 valid').0 in
    let es = delete str_discrete key (entries c) in
    let all : length (entries c) ≡ length c.evict_list = length-map c.evict_list entry in
    let short = length-delete-le str_discrete key (entries c) in
    let whole : take c.size ((key, node) ∷ es) ≡ (key, node) ∷ es =
      take_of_length-le c.size ((key, node) ∷ es) (omega arith) in
    let look = get-delete str_discrete key j (entries c) in
    found ∙ ap (λ l. get str_discrete j l) (view ∙ whole) ∙ ground (arith, other, look)

-- On a buffer that is in order, with a place in the cache and enough free chunks, a Set of a new
-- key within the limits that Set tests leaves what Get finds under another key as it was, if none
-- of that key's chunks is listed as free.
pub kv_get-kv_set_others :
    (key val j : Bytes) (node : Node) (b : KvBuffer)
    → IsValid str_discrete b.lru
    → Apart (length b.store.memory) b.store.free
    → get str_discrete key (entries b.lru) ≡ none
    → length b.lru.evict_list < b.lru.size
    → length key + length val + 8 < 2 ^ 32
    → length key + length val + 8 ≤ (b.chunk_size - 4) * b.chunk_num % 2 ^ 32
    → chunks_needed b.chunk_size (length key + length val + 8) ≤ length b.store.free
    → get str_discrete j (entries b.lru) ≡ some node
    → Off b.store.free node.chunks
    → (kv_get j (kv_set key val b).0).1 ≡ (kv_get j b).1
unfolding kv_set kv_get set_new place
kv_get-kv_set_others key val j node b valid apart gone room small fits enough there off =
    let need = chunks_needed b.chunk_size (length key + length val + 8) in
    let free = b.store.free in
    let is = take need free in
    let new : Node = record { chunks = is; key_size = length key; val_size = length val } in
    let ds = write_node b.chunk_size key val (numbered b.store.memory is) in
    let written = put_chunks is ds b.store.memory in
    let s : Store = record b.store { memory = written; free = drop need free } in
    let absent = get_value-absent key b.lru valid gone in
    let whole : (length key + length val + 8) % 2 ^ 32 ≡ length key + length val + 8 =
      omega arith in
    let roomy = make_room-none (length b.lru.evict_list) need (record b { lru = b.lru }) enough in
    let other : key ≢ j = λ e. absurd (ground (arith, gone, there, e)) in
    let found = add-others key j new b.lru s valid room other ∙ there in
    let kept = (add-new key new b.lru s valid gone room).1 in
    let before = (get_value-entries str_discrete j b.lru valid).0 ∙ there in
    let same =
      chunks_at-Off is node.chunks ds b.store.memory
        (take-Apart need (length b.store.memory) free apart) (take-Off need free node.chunks off) in
    ground (arith, whole, absent, roomy, fits, found, kept, before, same)
