-- ===== src/Kv.antt =====
-- stkvbuffer/kvbuffer.go and stkvbuffer/util.go: a key-value buffer in a block of memory that is cut
-- into chunks. A chunk is the list of its bytes, with the number of the chunk that follows it in its
-- first four bytes; the chunks of a node hold two sizes, the key and the value.
use gotools.Common.{
  ℕ, zero, suc, ◌+◌, ◌-◌, ◌*◌, ◌/◌, ◌%◌, ◌^◌, ◌≤◌, ◌<◌, List, [], ◌∷◌, ◌++◌, ltb, leb, ◌==◌, length,
  take, drop, copy_at, get_or, map, Bool, true, false, ◌||◌, ◌&&◌, Option, none, some,
  if◌then◌else◌,
}
pub mod Copies
pub mod Written
pub mod ReadBack
pub mod Buffer
pub mod SetGet
pub mod Others
pub mod Format
pub mod Reload
pub mod Stat
mod Tests

abbrev pub Bytes : Type 0
Bytes = List ℕ

-- HeaderSize
abbrev pub header_size : ℕ
header_size = 16

-- write_uint32, on a machine with the low byte first.

abbrev pub uint32_bytes : ℕ → Bytes
uint32_bytes n = (n % 256) ∷ (n / 2 ^ 8 % 256) ∷ (n / 2 ^ 16 % 256) ∷ (n / 2 ^ 24 % 256) ∷ []

abbrev pub write_uint32 : Bytes → ℕ → ℕ → Bytes
write_uint32 b i n = copy_at b i (uint32_bytes n)

abbrev pub after : Bytes → Option Bytes → Option Bytes
after front none = none
after front (some rest) = some (front ++ rest)

-- The loop over the further chunks in GetKey and GetVal, and what stands behind it; `none` is the
-- panic of an index behind the last chunk.
unfoldable pub get_rest : ℕ → ℕ → List Bytes → Option Bytes
get_rest size rest [] = if leb (size - 4) rest || ltb 0 rest then none else some []
get_rest size rest (c ∷ cs) =
    let more = get_rest size (rest - (size - 4)) cs in
    if leb (size - 4) rest
    then after (drop 4 c) more
    else if ltb 0 rest
    then some (take rest (drop 4 c))
    else some []

-- GetKey of a node, on the bytes of its chunks.
unfoldable pub get_key : List Bytes → ℕ → Option Bytes
unfolding get_rest
get_key [] key_size = none
get_key (c ∷ cs) key_size =
    if leb key_size (length c - 12)
    then some (take key_size (drop 12 c))
    else after (drop 12 c) (get_rest (length c) (key_size + 12 - length c) cs)

-- The loop of getValPos; each round takes from `rest`, which is the fuel.
unfoldable pub pos_loop : ℕ → ℕ → ℕ → ℕ → ℕ × ℕ
pos_loop zero size idx rest = (idx, rest)
pos_loop (suc fuel) size idx rest =
    let more = pos_loop fuel size (idx + 1) (rest - (size - 4)) in
    if leb (size - 4) rest then more else (idx, rest)

-- getValPos
unfoldable pub get_val_pos : ℕ → ℕ → ℕ × ℕ
unfolding pos_loop
get_val_pos size key_size =
    let rest = key_size + 12 - size in
    let found = pos_loop rest size 1 rest in
    if ltb key_size (size - 12) then (0, 12 + key_size) else (found.0, found.1 + 4)

abbrev pub get_val_at : ℕ → ℕ → ℕ → List Bytes → Option Bytes
get_val_at size start val_size [] = none
get_val_at size start val_size (c ∷ cs) =
    if leb val_size (size - start)
    then some (take val_size (drop start c))
    else after (drop start c) (get_rest size (val_size + start - size) cs)

-- GetVal
unfoldable pub get_val : List Bytes → ℕ → ℕ → Option Bytes
unfolding get_rest get_val_pos
get_val [] key_size val_size = none
get_val (c ∷ cs) key_size val_size =
    let pos = get_val_pos (length c) key_size in
    get_val_at (length c) pos.1 val_size (drop pos.0 (c ∷ cs))

-- A chunk: its number, which begins with 1, and its bytes.
abbrev pub Chunk : Type 0
Chunk = ℕ × Bytes

-- The number that goes to the front of a chunk: that of the next one, or its own at the end.
abbrev pub next_of : ℕ → List Chunk → ℕ
next_of i [] = i
next_of i ((j, d) ∷ cs) = j

-- What Set writes of the key into a chunk from `start` on: the chunk, what is left of the key, and
-- where the value goes on.
abbrev pub write_key : ℕ → ℕ → Bytes → Bytes → Bytes × Bytes × ℕ
write_key size start key c =
    if ltb 0 (length key)
    then (
      copy_at c start key,
      if ltb (size - start) (length key) then drop (size - start) key else [],
      if ltb (size - start) (length key) then size else start + length key,
    )
    else (c, key, start)

-- The same for the value, and whether the loop breaks off.
abbrev pub write_val : ℕ → ℕ → Bytes → Bytes → Bytes × Bytes × Bool
write_val size start val c =
    if ltb 0 (length val) && ltb start size
    then (
      copy_at c start val,
      if ltb (size - start) (length val) then drop (size - start) val else [],
      leb (length val) (size - start),
    )
    else (c, val, false)

abbrev pub bytes_of : List Chunk → List Bytes
bytes_of [] = []
bytes_of ((i, d) ∷ cs) = d ∷ bytes_of cs

-- The rounds of Set's loop for a new key behind the first.
unfoldable pub write_chunks : ℕ → Bytes → Bytes → List Chunk → List Bytes
write_chunks size key val [] = []
write_chunks size key val ((i, d) ∷ cs) =
    let linked = write_uint32 d 0 (next_of i cs) in
    let k = write_key size 4 key linked in
    let v = write_val size k.2 val k.0 in
    let more = write_chunks size k.1 v.1 cs in v.0 ∷ (if v.2 then bytes_of cs else more)

-- The chunks of a node that Set has written for a new key.
unfoldable pub write_node : ℕ → Bytes → Bytes → List Chunk → List Bytes
unfolding write_chunks
write_node size key val [] = []
write_node size key val ((i, d) ∷ cs) =
    let sized = write_uint32 (write_uint32 d 4 (length key)) 8 (length val) in
    let linked = write_uint32 sized 0 (next_of i cs) in
    let k = write_key size 12 key linked in
    let v = write_val size k.2 val k.0 in
    let more = write_chunks size k.1 v.1 cs in v.0 ∷ (if v.2 then bytes_of cs else more)

-- chNeed
unfoldable pub chunks_needed : ℕ → ℕ → ℕ
chunks_needed size need =
    if ltb 0 (need % (size - 4)) then need / (size - 4) + 1 else need / (size - 4)
