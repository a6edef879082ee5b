-- ===== src/Kv/Tests.antt =====
-- Runs of stkvbuffer/kvbuffer.go, and the theorems at concrete inputs.
use gotools.Common.{
  ◌+◌, ◌≤◌, ◌≡◌, refl, arith, [], ◌∷◌, length, replicate, true, false, none, some, inl, inr, ◌<◌,
  ◌⊎◌,
}
use gotools.Common.Assoc.{get, insert, delete}
use gotools.Config.Text.{str_discrete}
use gotools.Lru.{
  find_elem, remove_elem, back, new_lru, len, notify, lookup_elem, remove_element, remove_oldest,
  push_front, add, get_value, remove,
}
use gotools.Lru.Valid.{IsValid}
use gotools.Lru.Valid.Elems.{find_key}
use gotools.Lru.Refine.{entries}
use gotools.Kv.{
  Bytes, get_rest, get_key, pos_loop, get_val_pos, get_val, write_chunks, write_node, chunks_needed,
  header_size,
}
use gotools.Kv.ReadBack.{OfSize}
use gotools.Kv.Buffer.{
  Cache, KvBuffer, on_evicted, kv_get, kv_set, kv_del, evict_oldest, make_room, grow, update_chunks,
  rewrite_val, set_old, place, set_new,
}
use gotools.Kv.Others.{Off, kv_get-kv_set_others}
use gotools.Kv.SetGet.{Apart, kv_get-kv_set}
use gotools.Kv.Format.{
  format, free_chunks, numbers_from, IsFresh, format-IsFresh, nil_cache, no_end, panics,
}
use gotools.Common.{List, ℕ, ◌+◌, ◌^◌, ◌-◌, Option, ◌++◌, Outcome, ok, err, ℕ_discrete}
use gotools.Lru.{remove_oldest_times, resize}
use gotools.Kv.Reload.{
  LoadError, wrong_data, whole_chunks, find_chunks, chain, load_node, load_nodes, extend, load,
  new_kv_buffer, new_lru_kv_buffer,
}
use gotools.Kv.Buffer.{Node}
use gotools.Kv.Stat.{stat_loop, stat}
use mathlib.Core.List.{reverse}

program : Unit {0}
unfolding get insert delete str_discrete find_elem remove_elem back new_lru len notify lookup_elem
    remove_element remove_oldest push_front add get_value remove get_rest get_key pos_loop
    get_val_pos get_val write_chunks write_node chunks_needed on_evicted kv_get kv_set kv_del
    evict_oldest make_room grow update_chunks rewrite_val set_old place set_new format free_chunks
    numbers_from
program = tt

load_program : Unit {0}
unfolding whole_chunks find_chunks chain load_node load_nodes extend load new_kv_buffer
    new_lru_kv_buffer resize remove_oldest_times stat_loop stat ℕ_discrete
load_program = tt

abbrev cache : Cache
cache = record {
  size = 3;
  evict_list = [];
  items = [];
  on_evict = some (on_evicted false);
  fresh = 0;
}

-- Three chunks of 32 bytes.
abbrev three : KvBuffer
three = record {
  size = 112;
  chunk_size = 32;
  chunk_num = 3;
  store = record {
    memory = replicate 32 0 ∷ replicate 32 0 ∷ replicate 32 0 ∷ [];
    free = 1 ∷ 2 ∷ 3 ∷ [];
    deleted = [];
  };
  lru = cache;
  open_lru = true;
}

abbrev key : Bytes
key = b'k' ∷ []

-- A value of thirty bytes, for two chunks.
abbrev val : Bytes
val = replicate 30 7

stored : (kv_get key (kv_set key val three).0).1 ≡ some (some val)
unfolding program
stored = refl

-- An update that shrinks the node frees its second chunk.
shrunk : (kv_set key (1 ∷ []) (kv_set key val three).0).0.store.free ≡ 2 ∷ 3 ∷ []
unfolding program
shrunk = refl

updated :
    (kv_get key (kv_set key (replicate 60 5) (kv_set key val three).0).0).1
    ≡ some (some (replicate 60 5))
unfolding program
updated = refl

-- A new key for which there is no room drives the oldest out.
driven_out : (kv_get key (kv_set (b'j' ∷ []) (replicate 50 1) (kv_set key val three).0).0).1 ≡ none
unfolding program
driven_out = refl

-- Twenty bytes fill the first chunk; with an empty value GetVal goes behind the last chunk.
filled_by_key : (kv_get (replicate 20 3) (kv_set (replicate 20 3) [] three).0).1 ≡ some none
unfolding program
filled_by_key = refl

cache-IsValid : IsValid str_discrete cache
unfolding program find_key
cache-IsValid = record { distinct = tt; numbered = tt; agree = λ k. refl }

three-OfSize : OfSize 32 three.store.memory
three-OfSize = (refl, (refl, (refl, tt)))

three-Apart : Apart (length three.store.memory) three.store.free
three-Apart = (
  omega arith,
  omega arith,
  (λ e. absurd (omega arith), (λ e. absurd (omega arith), tt)),
  (omega arith, omega arith, (λ e. absurd (omega arith), tt), (omega arith, omega arith, tt, tt)),
)

key-absent : get str_discrete key (entries three.lru) ≡ none
unfolding program
key-absent = refl

needed : chunks_needed 32 (length key + length val + 8) ≤ length three.store.free
unfolding program
needed = omega arith

kv_get-kv_set_example :
    ((kv_set key val three).1 ≡ none) × ((kv_get key (kv_set key val three).0).1 ≡ some (some val))
kv_get-kv_set_example =
    kv_get-kv_set key val three cache-IsValid three-OfSize three-Apart (omega arith) key-absent
      (omega arith) (omega arith) (omega arith) (omega arith) needed

-- A block of 1024 bytes has two chunks of 500.
abbrev formatted : KvBuffer
formatted = record {
  size = 1024;
  chunk_size = 500;
  chunk_num = 2;
  store = record {
    memory = replicate 500 0 ∷ replicate 500 0 ∷ [];
    free = 1 ∷ 2 ∷ [];
    deleted = [];
  };
  lru = record {
    size = 2;
    evict_list = [];
    items = [];
    on_evict = some (on_evicted false);
    fresh = 0;
  };
  open_lru = false;
}

format-zeros : format false false (replicate 1024 0) 500 ≡ inl formatted
unfolding program
format-zeros = refl

-- One chunk more than a block of 1040 bytes has would fit if the header were not skipped.
abbrev zeros : Bytes
zeros = replicate 1040 0

format-IsFresh_example :
    ((b : KvBuffer) × (format false false zeros 260 ≡ inl b)
      × (260 + header_size ≤ length zeros)
      × IsFresh zeros 260 b)
    ⊎ ((length zeros < 260 + header_size) × (format false false zeros 260 ≡ inr nil_cache))
format-IsFresh_example =
    format-IsFresh false false zeros 260 (omega arith) (omega arith) (omega arith) (omega arith)

-- A chunk size that 32 bits cut to 1 makes the mark of the last chunk go over the end.
format-wraps : format false false zeros (2 ^ 32 + 1) ≡ inr panics
unfolding program
format-wraps = refl

format-endless : format false false zeros (2 ^ 32) ≡ inr no_end
unfolding program
format-endless = refl

-- The block of a buffer: the header and the chunks.
abbrev block_of : ℕ → List Bytes → Bytes
block_of size [] =
    0xFE ∷ 0xDC ∷ 0xBA ∷ 0x98 ∷ 32 ∷ 0 ∷ 0 ∷ 0 ∷ size ∷ 0 ∷ 0 ∷ 0 ∷ 0 ∷ 0 ∷ 0 ∷ 0 ∷ []
block_of size (c ∷ cs) = block_of size cs ++ c

abbrev block : KvBuffer → Bytes
block b = block_of b.size (reverse b.store.memory)

abbrev value_in : Outcome LoadError KvBuffer → Bytes → Option (Option Bytes)
value_in (ok b) k = (kv_get k b).1
value_in (err e) k = none
value_in (Outcome.panic e) k = none

reloaded : value_in (load false (block (kv_set key val three).0) 32) key ≡ some (some val)
unfolding program load_program
reloaded = refl

-- A key that fills its chunk, and a value that comes with an update: the chunks are not linked, and the
-- block is refused.
refused :
    load false
      (block (kv_set (replicate 20 3) (replicate 10 1) (kv_set (replicate 20 3) [] three).0).0)
      32
    ≡ err wrong_data
unfolding program load_program
refused = refl

-- Two chunks of 32 bytes, of which 43 are in use, and one free chunk, which counts with the number
-- of the chunks less 4.
counted : stat (kv_set key val three).0 ≡ record {
  free_chunk_num = 1;
  used_chunk_num = 2;
  free_data_size = 17 + (2 ^ 32 - 1);
  used_data_size = 47;
  canot_use_size = 17;
  kv_count = 1;
  avg_kv_use_chunk = 2;
  avg_kv_use_size = 47;
}
unfolding program load_program
counted = refl

-- A buffer with one key, in its first chunk.
abbrev held_key : Bytes
held_key = b'j' ∷ []

abbrev held_node : Node
held_node = record { chunks = 1 ∷ []; key_size = 1; val_size = 1 }

abbrev holding : KvBuffer
holding = record {
  size = 112;
  chunk_size = 32;
  chunk_num = 3;
  store = record {
    memory = replicate 32 106 ∷ replicate 32 0 ∷ replicate 32 0 ∷ [];
    free = 2 ∷ 3 ∷ [];
    deleted = [];
  };
  lru = record {
    size = 3;
    evict_list = record { id = 0; key = held_key; value = held_node } ∷ [];
    items = (held_key, 0) ∷ [];
    on_evict = some (on_evicted false);
    fresh = 1;
  };
  open_lru = true;
}

holding-IsValid : IsValid str_discrete holding.lru
unfolding get find_key
holding-IsValid = record {
  distinct = (tt, tt);
  numbered = (omega arith, tt);
  agree = λ k. ground arith;
}

holding-Apart : Apart (length holding.store.memory) holding.store.free
holding-Apart =
    (omega arith, omega arith, (λ e. absurd (omega arith), tt), (omega arith, omega arith, tt, tt))

holding-absent : get str_discrete key (entries holding.lru) ≡ none
unfolding program
holding-absent = refl

holding-there : get str_discrete held_key (entries holding.lru) ≡ some held_node
unfolding program
holding-there = refl

holding-needed : chunks_needed 32 (length key + length val + 8) ≤ length holding.store.free
unfolding program
holding-needed = omega arith

held_node-Off : Off holding.store.free held_node.chunks
held_node-Off = ((omega arith, (λ e. absurd (omega arith), (λ e. absurd (omega arith), tt))), tt)

kv_get-kv_set_others_example :
    (kv_get held_key (kv_set key val holding).0).1 ≡ (kv_get held_key holding).1
kv_get-kv_set_others_example =
    kv_get-kv_set_others key val held_key held_node holding holding-IsValid holding-Apart
      holding-absent (omega arith) (omega arith) (omega arith) holding-needed holding-there
      held_node-Off
