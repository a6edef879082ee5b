-- ===== src/Kv/Stat.antt =====
-- Stat of stkvbuffer/kvbuffer.go, but for the percentage, which is a float.
use gotools.Common.{ℕ, ◌+◌, ◌-◌, ◌*◌, ◌/◌, ◌%◌, ◌^◌, List, [], ◌∷◌, ltb, length, if◌then◌else◌}
use gotools.Lru.{Elem}
use gotools.Kv.{Bytes}
use gotools.Kv.Buffer.{Node, KvBuffer}

pub record BufferStat : Type 0 where
  pub free_chunk_num : ℕ
  pub used_chunk_num : ℕ
  pub free_data_size : ℕ
  pub used_data_size : ℕ
  pub canot_use_size : ℕ
  pub kv_count : ℕ
  pub avg_kv_use_chunk : ℕ
  pub avg_kv_use_size : ℕ

abbrev pub used_of : Node → ℕ
used_of n = (n.key_size + n.val_size) % 2 ^ 32 + 8 + length n.chunks * 4

-- The two sums of the loop over the entries, from the newest on.
unfoldable pub stat_loop : ℕ → List (Elem Bytes Node) → ℕ × ℕ → ℕ × ℕ
stat_loop chunk_size [] sums = sums
stat_loop chunk_size (e ∷ es) (used, waste) =
    stat_loop chunk_size es
      (used + used_of e.value, waste + (length e.value.chunks * chunk_size - used_of e.value))

abbrev average : ℕ → ℕ → ℕ
average total n = if ltb 0 n then total / n else 0

-- The difference of the chunks' number and 4 is one of 32 bits.
unfoldable pub stat : KvBuffer → BufferStat
unfolding stat_loop
stat b =
    let sums = stat_loop b.chunk_size b.lru.evict_list (0, 0) in
    let free = length b.store.free in
    record {
      free_chunk_num = free;
      used_chunk_num = b.chunk_num - free;
      free_data_size = sums.1 + free * ((b.chunk_num + (2 ^ 32 - 4)) % 2 ^ 32);
      used_data_size = sums.0;
      canot_use_size = sums.1;
      kv_count = length b.lru.evict_list;
      avg_kv_use_chunk = average (b.chunk_num - free) (length b.lru.evict_list);
      avg_kv_use_size = average sums.0 (length b.lru.evict_list);
    }
