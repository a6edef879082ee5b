-- ===== src/Lru.antt =====
-- stkvbuffer/lru.go: the LRU cache. A `*list.Element` is the number that identifies it; the evict
-- list holds the elements, most recent first, and the map `items` leads from a key to an element's
-- number. The callback `onEvict` acts on a state `S` of its owner, which every operation that may
-- evict takes and returns.
pub mod Elements
pub mod Valid
pub mod Refine
pub mod Evict
mod Tests
unfoldable pub use Elements.*
use gotools.Common.{
  ℕ, zero, suc, ◌+◌, ◌-◌, ◌≤◌, ◌<◌, List, [], ◌∷◌, ltb, leb, ◌==◌, length, Bool, true, false,
  Option, none, some, map, if◌then◌else◌,
}
use gotools.Common.Assoc.{get, insert, delete}
use mathlib.Core.List.{reverse}

-- NewLRU; `none` is its error.
unfoldable pub new_lru : {K V S : Type 0} → ℕ → Option (K → V → S → S) → Option (Lru K V S)
new_lru size on_evict =
    if leb size 0
    then none
    else some (record { size = size; evict_list = []; items = []; on_evict = on_evict; fresh = 0 })

module _ {K V S : Type 0} where
  unfoldable pub len : Lru K V S → ℕ
  len c = length c.evict_list

  -- `if c.onEvict != nil { c.onEvict(kv.key, kv.value) }`
  unfoldable pub notify : Lru K V S → Elem K V → S → S
  notify c e s = elim c.on_evict [ none ↦ s | some f ↦ f e.key e.value s ]

  -- From the oldest to the newest.
  pub keys : Lru K V S → List K
  keys c = reverse (map (λ e. e.key) c.evict_list)

  -- GetOldest
  pub get_oldest : Lru K V S → Option (K × V)
  get_oldest c = elim (back c.evict_list) [ none ↦ none | some e ↦ some (e.key, e.value) ]

module _ {K V S : Type 0} (dec : Discrete K) where
  -- `c.items[key]` and the element behind the pointer.
  unfoldable pub lookup_elem : K → Lru K V S → Option (Elem K V)
  lookup_elem k c = elim (get dec k c.items) [ none ↦ none | some i ↦ find_elem i c.evict_list ]

  unfoldable pub remove_element : Elem K V → Lru K V S × S → Lru K V S × S
  remove_element e (c, s) = (
    record c { evict_list = remove_elem e.id c.evict_list; items = delete dec e.key c.items },
    notify c e s,
  )

  -- removeOldest
  unfoldable pub remove_oldest : Lru K V S × S → Lru K V S × S
  remove_oldest (c, s) = elim (back c.evict_list) [
    | none ↦ (c, s)
    | some e ↦ remove_element e (c, s)
  ]

  -- RemoveOldest: also what was removed.
  pub pop_oldest : Lru K V S × S → (Lru K V S × S) × Option (K × V)
  pop_oldest (c, s) = elim (back c.evict_list) [
    | none ↦ ((c, s), none)
    | some e ↦ (remove_element e (c, s), some (e.key, e.value))
  ]

  -- The new entry in front, before the size is looked at.
  unfoldable pub push_front : K → V → Lru K V S → Lru K V S
  push_front k v c = record c {
    evict_list = record { id = c.fresh; key = k; value = v } ∷ c.evict_list;
    items = insert dec k c.fresh c.items;
    fresh = c.fresh + 1;
  }

  -- Add: whether an entry was evicted.
  unfoldable pub add : K → V → Lru K V S × S → (Lru K V S × S) × Bool
  add k v (c, s) = elim (lookup_elem k c) [
    | some e ↦ (
      (record c { evict_list = record e { value = v } ∷ remove_elem e.id c.evict_list }, s),
      false,
    )
    | none ↦
        let c' = push_front k v c in
        let evict = ltb c'.size (len c') in
        (if evict then remove_oldest (c', s) else (c', s), evict)
  ]

  -- Get: a hit moves to the front.
  unfoldable pub get_value : K → Lru K V S → Lru K V S × Option V
  get_value k c = elim (lookup_elem k c) [
    | none ↦ (c, none)
    | some e ↦ (record c { evict_list = e ∷ remove_elem e.id c.evict_list }, some e.value)
  ]

  pub contains : K → Lru K V S → Bool
  contains k c = elim (get dec k c.items) [ none ↦ false | some i ↦ true ]

  pub peek : K → Lru K V S → Option V
  peek k c = elim (lookup_elem k c) [ none ↦ none | some e ↦ some e.value ]

  unfoldable pub remove : K → Lru K V S × S → (Lru K V S × S) × Bool
  remove k (c, s) = elim (lookup_elem k c) [
    | none ↦ ((c, s), false)
    | some e ↦ (remove_element e (c, s), true)
  ]

  -- `for i := 0; i < diff; i++`
  unfoldable pub remove_oldest_times : ℕ → Lru K V S × S → Lru K V S × S
  remove_oldest_times zero cs = cs
  remove_oldest_times (suc n) cs = remove_oldest_times n (remove_oldest cs)

  -- Resize: how many entries were evicted. `-` stops at 0, as the source's `diff` does.
  unfoldable pub resize : ℕ → Lru K V S × S → (Lru K V S × S) × ℕ
  resize size (c, s) =
      let diff = len c - size in
      let (c', s') = remove_oldest_times diff (c, s) in ((record c' { size = size }, s'), diff)

  -- Purge's loop, over the entries of the map in the order in which the `range` visits them.
  pub purge_loop : List (K × ℕ) → Lru K V S × S → Lru K V S × S
  purge_loop [] cs = cs
  purge_loop ((k, i) ∷ order) (c, s) = elim (find_elem i c.evict_list) [
    | none ↦ purge_loop order (record c { items = delete dec k c.items }, s)
    | some e ↦
        purge_loop order
          (record c { items = delete dec k c.items }, notify c (record e { key = k }) s)
  ]

  pub purge : List (K × ℕ) → Lru K V S × S → Lru K V S × S
  purge order cs = let (c, s) = purge_loop order cs in (record c { evict_list = [] }, s)
