-- ===== src/Lru/Evict.antt =====
-- Add, RemoveOldest, Resize and Purge of stkvbuffer/lru.go against the view: what is evicted, and what
-- the callback sees.
use gotools.Common.{
  ℕ, zero, suc, ◌+◌, ◌-◌, ◌≤◌, ◌<◌, ◌≡◌, refl, sym, ◌∙◌, ap, inl, inr, arith, List, [], ◌∷◌, ◌==◌,
  length, false, Option, none, some, if◌then◌else◌, Option-cases, take, take_of_length-le,
  length-map, take-take-le, length-take,
}
use gotools.Common.Assoc.{get, delete, length-delete-le, delete_all, get-delete_all}
use gotools.Lru.{
  Lru, find_elem, remove_elem, back, remove_element, remove_oldest, push_front, add, len, notify,
  get_oldest, pop_oldest, resize, remove_oldest_times, purge, purge_loop,
}
use gotools.Lru.Valid.{
  IsValid, lookup_elem_lem, push_front-IsValid, remove_oldest-IsValid, length-remove_oldest,
}
use gotools.Lru.Valid.Elems.{
  find_key, find_elem_of_key, key_of_find_key, length-remove_elem, length-eq-zero_of_back,
  nil_of_back, length-pos_of_back, back-cons,
}
use gotools.Lru.Refine.{
  entry, entries, entries-remove_back, entries-remove_elem, get-entries, delete_absent,
}
use native.Mathlib.Decide.{dec_le}

-- What the callback makes of an evicted pair.
abbrev pub notified : {K V S : Type 0} → Lru K V S → Option (K × V) → S → S
notified c none s = s
notified c (some (k, v)) s = elim c.on_evict [ none ↦ s | some f ↦ f k v s ]

take-sub_sub :
    {A : Type 0} (size n : ℕ) (l : List A) → length l ≡ n → take (n - (n - size)) l ≡ take size l
take-sub_sub size n l e = elim (dec_le n size) [
  | yes fits ↦ take_of_length-le _ l (omega arith) ∙ sym (take_of_length-le size l (omega arith))
  | no long ↦ let k : n - (n - size) ≡ size = omega arith in rw k
]

module _ {K V S : Type 0} (dec : Discrete K) where
  remove_oldest-entries :
      (c : Lru K V S) (s : S)
      → IsValid dec c
      → (entries (remove_oldest dec (c, s)).0 ≡ take (length c.evict_list - 1) (entries c))
        × ((remove_oldest dec (c, s)).1 ≡ notified c (get_oldest c) s)
  unfolding remove_oldest remove_element get_oldest notify back
  remove_oldest-entries c s h = elim (Option-cases (back c.evict_list)) [
    | inl empty ↦ ground (arith, nil_of_back c.evict_list empty)
    | inr (e, last) ↦ ground (
      arith,
      length-pos_of_back c.evict_list e last,
      entries-remove_back dec e c.evict_list (length c.evict_list - 1) h.distinct last,
    )
  ]

  -- On a well-formed cache RemoveOldest returns the oldest pair, the one that GetOldest reports, and
  -- leaves all the others in order; it calls the callback on that pair, does nothing to an empty
  -- cache, and keeps the cache well-formed.
  pub pop_oldest-entries :
      (c : Lru K V S) (s : S)
      → IsValid dec c
      → ((pop_oldest dec (c, s)).1 ≡ get_oldest c)
        × (entries (pop_oldest dec (c, s)).0.0 ≡ take (length c.evict_list - 1) (entries c))
        × ((pop_oldest dec (c, s)).0.1 ≡ notified c (get_oldest c) s)
        × IsValid dec (pop_oldest dec (c, s)).0.0
  unfolding pop_oldest remove_oldest get_oldest
  pop_oldest-entries c s h =
      let (view, told) = remove_oldest-entries c s h in
      let same : (pop_oldest dec (c, s)).0 ≡ remove_oldest dec (c, s) = ground arith in
      (ground arith, rw same view, rw same told, rw same (remove_oldest-IsValid dec c s h))

  oldest-push_front :
      (k : K) (v : V) (c : Lru K V S)
      → 0 < length c.evict_list
      → get_oldest (push_front dec k v c) ≡ get_oldest c
  unfolding get_oldest push_front
  oldest-push_front k v c pos = elim (Option-cases (back c.evict_list)) [
    | inl empty ↦ absurd (omega (arith, length-eq-zero_of_back c.evict_list empty))
    | inr (e, last) ↦
        ground (arith, back-cons (record { id = c.fresh; key = k; value = v }) e c.evict_list last)
  ]

  -- The view of a cache with a new pair in front, before and after the oldest is dropped.
  push_front-entries :
      (k : K) (v : V) (c : Lru K V S)
      → find_key dec k c.evict_list ≡ none
      → entries (push_front dec k v c) ≡ (k, v) ∷ delete dec k (entries c)
  unfolding push_front
  push_front-entries k v c miss = rw (delete_absent dec k c.evict_list miss)

  push_front_shape :
      (k : K) (v : V) (c : Lru K V S)
      → ((push_front dec k v c).size ≡ c.size)
        × (len (push_front dec k v c) ≡ length c.evict_list + 1)
        × (length (push_front dec k v c).evict_list ≡ length c.evict_list + 1)
        × ((push_front dec k v c).on_evict ≡ c.on_evict)
        × (length ((k, v) ∷ delete dec k (entries c)) ≤ length c.evict_list + 1)
  unfolding push_front len
  push_front_shape k v c =
      ground
        (arith, length-delete-le dec k (entries c), length-map c.evict_list (entry {K = K} {V = V}))

  -- On a well-formed cache of a positive size that holds no more entries than the size, Add puts the
  -- pair in front of the view, without the key's old pair, and keeps what fits the
  -- size. It evicts exactly when the key is new and the cache full, and then calls the callback on
  -- the pair that was the oldest.
  pub add-entries :
      (k : K) (v : V) (c : Lru K V S) (s : S)
      → IsValid dec c
      → 0 < c.size
      → length c.evict_list ≤ c.size
      → (entries (add dec k v (c, s)).0.0 ≡ take c.size ((k, v) ∷ delete dec k (entries c)))
        × ((add dec k v (c, s)).1 ≡ elim (get dec k (entries c)) [
          | none ↦ length c.evict_list == c.size
          | some w ↦ false
        ])
        × ((add dec k v (c, s)).0.1
            ≡ (if (add dec k v (c, s)).1 then notified c (get_oldest c) s else s))
  unfolding add
  add-entries k v c s h pos b = elim (Option-cases (find_key dec k c.evict_list)) [
    | inr (e, hit) ↦
        let at_id = find_elem_of_key dec k c.evict_list e h.distinct hit in
        ground (
          arith,
          lookup_elem_lem dec k c h,
          get-entries dec k c.evict_list,
          key_of_find_key dec k c.evict_list e hit,
          length-remove_elem e.id c.evict_list {e = e} at_id,
          entries-remove_elem dec e c.evict_list h.distinct at_id,
          length-map (remove_elem e.id c.evict_list) entry,
          take_of_length-le c.size
              ((k, v) ∷ entries (record c { evict_list = remove_elem e.id c.evict_list })),
        )
    | inl miss ↦
        let c' = push_front dec k v c in
        ground (
          arith,
          lookup_elem_lem dec k c h,
          get-entries dec k c.evict_list,
          remove_oldest-entries c' s (push_front-IsValid dec k v c h miss),
          push_front-entries k v c miss,
          push_front_shape k v c,
          oldest-push_front k v c,
          take_of_length-le c.size ((k, v) ∷ delete dec k (entries c)),
        )
  ]

  remove_oldest_times-entries :
      (n : ℕ) (c : Lru K V S) (s : S)
      → IsValid dec c
      → IsValid dec (remove_oldest_times dec n (c, s)).0
        × (entries (remove_oldest_times dec n (c, s)).0
            ≡ take (length c.evict_list - n) (entries c))
  unfolding remove_oldest_times
  remove_oldest_times-entries zero c s h = (
    h,
    sym (
        take_of_length-le _ (entries c)
          (omega (arith, length-map c.evict_list (entry {K = K} {V = V})))),
  )
  remove_oldest_times-entries (suc n) c s h =
      let (c', s') = remove_oldest dec (c, s) in
      let (valid, view) = remove_oldest_times-entries n c' s' (remove_oldest-IsValid dec c s h) in
      let shorter : length (remove_oldest dec (c, s)).0.evict_list - n
          ≡ length c.evict_list - suc n =
        omega (arith, length-remove_oldest dec c s h) in
      (
        valid,
        view
            ∙ rw (shorter, (remove_oldest-entries c s h).0)
                (take-take-le _ _ (entries c) (omega arith)),
      )

  -- On a well-formed cache Resize returns how many entries the new size leaves no room for, keeps the
  -- newest ones in order, and keeps the cache well-formed.
  pub resize-entries :
      (size : ℕ) (c : Lru K V S) (s : S)
      → IsValid dec c
      → ((resize dec size (c, s)).1 ≡ length c.evict_list - size)
        × ((resize dec size (c, s)).0.0.size ≡ size)
        × (entries (resize dec size (c, s)).0.0 ≡ take size (entries c))
        × IsValid dec (resize dec size (c, s)).0.0
        × (length (resize dec size (c, s)).0.0.evict_list ≤ size)
  unfolding resize len
  resize-entries size c s h =
      let n = length c.evict_list in
      let count : length (entries c) ≡ n = length-map c.evict_list entry in
      let (valid, view) = remove_oldest_times-entries (n - size) c s h in
      let kept = view ∙ take-sub_sub size n (entries c) count in
      let c' = (remove_oldest_times dec (n - size) (c, s)).0 in
      (
        refl,
        refl,
        kept,
        record { distinct = valid.distinct; numbered = valid.numbered; agree = valid.agree },
        omega (
          arith,
          ap length kept,
          length-map c'.evict_list (entry {K = K} {V = V}),
          length-take size (entries c),
        ),
      )

  -- The loop of Purge takes every visited key out of the map and leaves the list.
  purge_loop_lem :
      (order : List (K × ℕ)) (c : Lru K V S) (s : S)
      → ((purge_loop dec order (c, s)).0.items ≡ delete_all dec order c.items)
        × ((purge_loop dec order (c, s)).0.evict_list ≡ c.evict_list)
        × ((purge_loop dec order (c, s)).0.size ≡ c.size)
  unfolding purge_loop delete_all
  purge_loop_lem [] c s = (refl, refl, refl)
  purge_loop_lem ((k, i) ∷ order) c s = elim (Option-cases (find_elem i c.evict_list)) [
    | inl miss ↦
        rw (miss, purge_loop) (purge_loop_lem order (record c { items = delete dec k c.items }) s)
    | inr (e, hit) ↦
        rw (hit, purge_loop)
          (purge_loop_lem order (record c { items = delete dec k c.items })
            (notify c (record e { key = k }) s))
  ]

  -- Purge, when the `range` visits every key of the map, in any order, leaves an empty well-formed
  -- cache of the same size.
  pub purge-IsValid :
      (order : List (K × ℕ)) (c : Lru K V S) (s : S)
      → ((k : K) → get dec k order ≡ get dec k c.items)
      → IsValid dec (purge dec order (c, s)).0
        × (entries (purge dec order (c, s)).0 ≡ [])
        × ((k : K) → get dec k (purge dec order (c, s)).0.items ≡ none)
        × ((purge dec order (c, s)).0.size ≡ c.size)
  unfolding purge find_key
  purge-IsValid order c s covers =
      let (gone, _, same) = purge_loop_lem order c s in
      let empty : (k : K) → get dec k (purge_loop dec order (c, s)).0.items ≡ none =
        λ k. rw gone (ground (arith, get-delete_all dec k order c.items, covers k)) in
      (record { distinct = tt; numbered = tt; agree = empty }, refl, empty, same)
