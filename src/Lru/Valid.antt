-- ===== src/Lru/Valid.antt =====
-- The well-formedness of the cache of stkvbuffer/lru.go, the map and the list holding the same entries
-- and no key and no element standing twice, under each operation.
pub mod Elems
use gotools.Common.{
  ℕ, zero, suc, ◌+◌, ◌-◌, ◌≤◌, ◌<◌, ◌≡◌, refl, sym, ◌∙◌, ap, ◌≢◌, ◌⊎◌, inl, inr, arith, List, [],
  ◌∷◌, ltb, leb, length, Bool, true, false, Option, none, some, if◌then◌else◌, All, All-mono,
  Option-cases, Bool-cases,
}
use gotools.Common.Assoc.{get, insert, delete, get-insert, get-delete}
use gotools.Lru.{
  Elem, Lru, find_elem, remove_elem, back, new_lru, lookup_elem, remove_element, remove_oldest,
  push_front, add, get_value, remove, len, notify, resize, remove_oldest_times, pop_oldest,
}
use Elems.{
  length-eq-zero_of_back, All-find_elem, new-Apart, Apart, Distinct, find_key, id_of,
  find_elem_of_key, find_key-remove_elem, Apart-remove_elem, Distinct-remove_elem, All-remove_elem,
  length-remove_elem, find_elem_of_back, key_of_find_key, find_key_of_elem,
}
use mathlib.Core.Logic.{ite}

module _ {K V S : Type 0} (dec : Discrete K) where
  pub record IsValid (c : Lru K V S) : Type 0 where
    pub distinct : Distinct c.evict_list
    pub numbered : All (λ e. e.id < c.fresh) c.evict_list
    pub agree : (k : K) → get dec k c.items ≡ id_of (find_key dec k c.evict_list)

  pub lookup_elem_lem :
      (k : K) (c : Lru K V S) → IsValid c → lookup_elem dec k c ≡ find_key dec k c.evict_list
  unfolding lookup_elem
  lookup_elem_lem k c v = elim (Option-cases (find_key dec k c.evict_list)) [
    | inl miss ↦ ground (arith, v.agree k)
    | inr (e, hit) ↦ ground (arith, v.agree k, find_elem_of_key dec k c.evict_list e v.distinct hit)
  ]

  -- NewLRU refuses the size 0, and makes an empty cache of any other.
  pub new_lru-IsValid :
      (size : ℕ) (f : Option (K → V → S → S))
      → ((size ≡ 0) × (new_lru size f ≡ none))
        ⊎ ((c : Lru K V S) × (new_lru size f ≡ some c)
            × IsValid c
            × (c.size ≡ size)
            × (0 < c.size)
            × (c.evict_list ≡ []))
  unfolding new_lru get find_key
  new_lru-IsValid zero f = inl (refl, refl)
  new_lru-IsValid (suc n) f =
      let c : Lru K V S = record {
        size = suc n;
        evict_list = [];
        items = [];
        on_evict = f;
        fresh = 0;
      } in
      inr (
        c,
        ground arith,
        record { distinct = tt; numbered = tt; agree = λ k. refl },
        refl,
        omega arith,
        refl,
      )

  -- A hit in front, with whatever value.
  pub touch-IsValid :
      (k : K) (v : V) (c : Lru K V S) (e : Elem K V)
      → IsValid c
      → find_key dec k c.evict_list ≡ some e
      → IsValid (record c { evict_list = record e { value = v } ∷ remove_elem e.id c.evict_list })
  unfolding find_key
  touch-IsValid k v c e h found =
      let at_id = find_elem_of_key dec k c.evict_list e h.distinct found in
      record {
        distinct = (
          Apart-remove_elem e c.evict_list h.distinct at_id,
          Distinct-remove_elem e.id c.evict_list h.distinct,
        );
        numbered = (
          All-find_elem (λ f. f.id < c.fresh) e.id c.evict_list e h.numbered at_id,
          All-remove_elem (λ f. f.id < c.fresh) e.id c.evict_list h.numbered,
        );
        agree = λ j. ground (
          arith,
          h.agree j,
          find_key-remove_elem dec j c.evict_list e h.distinct at_id,
          find_key_of_elem dec c.evict_list e h.distinct at_id,
        );
      }

  pub remove_element-IsValid :
      (c : Lru K V S) (s : S) (e : Elem K V)
      → IsValid c
      → find_elem e.id c.evict_list ≡ some e
      → IsValid (remove_element dec e (c, s)).0
  unfolding remove_element
  remove_element-IsValid c s e h at_id = record {
    distinct = Distinct-remove_elem e.id c.evict_list h.distinct;
    numbered = All-remove_elem (λ f. f.id < c.fresh) e.id c.evict_list h.numbered;
    agree = λ j. ground (
      arith,
      h.agree j,
      get-delete dec e.key j c.items,
      find_key-remove_elem dec j c.evict_list e h.distinct at_id,
    );
  }

  pub push_front-IsValid :
      (k : K) (v : V) (c : Lru K V S)
      → IsValid c
      → find_key dec k c.evict_list ≡ none
      → IsValid (push_front dec k v c)
  unfolding push_front find_key
  push_front-IsValid k v c h absent = record {
    distinct = (new-Apart dec c.fresh k v c.evict_list h.numbered absent, h.distinct);
    numbered = (
      omega arith,
      All-mono (λ f. f.id < c.fresh) (λ f. f.id < c.fresh + 1) (λ f p. omega arith) c.evict_list
          h.numbered,
    );
    agree = λ j. ground (arith, h.agree j, get-insert dec k j c.fresh c.items);
  }

  pub remove_oldest-IsValid :
      (c : Lru K V S) (s : S) → IsValid c → IsValid (remove_oldest dec (c, s)).0
  unfolding remove_oldest
  remove_oldest-IsValid c s h = elim (Option-cases (back c.evict_list)) [
    | inl empty ↦ rw (empty, remove_oldest) h
    | inr (e, last) ↦
        rw (last, remove_oldest)
          (remove_element-IsValid c s e h (find_elem_of_back c.evict_list e h.distinct last))
  ]

  pub length-remove_oldest :
      (c : Lru K V S) (s : S)
      → IsValid c
      → length (remove_oldest dec (c, s)).0.evict_list ≡ length c.evict_list - 1
  unfolding remove_oldest remove_element back
  length-remove_oldest c s h = elim (Option-cases (back c.evict_list)) [
    | inl empty ↦
        rw (empty, remove_oldest) (omega (arith, length-eq-zero_of_back c.evict_list empty))
    | inr (e, last) ↦
        rw (last, remove_oldest)
          (omega (
            arith,
            length-remove_elem e.id c.evict_list {e = e}
                (find_elem_of_back c.evict_list e h.distinct last),
          ))
  ]

  pub get_value-IsValid : (k : K) (c : Lru K V S) → IsValid c → IsValid (get_value dec k c).0
  unfolding get_value
  get_value-IsValid k c h = elim (Option-cases (find_key dec k c.evict_list)) [
    | inl miss ↦ rw (lookup_elem_lem k c h, miss, get_value) h
    | inr (e, hit) ↦ rw (lookup_elem_lem k c h, hit, get_value) (touch-IsValid k e.value c e h hit)
  ]

  pub remove-IsValid :
      (k : K) (c : Lru K V S) (s : S) → IsValid c → IsValid (remove dec k (c, s)).0.0
  unfolding remove
  remove-IsValid k c s h = elim (Option-cases (find_key dec k c.evict_list)) [
    | inl miss ↦ rw (lookup_elem_lem k c h, miss, remove) h
    | inr (e, hit) ↦
        rw (lookup_elem_lem k c h, hit, remove)
          (remove_element-IsValid c s e h (find_elem_of_key dec k c.evict_list e h.distinct hit))
  ]

  trimmed-IsValid :
      (c : Lru K V S) (s : S) (t : Bool)
      → IsValid c
      → length c.evict_list ≤ c.size + 1
      → ltb c.size (len c) ≡ t
      → IsValid (if t then remove_oldest dec (c, s) else (c, s)).0
        × (length (if t then remove_oldest dec (c, s) else (c, s)).0.evict_list ≤ c.size)
  unfolding len
  trimmed-IsValid c s true h b e =
      (remove_oldest-IsValid c s h, omega (arith, length-remove_oldest c s h))
  trimmed-IsValid c s false h b e = (h, ground arith)

  -- On a well-formed cache that holds no more entries than its size, Add keeps the cache well-formed
  -- and holds no more entries than the size.
  pub add-IsValid :
      (k : K) (v : V) (c : Lru K V S) (s : S)
      → IsValid c
      → length c.evict_list ≤ c.size
      → IsValid (add dec k v (c, s)).0.0 × (length (add dec k v (c, s)).0.0.evict_list ≤ c.size)
  unfolding add push_front
  add-IsValid k v c s h b = elim (Option-cases (find_key dec k c.evict_list)) [
    | inr (e, hit) ↦
        rw (lookup_elem_lem k c h, hit, add)
          (
            touch-IsValid k v c e h hit,
            omega (
              arith,
              length-remove_elem e.id c.evict_list {e = e}
                  (find_elem_of_key dec k c.evict_list e h.distinct hit),
            ),
          )
    | inl miss ↦
        rw (lookup_elem_lem k c h, miss, add)
          (trimmed-IsValid (push_front dec k v c) s _ (push_front-IsValid k v c h miss)
            (omega arith) refl)
  ]
