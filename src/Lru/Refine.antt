-- ===== src/Lru/Refine.antt =====
-- The abstract view of the cache, the list of its key-value pairs from the newest to the oldest, and
-- what each operation does to it.
use gotools.Common.{
  ℕ, zero, suc, ◌≡◌, refl, inl, inr, arith, List, [], ◌∷◌, length, true, false, Option, none, some,
  Option-cases, map, take,
}
use gotools.Common.Assoc.{get, delete}
use gotools.Lru.{
  Elem, Lru, find_elem, remove_elem, back, remove_element, get_value, remove, notify, peek,
  contains,
}
use gotools.Lru.Valid.{IsValid, lookup_elem_lem}
use gotools.Lru.Valid.Elems.{
  Distinct, find_key, find_elem_of_key, find_elem_absent, find_key_of_elem, find_key_absent,
  find_elem_of_back, key_of_find_key,
}

abbrev pub entry : {K V : Type 0} → Elem K V → K × V
entry e = (e.key, e.value)

abbrev pub entries : {K V S : Type 0} → Lru K V S → List (K × V)
entries c = map entry c.evict_list

module _ {K V : Type 0} (dec : Discrete K) where
  abbrev pub value_of : Option (Elem K V) → Option V
  value_of none = none
  value_of (some e) = some e.value

  pub get-entries :
      (k : K) (l : List (Elem K V)) → get dec k (map entry l) ≡ value_of (find_key dec k l)
  unfolding get find_key
  get-entries k [] = refl
  get-entries k (e ∷ l) = ground (arith, get-entries k l)

  pub delete_absent :
      (k : K) (l : List (Elem K V))
      → find_key dec k l ≡ none
      → delete dec k (map entry l) ≡ map entry l
  unfolding delete find_key
  delete_absent k [] h = refl
  delete_absent k (e ∷ l) h = ground (arith, delete_absent k l)

  pub entries-remove_elem :
      (e : Elem K V) (l : List (Elem K V))
      → Distinct l
      → find_elem e.id l ≡ some e
      → map entry (remove_elem e.id l) ≡ delete dec e.key (map entry l)
  unfolding delete find_elem remove_elem
  entries-remove_elem e [] d h = cc
  entries-remove_elem e (f ∷ l) d h = ground (
    arith,
    entries-remove_elem e l d.1,
    find_key_absent dec f l d.0,
    find_key_of_elem dec l e d.1,
    delete_absent e.key l,
  )

  -- Removing the element at the back leaves all the others, in order.
  pub entries-remove_back :
      (e : Elem K V) (l : List (Elem K V)) (n : ℕ)
      → Distinct l
      → back l ≡ some e
      → length l ≡ suc n
      → map entry (remove_elem e.id l) ≡ take n (map entry l)
  unfolding back remove_elem
  entries-remove_back e [] n d h p = cc
  entries-remove_back e (f ∷ []) zero d h p = ground arith
  entries-remove_back e (f ∷ []) (suc n) d h p = absurd (omega arith)
  entries-remove_back e (f ∷ g ∷ l) zero d h p = absurd (omega arith)
  entries-remove_back e (f ∷ g ∷ l) (suc n) d h p =
      let rest : map entry (remove_elem e.id (g ∷ l)) ≡ take n (map entry (g ∷ l)) =
        entries-remove_back e (g ∷ l) n d.1 h (omega arith) in
      ground (arith, rest, find_elem_of_back (g ∷ l) e d.1 h, find_elem_absent f (g ∷ l) d.0)

module _ {K V S : Type 0} (dec : Discrete K) where
  -- On a well-formed cache Get returns what the view holds for the key; a hit moves to the front, and
  -- a miss changes nothing of the view.
  pub get_value-entries :
      (k : K) (c : Lru K V S)
      → IsValid dec c
      → ((get_value dec k c).1 ≡ get dec k (entries c))
        × (entries (get_value dec k c).0 ≡ elim (get dec k (entries c)) [
          | none ↦ entries c
          | some v ↦ (k, v) ∷ delete dec k (entries c)
        ])
  unfolding get_value
  get_value-entries k c h = elim (Option-cases (find_key dec k c.evict_list)) [
    | inl miss ↦ ground (arith, lookup_elem_lem dec k c h, get-entries dec k c.evict_list)
    | inr (e, hit) ↦ ground (
      arith,
      lookup_elem_lem dec k c h,
      get-entries dec k c.evict_list,
      key_of_find_key dec k c.evict_list e hit,
      entries-remove_elem dec e c.evict_list h.distinct
          (find_elem_of_key dec k c.evict_list e h.distinct hit),
    )
  ]

  -- Peek and Contains read the view and change nothing.
  pub peek-entries :
      (k : K) (c : Lru K V S)
      → IsValid dec c
      → (peek dec k c ≡ get dec k (entries c))
        × (contains dec k c ≡ elim (get dec k (entries c)) [ none ↦ false | some v ↦ true ])
  unfolding peek contains
  peek-entries k c h =
      ground (arith, lookup_elem_lem dec k c h, get-entries dec k c.evict_list, h.agree k)

  -- On a well-formed cache Remove takes the key's entry out of the view, tells whether there was
  -- one, and calls the callback on exactly that entry.
  pub remove-entries :
      (k : K) (c : Lru K V S) (s : S)
      → IsValid dec c
      → (entries (remove dec k (c, s)).0.0 ≡ delete dec k (entries c))
        × ((remove dec k (c, s)).1 ≡ elim (get dec k (entries c)) [ none ↦ false | some v ↦ true ])
        × ((remove dec k (c, s)).0.1 ≡ elim (get dec k (entries c)) [
          | none ↦ s
          | some v ↦ elim c.on_evict [ none ↦ s | some f ↦ f k v s ]
        ])
  unfolding remove remove_element notify
  remove-entries k c s h = elim (Option-cases (find_key dec k c.evict_list)) [
    | inl miss ↦ ground (
      arith,
      lookup_elem_lem dec k c h,
      get-entries dec k c.evict_list,
      delete_absent dec k c.evict_list miss,
    )
    | inr (e, hit) ↦ ground (
      arith,
      lookup_elem_lem dec k c h,
      get-entries dec k c.evict_list,
      key_of_find_key dec k c.evict_list e hit,
      entries-remove_elem dec e c.evict_list h.distinct
          (find_elem_of_key dec k c.evict_list e h.distinct hit),
    )
  ]
