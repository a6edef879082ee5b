-- ===== src/Lru/Tests.antt =====
-- Runs of stkvbuffer/lru.go on a small cache, and the theorems at concrete inputs. The callback
-- records what it is called with.
use gotools.Common.{
  ℕ, ◌≤◌, ◌<◌, ◌≡◌, refl, arith, List, [], ◌∷◌, true, false, none, some, length, take,
  if◌then◌else◌, ◌==◌, ℕ_discrete, ◌⊎◌,
}
use gotools.Common.Assoc.{get, insert, delete}
use gotools.Lru.{
  Lru, find_elem, remove_elem, back, new_lru, lookup_elem, remove_element, remove_oldest,
  push_front, add, get_value, remove, len, notify, resize, remove_oldest_times, pop_oldest,
  get_oldest, purge, purge_loop, keys, peek, contains,
}
use gotools.Lru.Valid.{IsValid, new_lru-IsValid, add-IsValid}
use gotools.Lru.Valid.Elems.{find_key}
use gotools.Lru.Refine.{entries, get_value-entries, remove-entries}
use gotools.Lru.Evict.{notified, add-entries}

program : Unit {0}
unfolding find_elem remove_elem back new_lru lookup_elem remove_element remove_oldest push_front add
    get_value remove len notify resize remove_oldest_times pop_oldest get_oldest purge purge_loop
    keys peek contains get insert delete ℕ_discrete find_key
program = tt

abbrev Log : Type 0
Log = List (ℕ × ℕ)

abbrev empty : Lru ℕ ℕ Log
empty = record {
  size = 2;
  evict_list = [];
  items = [];
  on_evict = some (λ k v s. (k, v) ∷ s);
  fresh = 0;
}

-- 1 and 2 were added, and 1 was read.
abbrev two : Lru ℕ ℕ Log
two = record empty {
  evict_list = record { id = 0; key = 1; value = 10 } ∷ record { id = 1; key = 2; value = 20 } ∷ [];
  items = (1, 0) ∷ (2, 1) ∷ [];
  fresh = 2;
}

abbrev after_two : Lru ℕ ℕ Log × Log
after_two = (add ℕ_discrete 2 20 (add ℕ_discrete 1 10 (empty, [])).0).0

reaches_two : (get_value ℕ_discrete 1 after_two.0).0 ≡ two
unfolding program
reaches_two = refl

add_three :
    (entries (add ℕ_discrete 3 30 (two, [])).0.0 ≡ (3, 30) ∷ (1, 10) ∷ [])
    × ((add ℕ_discrete 3 30 (two, [])).0.1 ≡ (2, 20) ∷ [])
    × ((add ℕ_discrete 3 30 (two, [])).1 ≡ true)
unfolding program
add_three = (refl, refl, refl)

oldest_first : keys two ≡ 2 ∷ 1 ∷ []
unfolding program
oldest_first = refl

two-IsValid : IsValid ℕ_discrete two
unfolding program
two-IsValid = record { distinct = ground arith; numbered = omega arith; agree = λ k. ground arith }

new_lru-IsValid_example :
    ((◌≡◌ {A = ℕ} 2 0) × (new_lru 2 empty.on_evict ≡ none))
    ⊎ ((c : Lru ℕ ℕ Log) × (new_lru 2 empty.on_evict ≡ some c)
        × IsValid ℕ_discrete c
        × (c.size ≡ 2)
        × (0 < c.size)
        × (c.evict_list ≡ []))
new_lru-IsValid_example = new_lru-IsValid ℕ_discrete 2 empty.on_evict

add-IsValid_example :
    IsValid ℕ_discrete (add ℕ_discrete 3 30 (two, [])).0.0
    × (length (add ℕ_discrete 3 30 (two, [])).0.0.evict_list ≤ 2)
add-IsValid_example = add-IsValid ℕ_discrete 3 30 two [] two-IsValid (omega arith)

get_value-entries_example :
    ((get_value ℕ_discrete 2 two).1 ≡ get ℕ_discrete 2 (entries two))
    × (entries (get_value ℕ_discrete 2 two).0 ≡ elim (get ℕ_discrete 2 (entries two)) [
      | none ↦ entries two
      | some v ↦ (2, v) ∷ delete ℕ_discrete 2 (entries two)
    ])
get_value-entries_example = get_value-entries ℕ_discrete 2 two two-IsValid

remove-entries_example :
    (entries (remove ℕ_discrete 2 (two, [])).0.0 ≡ delete ℕ_discrete 2 (entries two))
    × ((remove ℕ_discrete 2 (two, [])).1
        ≡ elim (get ℕ_discrete 2 (entries two)) [ none ↦ false | some v ↦ true ])
    × ((remove ℕ_discrete 2 (two, [])).0.1
        ≡ elim (get ℕ_discrete 2 (entries two)) [ none ↦ [] | some v ↦ (2, v) ∷ [] ])
remove-entries_example = remove-entries ℕ_discrete 2 two [] two-IsValid

add-entries_example :
    (entries (add ℕ_discrete 3 30 (two, [])).0.0
      ≡ take 2 ((3, 30) ∷ delete ℕ_discrete 3 (entries two)))
    × ((add ℕ_discrete 3 30 (two, [])).1
        ≡ elim (get ℕ_discrete 3 (entries two)) [ none ↦ 2 == 2 | some w ↦ false ])
    × ((add ℕ_discrete 3 30 (two, [])).0.1
        ≡ (if (add ℕ_discrete 3 30 (two, [])).1 then notified two (get_oldest two) [] else []))
add-entries_example = add-entries ℕ_discrete 3 30 two [] two-IsValid (omega arith) (omega arith)
