-- ===== src/SortMap/Tests.antt =====
-- Runs of stutil/sort.go, with an insertion sort for sort.Sort, and the theorem at a concrete input.
use gotools.Common.{
  ℕ, ◌-◌, ◌<◌, ◌≡◌, refl, List, [], ◌∷◌, length, get_elem?, Bool, true, false, if◌then◌else◌,
  Option, some,
}
use gotools.SortMap.{signed, text, Iface, Pair, less, swap_loop, sort_map}
use gotools.SortMap.Reversed.{sort_map-desc}

program : Unit {0}
unfolding less swap_loop sort_map
program = tt

abbrev put : (Pair → Pair → Bool) → Pair → List Pair → List Pair
put lt p [] = p ∷ []
put lt p (q ∷ l) = let rest = put lt p l in if lt q p then q ∷ rest else p ∷ q ∷ l

abbrev insertion_sort : (Pair → Pair → Bool) → List Pair → List Pair
insertion_sort lt [] = []
insertion_sort lt (p ∷ l) = put lt p (insertion_sort lt l)

abbrev no_floats : ℕ → ℕ → ℕ → Bool
no_floats w a b = false

abbrev of_int8 : ℕ → Iface
of_int8 n = record { kind = signed 8; bits = n; bytes = [] }

abbrev of_text : ℕ → Iface
of_text c = record { kind = text; bits = 0; bytes = c ∷ [] }

-- 1, -1 and 2, with their texts.
abbrev one : Pair
one = record { a = of_int8 1; b = of_text 98 }

abbrev minus_one : Pair
minus_one = record { a = of_int8 255; b = of_text 99 }

abbrev two : Pair
two = record { a = of_int8 2; b = of_text 97 }

abbrev entries : Option (List Pair)
entries = some (one ∷ minus_one ∷ two ∷ [])

up_by_key : sort_map insertion_sort no_floats entries true false ≡ minus_one ∷ one ∷ two ∷ []
unfolding program
up_by_key = refl

down_by_value : sort_map insertion_sort no_floats entries false true ≡ minus_one ∷ one ∷ two ∷ []
unfolding program
down_by_value = refl

sort_map-desc_example :
    let up = sort_map insertion_sort no_floats entries true false in
    let down = sort_map insertion_sort no_floats entries true true in
    (length down ≡ length up)
    × (0 < length up → get_elem? down 0 ≡ get_elem? up (length up - 1 - 0))
sort_map-desc_example = sort_map-desc insertion_sort no_floats entries true 0
