-- ===== src/SortMap/Reversed.antt =====
-- The descending order of stutil/sort.go.
use gotools.Common.{
  ℕ, zero, suc, ◌+◌, ◌-◌, ◌*◌, ◌≤◌, ◌<◌, ◌≡◌, ◌≢◌, refl, sym, ap, ◌∙◌, arith, List, [], ◌∷◌, length,
  length-set, set, get_elem?, get_elem?-set_self, get_elem?-set_ne, Bool, true, false, Option, none,
  some, dec_lt, ℕ_discrete, ◌⊎◌, inl, inr,
}
use gotools.SortMap.{Pair, swap, swap_loop, sort_map}

get_elem?-some : (l : List Pair) (i : ℕ) → i < length l → (p : Pair) × (get_elem? l i ≡ some p)
get_elem?-some [] i lt = absurd (omega arith)
get_elem?-some (p ∷ l) zero lt = (p, refl)
get_elem?-some (p ∷ l) (suc i) lt = get_elem?-some l i (omega arith)

-- A swap of two places.
record Swapped (i j : ℕ) (l m : List Pair) : Type 0 where
  same : length m ≡ length l
  first : get_elem? m i ≡ get_elem? l j
  second : get_elem? m j ≡ get_elem? l i
  others : (k : ℕ) → i ≢ k → j ≢ k → get_elem? m k ≡ get_elem? l k

swap-Swapped : (i j : ℕ) (l : List Pair) → i < j → j < length l → Swapped i j l (swap i j l)
swap-Swapped i j l lt there =
    let (p, at_i) = get_elem?-some l i (omega arith) in
    let (q, at_j) = get_elem?-some l j there in
    let e : swap i j l ≡ set (set l i q) j p = ground (arith, at_i, at_j) in
    let len = length-set l i q in
    let apart : i ≢ j = λ d. absurd (omega (arith, d)) in
    let back : j ≢ i = λ d. absurd (omega (arith, d)) in
    rw (e) record {
      same = length-set (set l i q) j p ∙ len;
      first =
          get_elem?-set_ne (set l i q) p back ∙ get_elem?-set_self l i q (omega arith) ∙ sym at_j;
      second = get_elem?-set_self (set l i q) j p (omega (arith, len)) ∙ sym at_i;
      others = λ k other_i other_j.
          get_elem?-set_ne (set l i q) p other_j ∙ get_elem?-set_ne l q other_i;
    }

inside-Swapped :
    (i j : ℕ) (l m : List Pair) (k : ℕ) {r : Option Pair}
    → Swapped i j l m
    → (i ≤ k) × (k ≤ j)
    → ((i + 1 ≤ k) × (k ≤ j - 1) → r ≡ get_elem? m (i + 1 + (j - 1) - k))
    → ((k < i + 1) ⊎ (j - 1 < k) → r ≡ get_elem? m k)
    → r ≡ get_elem? l (i + j - k)
inside-Swapped i j l m k s (le, ge) inner outer = elim (ℕ_discrete i k) [
  | yes e ↦
      outer (inl (omega (arith, e)))
      ∙ ap (λ n. get_elem? m n) (sym e)
      ∙ s.first
      ∙ ap (λ n. get_elem? l n) (omega (arith, e))
  | no not_i ↦ elim (ℕ_discrete j k) [
    | yes e ↦
        outer (inr (omega (arith, not_i)))
        ∙ ap (λ n. get_elem? m n) (sym e)
        ∙ s.second
        ∙ ap (λ n. get_elem? l n) (omega (arith, e))
    | no not_j ↦
        inner (omega arith, omega arith)
        ∙ s.others (i + 1 + (j - 1) - k) (λ d. absurd (omega (arith, d)))
            (λ d. absurd (omega (arith, d)))
        ∙ ap (λ n. get_elem? l n) (omega arith)
  ]
]

-- Between its ends the loop turns the order round, and leaves the rest.
swap_loop-at :
    (fuel i j : ℕ) (l : List Pair) (k : ℕ)
    → j < length l
    → j ≤ i + 2 * fuel
    → ((i ≤ k) × (k ≤ j) → get_elem? (swap_loop fuel i j l) k ≡ get_elem? l (i + j - k))
      × (((k < i) ⊎ (j < k)) → get_elem? (swap_loop fuel i j l) k ≡ get_elem? l k)
      × (length (swap_loop fuel i j l) ≡ length l)
unfolding swap_loop
swap_loop-at zero i j l k there enough = (
  (λ inside. ap (λ n. get_elem? l n) (omega (arith, inside.0, inside.1))),
  (λ outside. refl),
  refl,
)
swap_loop-at (suc fuel) i j l k there enough = elim (dec_lt i j) [
  | no over ↦
      let stays : swap_loop (suc fuel) i j l ≡ l = ground arith in
      rw (stays) (
        (λ inside. ap (λ n. get_elem? l n) (omega (arith, inside.0, inside.1))),
        (λ outside. refl),
        refl,
      )
  | yes lt ↦
      let s = swap-Swapped i j l lt there in
      let goes : swap_loop (suc fuel) i j l ≡ swap_loop fuel (i + 1) (j - 1) (swap i j l) =
        ground arith in
      let (inner, outer, len) =
        swap_loop-at fuel (i + 1) (j - 1) (swap i j l) k (omega (arith, s.same)) (omega arith) in
      rw (goes) (
        (λ inside.
            inside-Swapped i j l (swap i j l) k s (inside.0, inside.1) (λ mid. inner mid)
              (λ out. outer out)),
        (λ outside. elim outside [
          | inl b ↦
              outer (inl (omega arith))
              ∙ s.others k (λ d. absurd (omega (arith, d))) (λ d. absurd (omega (arith, d)))
          | inr b ↦
              outer (inr (omega arith))
              ∙ s.others k (λ d. absurd (omega (arith, d))) (λ d. absurd (omega (arith, d)))
        ]),
        len ∙ s.same,
      )
]

turned :
    (l : List Pair) (k : ℕ)
    → (length (swap_loop (length l) 0 (length l - 1) l) ≡ length l)
      × (k < length l
          → get_elem? (swap_loop (length l) 0 (length l - 1) l) k ≡ get_elem? l (length l - 1 - k))
unfolding swap_loop
turned [] k = (refl, λ lt. absurd (omega arith))
turned (p ∷ l) k =
    let (inside, outside, len) =
      swap_loop-at (suc (length l)) 0 (length l) (p ∷ l) k (omega arith) (omega arith) in
    let end : suc (length l) - 1 ≡ length l = omega arith in
    rw (end)
      (len, λ lt. inside (omega arith, omega arith) ∙ ap (λ n. get_elem? (p ∷ l) n) (omega arith))

-- SortMap in descending order has the pairs of the ascending order in reverse, whatever sort.Sort
-- makes of them: as many, and at each place the pair as far from the end.
pub sort_map-desc :
    (sort : (Pair → Pair → Bool) → List Pair → List Pair) (float_lt : ℕ → ℕ → ℕ → Bool)
    (entries : Option (List Pair)) (by_key : Bool) (k : ℕ)
    → let up = sort_map sort float_lt entries by_key false in
      let down = sort_map sort float_lt entries by_key true in
      (length down ≡ length up)
      × (k < length up → get_elem? down k ≡ get_elem? up (length up - 1 - k))
unfolding sort_map
sort_map-desc sort float_lt none by_key k = (refl, λ lt. absurd (omega arith))
sort_map-desc sort float_lt (some entries) by_key k =
    let up = sort_map sort float_lt (some entries) by_key false in turned up k
