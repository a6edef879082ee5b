-- ===== src/SortMap.antt =====
-- stutil/sort.go: the pairs of a map, sorted by their keys or their values. What an interface holds
-- is of a predeclared type: its kind with the bits of a number or the bytes of a string. The order
-- of floats and sort.Sort are parameters.
use gotools.Common.{
  ℕ, zero, suc, ◌+◌, ◌-◌, ◌%◌, ◌^◌, List, [], ◌∷◌, ltb, ◌==◌, length, set, get_elem?, Bool, true,
  false, ◌&&◌, if◌then◌else◌, Option, none, some,
}
pub mod Reversed
mod Tests

-- The kinds that `less` looks at; an int and a uint have the width 0.
pub data Kind : Type 0 where
  signed unsigned float : ℕ → Kind
  text other : Kind

pub record Iface : Type 0 where
  pub kind : Kind
  pub bits : ℕ
  pub bytes : List ℕ

pub record Pair : Type 0 where
  pub a : Iface
  pub b : Iface

abbrev pub same_kind : Kind → Kind → Bool
same_kind (signed v) (signed w) = v == w
same_kind (unsigned v) (unsigned w) = v == w
same_kind (float v) (float w) = v == w
same_kind text text = true
same_kind k l = false

-- The width of an int.
abbrev pub width_of : ℕ → ℕ
width_of zero = 64
width_of (suc w) = suc w

-- The order of signed numbers, by their bits.
abbrev pub signed_lt : ℕ → ℕ → ℕ → Bool
signed_lt w m n = ltb ((m + 2 ^ (w - 1)) % 2 ^ w) ((n + 2 ^ (w - 1)) % 2 ^ w)

abbrev pub text_lt : List ℕ → List ℕ → Bool
text_lt l [] = false
text_lt [] (d ∷ m) = true
text_lt (c ∷ l) (d ∷ m) = let rest = text_lt l m in if c == d then rest else ltb c d

abbrev pub kind_lt : (ℕ → ℕ → ℕ → Bool) → Kind → Iface → Iface → Bool
kind_lt float_lt (signed w) a b = signed_lt (width_of w) a.bits b.bits
kind_lt float_lt (unsigned w) a b = ltb a.bits b.bits
kind_lt float_lt (float w) a b = float_lt w a.bits b.bits
kind_lt float_lt text a b = text_lt a.bytes b.bytes
kind_lt float_lt other a b = false

-- less
unfoldable pub less : (ℕ → ℕ → ℕ → Bool) → Iface → Iface → Bool
less float_lt a b = if same_kind a.kind b.kind then kind_lt float_lt a.kind a b else false

-- One round of the loop that turns the order round.
abbrev pub swap : ℕ → ℕ → List Pair → List Pair
swap i j l = elim (get_elem? l i) [
  | none ↦ l
  | some p ↦ elim (get_elem? l j) [ none ↦ l | some q ↦ set (set l i q) j p ]
]

-- The loop; every round brings its ends two nearer.
unfoldable pub swap_loop : ℕ → ℕ → ℕ → List Pair → List Pair
swap_loop zero from to l = l
swap_loop (suc fuel) from to l =
    let next = swap_loop fuel (from + 1) (to - 1) (swap from to l) in
    if ltb from to then next else l

-- SortMap, of the pairs of a map in the order in which they are visited; none stands for a value
-- that is no map. The last place of an empty result is -1, and the loop does not run.
unfoldable pub sort_map :
    ((Pair → Pair → Bool) → List Pair → List Pair)
    → (ℕ → ℕ → ℕ → Bool)
    → Option (List Pair)
    → Bool
    → Bool
    → List Pair
unfolding less swap_loop
sort_map sort float_lt none by_key is_desc = []
sort_map sort float_lt (some entries) by_key is_desc =
    let by_a = sort (λ p q. less float_lt p.a q.a) entries in
    let by_b = sort (λ p q. less float_lt p.b q.b) entries in
    let res = if by_key then by_a else by_b in
    if is_desc then swap_loop (length res) 0 (length res - 1) res else res
