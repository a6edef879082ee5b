-- ===== src/Lru/Elements.antt =====
-- The cache record of stkvbuffer/lru.go, and container/list as the file uses it.
use gotools.Common.{ℕ, List, [], ◌∷◌, Option, none, some, ◌==◌, if◌then◌else◌}

-- A list element with the `*entry` that it holds.
pub record Elem (K V : Type 0) : Type 0 where
  pub id : ℕ
  pub key : K
  pub value : V

-- `fresh` numbers the elements to come: `list.PushFront` allocates.
pub record Lru (K V S : Type 0) : Type 0 where
  pub size : ℕ
  pub evict_list : List (Elem K V)
  pub items : List (K × ℕ)
  pub on_evict : Option (K → V → S → S)
  pub fresh : ℕ

module _ {K V : Type 0} where
  -- The element behind a pointer.
  unfoldable pub find_elem : ℕ → List (Elem K V) → Option (Elem K V)
  find_elem i [] = none
  find_elem i (e ∷ l) = if e.id == i then some e else find_elem i l

  -- `l.Remove(e)`
  unfoldable pub remove_elem : ℕ → List (Elem K V) → List (Elem K V)
  remove_elem i [] = []
  remove_elem i (e ∷ l) = if e.id == i then l else e ∷ remove_elem i l

  -- `l.Back()`
  unfoldable pub back : List (Elem K V) → Option (Elem K V)
  back [] = none
  back (e ∷ []) = some e
  back (e ∷ f ∷ l) = back (f ∷ l)
