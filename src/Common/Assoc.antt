-- ===== src/Common/Assoc.antt =====
-- Go's maps as association lists over keys with a decidable equality. The order of the list stands
-- for the order in which a `range` visits the map.
use gotools.Common.{◌≤◌, ◌≡◌, refl, arith, List, [], ◌∷◌, ◌++◌, length, Option, none, some}
use mathlib.Core.Logic.{ite}

module _ {ℓ} {K V : Type ℓ} (dec : Discrete K) where
  unfoldable pub get : K → List (K × V) → Option V
  get k [] = none
  get k ((j, v) ∷ m) = ite (dec j k) (some v) (get k m)

  unfoldable pub insert : K → V → List (K × V) → List (K × V)
  insert k v [] = (k, v) ∷ []
  insert k v ((j, w) ∷ m) = ite (dec j k) ((j, v) ∷ m) ((j, w) ∷ insert k v m)

  unfoldable pub delete : K → List (K × V) → List (K × V)
  delete k [] = []
  delete k ((j, w) ∷ m) = ite (dec j k) (delete k m) ((j, w) ∷ delete k m)

  pub get-insert :
      (k j : K) (v : V) (m : List (K × V)) → get j (insert k v m) ≡ ite (dec k j) (some v) (get j m)
  unfolding get insert
  get-insert k j v [] = refl
  get-insert k j v ((i, w) ∷ m) = ground (arith, get-insert k j v m)

  pub get-delete : (k j : K) (m : List (K × V)) → get j (delete k m) ≡ ite (dec k j) none (get j m)
  unfolding get delete
  get-delete k j [] = ground arith
  get-delete k j ((i, w) ∷ m) = ground (arith, get-delete k j m)

  pub length-delete-le : (k : K) (m : List (K × V)) → length (delete k m) ≤ length m
  unfolding delete
  length-delete-le k [] = omega arith
  length-delete-le k ((i, w) ∷ m) = ground (arith, length-delete-le k m)

  -- The keys of `order` are gone, and the others read as before.
  unfoldable pub delete_all : List (K × V) → List (K × V) → List (K × V)
  delete_all [] m = m
  delete_all ((k, v) ∷ order) m = delete_all order (delete k m)

  pub get-delete_all :
      (j : K) (order m : List (K × V))
      → get j (delete_all order m) ≡ elim (get j order) [ none ↦ get j m | some v ↦ none ]
  unfolding get delete_all
  get-delete_all j [] m = refl
  get-delete_all j ((k, v) ∷ order) m =
      ground (arith, get-delete_all j order (delete k m), get-delete k j m)

  pub get-append :
      (k : K) (m n : List (K × V))
      → get k (m ++ n) ≡ elim (get k m) [ none ↦ get k n | some v ↦ some v ]
  unfolding get
  get-append k [] n = refl
  get-append k ((j, w) ∷ m) n = ground (arith, get-append k m n)

  -- A key that is not there goes behind the others, and one that stands last is replaced there.
  pub insert_absent :
      (k : K) (v : V) (m : List (K × V)) → get k m ≡ none → insert k v m ≡ m ++ (k, v) ∷ []
  unfolding get insert
  insert_absent k v [] h = refl
  insert_absent k v ((j, w) ∷ m) h = ground (arith, insert_absent k v m)

  pub insert_last :
      (k : K) (v w : V) (m : List (K × V))
      → get k m ≡ none
      → insert k v (m ++ (k, w) ∷ []) ≡ m ++ (k, v) ∷ []
  unfolding get insert
  insert_last k v w [] h = ground arith
  insert_last k v w ((j, u) ∷ m) h = ground (arith, insert_last k v w m)

module _ {K V : Type 0} (dec : Discrete K) where
  -- No key stands twice.
  abbrev pub Unique : List (K × V) → Type 0
  Unique [] = Unit
  Unique ((j, w) ∷ m) = (get dec j m ≡ none) × Unique m

  pub insert-Unique : (k : K) (v : V) (m : List (K × V)) → Unique m → Unique (insert dec k v m)
  unfolding insert get
  insert-Unique k v [] u = (refl, tt)
  insert-Unique k v ((j, w) ∷ m) u =
      elim (dec j k) as (λ d. Unique (ite d ((j, v) ∷ m) ((j, w) ∷ insert dec k v m))) [
        | yes p ↦ u
        | no n ↦ (ground (arith, get-insert dec k j v m, u.0), insert-Unique k v m u.1)
      ]

  pub delete-Unique : (k : K) (m : List (K × V)) → Unique m → Unique (delete dec k m)
  unfolding delete
  delete-Unique k [] u = tt
  delete-Unique k ((j, w) ∷ m) u =
      elim (dec j k) as (λ d. Unique (ite d (delete dec k m) ((j, w) ∷ delete dec k m))) [
        | yes p ↦ delete-Unique k m u.1
        | no n ↦ (ground (arith, get-delete dec k j m, u.0), delete-Unique k m u.1)
      ]
