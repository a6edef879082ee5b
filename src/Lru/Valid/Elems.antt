-- ===== src/Lru/Valid/Elems.antt =====
-- The evict list by itself: what removing an element leaves, where no key and no number stands twice.
use gotools.Common.{
  ℕ, ◌+◌, ◌<◌, ◌≡◌, refl, sym, ◌≢◌, arith, List, [], ◌∷◌, ◌==◌, length, Option, none, some, All,
  Bool-cases, inl, inr,
}
use gotools.Lru.Elements.{Elem, find_elem, remove_elem, back}
use mathlib.Core.Logic.{ite}
use mathlib.Core.Path.{subst}

module _ {K V : Type 0} where
  abbrev pub Apart : Elem K V → List (Elem K V) → Type 0
  Apart e = All (λ f. (f.id ≢ e.id) × (f.key ≢ e.key))

  abbrev pub Distinct : List (Elem K V) → Type 0
  Distinct [] = Unit
  Distinct (e ∷ l) = Apart e l × Distinct l

  abbrev pub id_of : Option (Elem K V) → Option ℕ
  id_of none = none
  id_of (some e) = some e.id

  pub All-remove_elem :
      (P : Elem K V → Type 0) (i : ℕ) (l : List (Elem K V)) → All P l → All P (remove_elem i l)
  unfolding remove_elem
  All-remove_elem P i [] h = h
  All-remove_elem P i (e ∷ l) h = ground (arith, All-remove_elem P i l h.1)

  pub Distinct-remove_elem : (i : ℕ) (l : List (Elem K V)) → Distinct l → Distinct (remove_elem i l)
  unfolding remove_elem
  Distinct-remove_elem i [] h = h
  Distinct-remove_elem i (e ∷ l) h = ground (
    arith,
    Distinct-remove_elem i l h.1,
    All-remove_elem (λ f. (f.id ≢ e.id) × (f.key ≢ e.key)) i l h.0,
  )

  pub length-remove_elem :
      (i : ℕ) (l : List (Elem K V)) {e : Elem K V}
      → find_elem i l ≡ some e
      → length (remove_elem i l) + 1 ≡ length l
  unfolding remove_elem find_elem
  length-remove_elem i [] h = cc
  length-remove_elem i (f ∷ l) {e} h = ground (arith, length-remove_elem i l {e = e})

  -- An element apart from the list is not found there by its number.
  pub find_elem_absent : (e : Elem K V) (l : List (Elem K V)) → Apart e l → find_elem e.id l ≡ none
  unfolding find_elem
  find_elem_absent e [] h = refl
  find_elem_absent e (f ∷ l) h = ground (arith, find_elem_absent e l h.1)

  pub find_elem_of_back :
      (l : List (Elem K V)) (e : Elem K V)
      → Distinct l
      → back l ≡ some e
      → find_elem e.id l ≡ some e
  unfolding back find_elem
  find_elem_of_back [] e d h = cc
  find_elem_of_back (f ∷ []) e d h = ground arith
  find_elem_of_back (f ∷ g ∷ l) e d h =
      ground (arith, find_elem_of_back (g ∷ l) e d.1 h, find_elem_absent f (g ∷ l) d.0)

  pub length-eq-zero_of_back : (l : List (Elem K V)) → back l ≡ none → length l ≡ 0
  unfolding back
  length-eq-zero_of_back [] h = refl
  length-eq-zero_of_back (e ∷ []) h = cc
  length-eq-zero_of_back (e ∷ f ∷ l) h = absurd (omega (arith, length-eq-zero_of_back (f ∷ l) h))

  pub nil_of_back : (l : List (Elem K V)) → back l ≡ none → l ≡ []
  nil_of_back [] h = refl
  nil_of_back (e ∷ l) h = absurd (omega (arith, length-eq-zero_of_back (e ∷ l) h))

  pub length-pos_of_back : (l : List (Elem K V)) (e : Elem K V) → back l ≡ some e → 0 < length l
  unfolding back
  length-pos_of_back [] e h = cc
  length-pos_of_back (f ∷ l) e h = omega arith

  pub back-cons : (e f : Elem K V) (l : List (Elem K V)) → back l ≡ some f → back (e ∷ l) ≡ some f
  unfolding back
  back-cons e f [] h = cc
  back-cons e f (g ∷ l) h = h

  pub All-find_elem :
      (P : Elem K V → Type 0) (i : ℕ) (l : List (Elem K V)) (e : Elem K V)
      → All P l
      → find_elem i l ≡ some e
      → P e
  unfolding find_elem
  All-find_elem P i [] e a h = cc
  All-find_elem P i (f ∷ l) e a h = elim (Bool-cases (f.id == i)) [
    | inl here ↦ let same : f ≡ e = ground arith in subst P same a.0
    | inr other ↦ All-find_elem P i l e a.1 (rw other at h)
  ]

  pub Apart-remove_elem :
      (e : Elem K V) (l : List (Elem K V))
      → Distinct l
      → find_elem e.id l ≡ some e
      → Apart e (remove_elem e.id l)
  unfolding find_elem remove_elem
  Apart-remove_elem e [] d h = cc
  Apart-remove_elem e (f ∷ l) d h = elim (Bool-cases (f.id == e.id)) [
    | inl here ↦ let same : f ≡ e = ground arith in rw here (subst (λ g. Apart g l) same d.0)
    | inr other ↦
        let found : find_elem e.id l ≡ some e = rw other at h in
        let away = All-find_elem (λ g. (g.id ≢ f.id) × (g.key ≢ f.key)) e.id l e d.0 found in
        rw other ((λ p. away.0 (sym p), λ p. away.1 (sym p)), Apart-remove_elem e l d.1 found)
  ]

module _ {K V : Type 0} (dec : Discrete K) where
  -- The first element with a key: the list read as a map.
  unfoldable pub find_key : K → List (Elem K V) → Option (Elem K V)
  find_key k [] = none
  find_key k (e ∷ l) = ite (dec e.key k) (some e) (find_key k l)

  pub key_of_find_key :
      (k : K) (l : List (Elem K V)) (e : Elem K V) → find_key k l ≡ some e → e.key ≡ k
  unfolding find_key
  key_of_find_key k [] e h = cc
  key_of_find_key k (f ∷ l) e h = ground (arith, key_of_find_key k l e)

  pub find_key_absent : (e : Elem K V) (l : List (Elem K V)) → Apart e l → find_key e.key l ≡ none
  unfolding find_key
  find_key_absent e [] h = refl
  find_key_absent e (f ∷ l) h = ground (arith, find_key_absent e l h.1)

  -- The two ways to find an element agree.
  pub find_elem_of_key :
      (k : K) (l : List (Elem K V)) (e : Elem K V)
      → Distinct l
      → find_key k l ≡ some e
      → find_elem e.id l ≡ some e
  unfolding find_key find_elem
  find_elem_of_key k [] e d h = cc
  find_elem_of_key k (f ∷ l) e d h =
      ground (arith, find_elem_of_key k l e d.1, find_elem_absent f l d.0)

  pub find_key_of_elem :
      (l : List (Elem K V)) (e : Elem K V)
      → Distinct l
      → find_elem e.id l ≡ some e
      → find_key e.key l ≡ some e
  unfolding find_key find_elem
  find_key_of_elem [] e d h = cc
  find_key_of_elem (f ∷ l) e d h = ground (arith, find_key_of_elem l e d.1, find_key_absent f l d.0)

  pub find_key-remove_elem :
      (k : K) (l : List (Elem K V)) (e : Elem K V)
      → Distinct l
      → find_elem e.id l ≡ some e
      → find_key k (remove_elem e.id l) ≡ ite (dec e.key k) none (find_key k l)
  unfolding find_key find_elem remove_elem
  find_key-remove_elem k [] e d h = cc
  find_key-remove_elem k (f ∷ l) e d h =
      ground
        (arith, find_key-remove_elem k l e d.1, find_key_absent f l d.0, find_key_of_elem l e d.1)

  -- A new element with an unused number and an absent key stands apart.
  pub new-Apart :
      (i : ℕ) (k : K) (v : V) (l : List (Elem K V))
      → All (λ e. e.id < i) l
      → find_key k l ≡ none
      → Apart (record { id = i; key = k; value = v }) l
  unfolding find_key
  new-Apart i k v [] n h = tt
  new-Apart i k v (f ∷ l) n h = ground (arith, new-Apart i k v l n.1)
