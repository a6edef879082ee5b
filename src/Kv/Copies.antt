-- ===== src/Kv/Copies.antt =====
-- Go's `copy` of two lists in a row, and into the middle of a list.
use gotools.Common.{
  ℕ, zero, suc, ◌+◌, ◌-◌, ◌≤◌, ◌≡◌, refl, ap, ◌∙◌, arith, List, [], ◌∷◌, ◌++◌, length,
  length-append, length-take, length-drop, take, drop, copy, copy_at, drop_of_length-le,
  take_of_length-le,
}

module _ {A : Type 0} where
  pub drop-append_le : (n : ℕ) (k v : List A) → n ≤ length k → drop n (k ++ v) ≡ drop n k ++ v
  drop-append_le zero k v h = refl
  drop-append_le (suc n) [] v h = absurd (omega arith)
  drop-append_le (suc n) (x ∷ k) v h = drop-append_le n k v (omega arith)

  pub drop-append_ge :
      (n : ℕ) (k v : List A) → length k ≤ n → drop n (k ++ v) ≡ drop (n - length k) v
  drop-append_ge n [] v h = ap (λ (m : ℕ). drop m v) (omega arith)
  drop-append_ge zero (x ∷ k) v h = absurd (omega arith)
  drop-append_ge (suc n) (x ∷ k) v h =
      drop-append_ge n k v (omega arith) ∙ ap (λ (m : ℕ). drop m v) (omega arith)

  pub take-append_le : (n : ℕ) (k v : List A) → n ≤ length k → take n (k ++ v) ≡ take n k
  take-append_le zero k v h = refl
  take-append_le (suc n) [] v h = absurd (omega arith)
  take-append_le (suc n) (x ∷ k) v h = ap (◌∷◌ x) (take-append_le n k v (omega arith))

  pub take-append_ge :
      (n : ℕ) (k v : List A) → length k ≤ n → take n (k ++ v) ≡ k ++ take (n - length k) v
  take-append_ge n [] v h = ap (λ (m : ℕ). take m v) (omega arith)
  take-append_ge zero (x ∷ k) v h = absurd (omega arith)
  take-append_ge (suc n) (x ∷ k) v h =
      ap (◌∷◌ x) (take-append_ge n k v (omega arith) ∙ ap (λ (m : ℕ). k ++ take m v) (omega arith))

  pub copy-nil : (d : List A) → copy d [] ≡ d
  copy-nil d = rw (take_of_length-le {A = A} (length d) [] (omega arith)) refl

  copy-append :
      (d k v : List A) → length k ≤ length d → copy_at (copy d k) (length k) v ≡ copy d (k ++ v)
  copy-append d [] v h = rw (copy-nil d) refl
  copy-append [] (x ∷ k) v h = absurd (omega arith)
  copy-append (y ∷ d) (x ∷ k) v h = ap (◌∷◌ x) (copy-append d k v (omega arith))

  copy-append_long : (d k v : List A) → length d ≤ length k → copy d (k ++ v) ≡ copy d k
  copy-append_long [] k v h =
      rw
        (
          drop_of_length-le {A = A} (length (k ++ v)) [] (omega arith),
          drop_of_length-le {A = A} (length k) [] (omega arith),
        )
        refl
  copy-append_long (y ∷ d) [] v h = absurd (omega arith)
  copy-append_long (y ∷ d) (x ∷ k) v h = ap (◌∷◌ x) (copy-append_long d k v (omega arith))

  pub length-copy_at : (d : List A) (s : ℕ) (w : List A) → length (copy_at d s w) ≡ length d
  length-copy_at d s w = omega (
    arith,
    length-append (take s d) (copy (drop s d) w),
    length-append (take (length (drop s d)) w) (drop (length w) (drop s d)),
    length-take s d,
    length-drop s d,
    length-take (length (drop s d)) w,
    length-drop (length w) (drop s d),
  )

  pub drop-copy_at :
      (d : List A) (s : ℕ) (w : List A) → s ≤ length d → drop s (copy_at d s w) ≡ copy (drop s d) w
  drop-copy_at d zero w h = refl
  drop-copy_at [] (suc s) w h = absurd (omega arith)
  drop-copy_at (x ∷ d) (suc s) w h = drop-copy_at d s w (omega arith)

  pub copy_at-nil : (d : List A) (s : ℕ) → copy_at d s [] ≡ d
  copy_at-nil d zero = copy-nil d
  copy_at-nil [] (suc s) = refl
  copy_at-nil (x ∷ d) (suc s) = ap (◌∷◌ x) (copy_at-nil d s)

  -- Two copies in a row are one of both.
  pub copy_at-append :
      (d : List A) (s : ℕ) (k v : List A)
      → s + length k ≤ length d
      → copy_at (copy_at d s k) (s + length k) v ≡ copy_at d s (k ++ v)
  copy_at-append d zero k v h =
      let e : 0 + length k ≡ length k = omega arith in rw e (copy-append d k v (omega arith))
  copy_at-append [] (suc s) k v h = absurd (omega arith)
  copy_at-append (x ∷ d) (suc s) k v h =
      let e : suc s + length k ≡ suc (s + length k) = omega arith in
      rw e (ap (◌∷◌ x) (copy_at-append d s k v (omega arith)))

  pub copy_at-append_long :
      (d : List A) (s : ℕ) (k v : List A)
      → length d - s ≤ length k
      → copy_at d s (k ++ v) ≡ copy_at d s k
  copy_at-append_long d zero k v h = copy-append_long d k v (omega arith)
  copy_at-append_long [] (suc s) k v h = copy-append_long [] k v (omega arith)
  copy_at-append_long (x ∷ d) (suc s) k v h = ap (◌∷◌ x) (copy_at-append_long d s k v (omega arith))
