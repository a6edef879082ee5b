-- ===== src/Spb/Decoded.antt =====
-- unpack of stnet/spb.go on the bytes of a scalar and of a text, and the fields that are left out.
use gotools.Common.{
  ℕ, suc, ◌+◌, ◌^◌, ◌<◌, ◌≡◌, refl, sym, ap, ◌∙◌, arith, List, [], ◌∷◌, ◌++◌, ◌==◌, length,
  length-append, append_assoc, Bool, true, false, some, ◌⊎◌, inl, inr, Bool-cases,
}
use gotools.Common.Varint.{IsU64, varint64}
use gotools.Spb.Values.{
  Width, w8, w16, w32, w64, bits, Value, Values, Entries, length_values, length_entries,
}
use gotools.Spb.Read.{Spb, done}
use gotools.Spb.Unpack.{
  Runtime, Target, target_of, value_at, put_at, set_positive, set_negative, set_string,
}
use gotools.Spb.Decode.{unpack_field}
use gotools.Spb.Numbers.{advance, Ahead, length-Ahead, header_bytes}
use gotools.Spb.Wire.{sign_type, magnitude, scalar_wire, wire, blank, Carried, length-header}
use gotools.Spb.Steps.{read_positive, read_negative, read_text}
use gotools.Spb.Structs.{modify_at-put_at}

-- Two ways to write one result.
pub landed :
    (s : Spb) (a b : Value) (m n : ℕ) → a ≡ b → m ≡ n → done a (advance m s) ≡ done b (advance n s)
landed s a b m n p q = cc

pub landed_twice :
    {A : Type 0} (s : Spb) (a b : A) (k m n : ℕ)
    → a ≡ b
    → k + m ≡ n
    → done a (advance m (advance k s)) ≡ done b (advance n s)
landed_twice s a b k m n p q =
    let e : s.index + k + m ≡ s.index + n = omega arith in
    rw p (ap (λ (i : ℕ). done b (record s { index = i })) e)

pub landed_thrice :
    {A : Type 0} (s : Spb) (a : A) (j k m n : ℕ)
    → j + k + m ≡ n
    → done a (advance m (advance k (advance j s))) ≡ done a (advance n s)
landed_thrice s a j k m n q =
    let e : s.index + j + k + m ≡ s.index + n = omega arith in
    ap (λ (i : ℕ). done a (record s { index = i })) e

-- A header, a count and what is inside, with the rest behind them.
pub spread : (h n w rest : List ℕ) → (h ++ (n ++ w)) ++ rest ≡ h ++ (n ++ (w ++ rest))
spread h n w rest = simp append_assoc

pub length-spread : (h n w : List ℕ) → length h + length n + length w ≡ length (h ++ (n ++ w))
length-spread h n w = omega (arith, length-append h (n ++ w), length-append n w)

-- A signed integer goes out by one of the two types, and the setter of that type restores it.
pub int_sign :
    (w : Width) (p : ℕ)
    → p < 2 ^ bits w
    → ((sign_type w p ≡ 0) × (set_positive (magnitude w p) (Value.int w 0) ≡ Value.int w p))
      ⊎ ((sign_type w p ≡ 1) × (set_negative (magnitude w p) (Value.int w 0) ≡ Value.int w p))
unfolding set_positive set_negative
int_sign w8 p h = ground arith
int_sign w16 p h = ground arith
int_sign w32 p h = ground arith
int_sign w64 p h = ground arith

module _ (rt : Runtime) (first : Bool) (x : Value) (t : Target) (tag fuel : ℕ) (s : Spb) where
  pub positive-reads :
      (n : ℕ) (rest : List ℕ) (u v : Value)
      → tag < 2 ^ 32
      → IsU64 n
      → target_of first tag x ≡ t
      → value_at t x ≡ some u
      → set_positive n u ≡ v
      → Ahead s (scalar_wire tag true 0 n ++ rest)
      → unpack_field rt (suc fuel) first x s
        ≡ done (put_at t v x) (advance (length (scalar_wire tag true 0 n)) s)
  positive-reads n rest u v ht hn target value e ahead =
      read_positive rt first x t tag fuel s n rest ht hn target (rw append_assoc at ahead)
      ∙ landed s _ _ _ _ (modify_at-put_at t (set_positive n) x u v value e)
          (sym (length-append (header_bytes tag 0) (varint64 n)))

  pub negative-reads :
      (n : ℕ) (rest : List ℕ) (u v : Value)
      → tag < 2 ^ 32
      → IsU64 n
      → target_of first tag x ≡ t
      → value_at t x ≡ some u
      → set_negative n u ≡ v
      → Ahead s (scalar_wire tag true 1 n ++ rest)
      → unpack_field rt (suc fuel) first x s
        ≡ done (put_at t v x) (advance (length (scalar_wire tag true 1 n)) s)
  negative-reads n rest u v ht hn target value e ahead =
      read_negative rt first x t tag fuel s n rest ht hn target (rw append_assoc at ahead)
      ∙ landed s _ _ _ _ (modify_at-put_at t (set_negative n) x u v value e)
          (sym (length-append (header_bytes tag 1) (varint64 n)))

  pub text-reads :
      (b rest : List ℕ)
      → tag < 2 ^ 32
      → length b < 2 ^ 63
      → length s.buf < 2 ^ 63
      → target_of first tag x ≡ t
      → value_at t x ≡ some (Value.string [])
      → Ahead s (wire tag (Value.string b) true ++ rest)
      → unpack_field rt (suc fuel) first x s
        ≡ done (put_at t (Value.string b) x) (advance (length (wire tag (Value.string b) true)) s)
  unfolding wire set_string
  text-reads b rest ht hb hl target value ahead =
      let h = header_bytes tag 4 in
      let n = varint64 (length b) in
      let size : length (h ++ (n ++ b)) ≡ length h + length n + length b =
        omega (arith, length-append h (n ++ b), length-append n b) in
      let inside = length-Ahead s _ ahead in
      let all = length-append (h ++ (n ++ b)) rest in
      let some_header = length-header tag 4 in
      read_text rt first x t tag fuel s b rest ht (omega arith) target (ahead ∙ spread h n b rest)
      ∙ landed_twice s _ _ _ _ _
          (modify_at-put_at t (set_string b) x (Value.string []) (Value.string b) value refl)
          (sym size)

-- A field that is left out is zero, and any other stands as if it were required.
int_zero : (w : Width) (p : ℕ) → p < 2 ^ bits w → magnitude w p ≡ 0 → p ≡ 0
int_zero w8 p h e = ground arith
int_zero w16 p h e = ground arith
int_zero w32 p h e = ground arith
int_zero w64 p h e = ground arith

nil_values : (vs : Values) → length_values vs ≡ 0 → vs ≡ Values.nil
nil_values Values.nil e = refl
nil_values (Values.cons v vs) e = absurd (omega arith)

empty_entries : (es : Entries) → length_entries es ≡ 0 → es ≡ Entries.empty
empty_entries Entries.empty e = refl
empty_entries (Entries.entry k v es) e = absurd (omega arith)

nil_bytes : (b : List ℕ) → length b ≡ 0 → b ≡ []
nil_bytes [] e = refl
nil_bytes (c ∷ b) e = absurd (omega arith)

pub dropped :
    (rt : Runtime) (v : Value) (tag : ℕ) (require : Bool)
    → Carried rt v
    → ((wire tag v require ≡ []) × (blank v ≡ v)) ⊎ (wire tag v require ≡ wire tag v true)
unfolding wire blank Carried
dropped rt v tag true c = inr refl
dropped rt (Value.bool true) tag false c = inr refl
dropped rt (Value.bool false) tag false c = inl (refl, refl)
dropped rt (Value.int w p) tag false c = elim (Bool-cases (magnitude w p == 0)) [
  | inl z ↦ inl (rw z refl, rw (int_zero w p c (ground arith)) refl)
  | inr n ↦ inr (rw n refl)
]
dropped rt (Value.uint w n) tag false c = elim (Bool-cases (n == 0)) [
  | inl z ↦ let e : n ≡ 0 = ground arith in inl (rw z refl, rw e refl)
  | inr p ↦ inr (rw p refl)
]
dropped rt (Value.float32 n) tag false c = absurd c
dropped rt (Value.float64 n) tag false c = absurd c
dropped rt (Value.string b) tag false c = elim (Bool-cases (length b == 0)) [
  | inl z ↦ let e : b ≡ [] = nil_bytes b (ground arith) in inl (rw z refl, rw e refl)
  | inr p ↦ inr (rw p refl)
]
dropped rt (Value.slice t vs) tag false c = elim (Bool-cases (length_values vs == 0)) [
  | inl z ↦ let e : vs ≡ Values.nil = nil_values vs (ground arith) in inl (rw z refl, rw e refl)
  | inr p ↦ inr (rw p refl)
]
dropped rt (Value.mapping k t es) tag false c = elim (Bool-cases (length_entries es == 0)) [
  | inl z ↦
      let e : es ≡ Entries.empty = empty_entries es (ground arith) in inl (rw z refl, rw e refl)
  | inr p ↦ inr (rw p refl)
]
dropped rt (Value.struct fs) tag false c = inr refl
dropped rt (Value.ptr v) tag false c = absurd c
dropped rt (Value.nil_ptr t) tag false c = absurd c
dropped rt Value.other tag false c = absurd c
