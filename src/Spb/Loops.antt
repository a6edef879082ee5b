-- ===== src/Spb/Loops.antt =====
-- The rounds of the decoder's loops, the fields of a struct, and the lengths of what is read.
use gotools.Common.{
  ℕ, suc, ◌+◌, ◌*◌, ◌^◌, ◌≤◌, ◌<◌, ◌≡◌, refl, sym, ap, ◌∙◌, arith, List, ◌++◌, length,
  length-append, Bool, true, false, some,
}
use gotools.Common.Varint.{IsU64, varint64}
use gotools.Spb.Values.{
  Width, bits, FieldTag, Ty, Value, Values, Entries, Fields, length_values, length_entries,
  length_fields, zero_of,
}
use gotools.Spb.Pack.{struct_end}
use gotools.Spb.Read.{Spb, done, failed, M}
use gotools.Spb.Unpack.{
  Runtime, at_field, target_of, value_at, put_at, set_positive, new_elem, elem_of, field_index,
}
use gotools.Spb.Decode.{unpack_field, elems_loop, entries_loop, fields_loop, through}
use gotools.Spb.Numbers.{advance, Ahead, Ahead-advance, header_bytes}
use gotools.Spb.Wire.{
  sign_type, magnitude, wire_number, bool_number, wire, wire_elems, wire_entries, wire_fields,
  blank, blank_fields, Carried, length-header,
}
use gotools.Spb.Structs.{join, one, join_assoc, field_index-blank, get_field-join, set_field-join}
use gotools.Spb.Decoded.{spread, length-spread}
use native.Mathlib.Nat.{mod-eq_of_lt}

pub bool_back : (b : Bool) → set_positive (bool_number b) (Value.bool false) ≡ Value.bool b
unfolding set_positive
bool_back true = refl
bool_back false = refl

pub bool_number-IsU64 : (b : Bool) → IsU64 (bool_number b)
bool_number-IsU64 true = omega arith
bool_number-IsU64 false = omega arith

pub uint_back :
    (w : Width) (n : ℕ) → n < 2 ^ bits w → set_positive n (Value.uint w 0) ≡ Value.uint w n
unfolding set_positive
uint_back w n h = ap (Value.uint w) (mod-eq_of_lt h)

module _ (rt : Runtime) (fuel : ℕ) (s s1 s2 : Spb) where
  pub elem_step :
      (n : ℕ) (t : Ty) (v : Value) (vs : Values)
      → elem_of t v ≡ v
      → unpack_field rt fuel true (new_elem t) s ≡ done v s1
      → elems_loop rt fuel n t s1 ≡ done vs s2
      → elems_loop rt (suc fuel) (suc n) t s ≡ done (Values.cons v vs) s2
  unfolding unpack_field
  elem_step n t v vs e field loop = rw (field, loop, e)

  pub entry_step :
      (n : ℕ) (k t : Ty) (a v : Value) (es : Entries) (s3 : Spb)
      → elem_of t v ≡ v
      → through (zero_of k) (λ x. unpack_field rt fuel true x) s ≡ done a s1
      → unpack_field rt fuel true (new_elem t) s1 ≡ done v s2
      → entries_loop rt fuel n k t s2 ≡ done es s3
      → entries_loop rt (suc fuel) (suc n) k t s ≡ done (Entries.entry a v es) s3
  unfolding unpack_field
  entry_step n k t a v es s3 e key field loop = ground (arith, key, field, loop, e)

  pub field_step :
      (x x1 x2 : Value)
      → unpack_field rt fuel false x s ≡ done x1 s1
      → fields_loop rt fuel x1 s1 ≡ done x2 s2
      → fields_loop rt (suc fuel) x s ≡ done x2 s2
  unfolding unpack_field
  field_step x x1 x2 field loop = rw field loop

  pub elems_end : (t : Ty) → elems_loop rt (suc fuel) 0 t s ≡ done Values.nil (advance 0 s)
  unfolding unpack_field
  elems_end t = ap (λ (i : ℕ). done Values.nil (record s { index = i })) (omega arith)

  pub entries_end :
      (k t : Ty) → entries_loop rt (suc fuel) 0 k t s ≡ done Entries.empty (advance 0 s)
  unfolding unpack_field
  entries_end k t = ap (λ (i : ℕ). done Entries.empty (record s { index = i })) (omega arith)

  pub end_step :
      (x : Value)
      → unpack_field rt fuel false x s ≡ failed struct_end s1
      → fields_loop rt (suc fuel) x s ≡ done x s1
  unfolding unpack_field
  end_step x field = rw field

-- The zero value of a key that the format carries is no pointer.
pub through-blank :
    (rt : Runtime) (a : Value) (f : Value → M Value)
    → Carried rt a
    → through (blank a) f ≡ f (blank a)
unfolding blank Carried
through-blank rt (Value.bool b) f c = refl
through-blank rt (Value.int w p) f c = refl
through-blank rt (Value.uint w n) f c = refl
through-blank rt (Value.float32 n) f c = refl
through-blank rt (Value.float64 n) f c = refl
through-blank rt (Value.string b) f c = refl
through-blank rt (Value.slice t vs) f c = refl
through-blank rt (Value.mapping k t es) f c = refl
through-blank rt (Value.struct fs) f c = refl
through-blank rt (Value.ptr v) f c = absurd c
through-blank rt (Value.nil_ptr t) f c = absurd c
through-blank rt Value.other f c = refl

headed_length : (tag typ : ℕ) (w : List ℕ) → 1 ≤ length (header_bytes tag typ ++ w)
headed_length tag typ w =
    omega (arith, length-header tag typ, length-append (header_bytes tag typ) w)

pub length-wire : (rt : Runtime) (v : Value) (tag : ℕ) → Carried rt v → 1 ≤ length (wire tag v true)
unfolding wire Carried
length-wire rt (Value.bool b) tag c = headed_length tag 0 (varint64 (bool_number b))
length-wire rt (Value.int w p) tag c = headed_length tag (sign_type w p) (varint64 (magnitude w p))
length-wire rt (Value.uint w n) tag c = headed_length tag 0 (varint64 n)
length-wire rt (Value.float32 n) tag c = absurd c
length-wire rt (Value.float64 n) tag c = absurd c
length-wire rt (Value.string b) tag c = headed_length tag 4 (varint64 (length b) ++ b)
length-wire rt (Value.slice t vs) tag c =
    headed_length tag 5 (varint64 (length_values vs) ++ wire_elems vs)
length-wire rt (Value.mapping k t es) tag c =
    headed_length tag 6 (varint64 (length_entries es) ++ wire_entries es)
length-wire rt (Value.struct fs) tag c = headed_length tag 7 (wire_fields 0 fs)
length-wire rt (Value.ptr v) tag c = absurd c
length-wire rt (Value.nil_ptr t) tag c = absurd c
length-wire rt Value.other tag c = absurd c

pub length-wire_fields : (i : ℕ) (fs : Fields) → 1 ≤ length (wire_fields i fs)
unfolding wire
length-wire_fields i Fields.no_field = length-header 0 8
length-wire_fields i (Fields.field g r v fs) =
    let behind = length-wire_fields (i + 1) fs in
    omega (arith, length-append (wire (wire_number i g) v r) (wire_fields (i + 1) fs))

pub spread-Ahead :
    (s : Spb) (h n w rest : List ℕ)
    → Ahead s ((h ++ (n ++ w)) ++ rest)
    → Ahead s (h ++ (n ++ (w ++ rest)))
spread-Ahead s h n w rest ahead = ahead ∙ spread h n w rest

pub Ahead-twice :
    (s : Spb) (h n rest : List ℕ)
    → Ahead s (h ++ (n ++ rest))
    → Ahead (advance (length h + length n) s) rest
Ahead-twice s h n rest ahead =
    let inner = Ahead-advance (advance (length h) s) n rest (Ahead-advance s h (n ++ rest) ahead) in
    let same : s.index + length h + length n ≡ s.index + (length h + length n) = omega arith in
    rw same at inner

pub room :
    (h n w : List ℕ) (fuel : ℕ)
    → 1 ≤ length h
    → 2 * length (h ++ (n ++ w)) ≤ suc fuel
    → 2 * length w + 1 ≤ fuel
room h n w fuel some_header hf = omega (arith, length-spread h n w)

-- A field of a struct, with the fields before it.
module _ (pre fs : Fields) (g : FieldTag) (r : Bool) (v : Value) where
  pub field_target :
      (i : ℕ)
      → field_index (wire_number i g) (join pre (Fields.field g r v fs)) ≡ some i
      → target_of false
          (wire_number i g)
          (Value.struct (join pre (blank_fields (Fields.field g r v fs))))
        ≡ at_field i
  unfolding target_of
  field_target i h =
      let same = field_index-blank (wire_number i g) pre (Fields.field g r v fs) ∙ h in
      ground (arith, same)

  pub field_put :
      (i : ℕ) (w : Value)
      → length_fields pre ≡ i
      → put_at (at_field i) v (Value.struct (join pre (Fields.field g r w fs)))
        ≡ Value.struct (join (join pre (one g r v)) fs)
  unfolding put_at
  field_put i w len =
      rw (sym len)
        (ap Value.struct (set_field-join pre fs g r v w ∙ sym (join_assoc pre (one g r v) fs)))

  pub field_value :
      (i : ℕ)
      → length_fields pre ≡ i
      → value_at (at_field i) (Value.struct (join pre (Fields.field g r v fs))) ≡ some v
  unfolding value_at
  field_value i len = rw (sym len) (get_field-join pre fs g r v)

pub key_reads :
    (rt : Runtime) (k : Ty) (a : Value) (fuel : ℕ) (s s1 : Spb)
    → zero_of k ≡ blank a
    → Carried rt a
    → unpack_field rt fuel true (blank a) s ≡ done a s1
    → through (zero_of k) (λ x. unpack_field rt fuel true x) s ≡ done a s1
key_reads rt k a fuel s s1 e c h =
    ap (λ (z : Value). through z (λ x. unpack_field rt fuel true x) s) e
    ∙ ap (λ (m : M Value). m s) (through-blank rt a (λ x. unpack_field rt fuel true x) c)
    ∙ h
