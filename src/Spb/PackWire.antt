-- ===== src/Spb/PackWire.antt =====
-- pack of stnet/spb.go against the format.
use gotools.Common.{
  ℕ, ◌+◌, ◌^◌, ◌<◌, ◌≡◌, refl, arith, List, ◌++◌, ◌==◌, length, append_assoc, append-nil, Bool,
  true, false, ◌&&◌, not, if◌then◌else◌, none,
}
use gotools.Common.Varint.{IsU64, varint64}
use gotools.Spb.Values.{
  Width, w8, w16, w32, w64, bits, FieldTag, untagged, tagged, unreadable, Ty, Value, Values,
  Entries, Fields, length_values, length_entries,
}
use gotools.Spb.Pack.{
  pack_number, pack_header, pack_scalar, pack_string, int_type, int_number, field_number,
  string_type, vector_type, map_type, struct_begin_type, struct_end_type, integer_positive, pack,
  pack_value, pack_elems, pack_entries, pack_fields, Packed,
}
use gotools.Spb.Unpack.{Runtime}
use gotools.Spb.Numbers.{header_bytes, pack_header_lem, pack_number-varint}
use gotools.Spb.Wire.{
  sign_type, magnitude, wire_number, optional, scalar_wire, bool_number, wire, wire_elems,
  wire_entries, wire_fields, Carried, CarriedElems, CarriedEntries, CarriedFields, Found,
}

-- What `pack` makes of a signed integer is its sign and its absolute value.
int_type-sign_type : (w : Width) (p : ℕ) → int_type w p ≡ sign_type w p
unfolding int_type
int_type-sign_type w p = ground arith

int_number-magnitude : (w : Width) (p : ℕ) → p < 2 ^ bits w → int_number w p ≡ magnitude w p
unfolding int_number
int_number-magnitude w8 p h = ground arith
int_number-magnitude w16 p h = ground arith
int_number-magnitude w32 p h = ground arith
int_number-magnitude w64 p h = ground arith

field_number-wire_number : (i : ℕ) (g : FieldTag) → field_number i g ≡ wire_number i g
unfolding field_number
field_number-wire_number i untagged = refl
field_number-wire_number i (tagged n) = refl
field_number-wire_number i unreadable = refl

pub magnitude-IsU64 : (w : Width) (p : ℕ) → p < 2 ^ bits w → IsU64 (magnitude w p)
magnitude-IsU64 w8 p h = ground arith
magnitude-IsU64 w16 p h = ground arith
magnitude-IsU64 w32 p h = ground arith
magnitude-IsU64 w64 p h = ground arith

pub sign_type-lt : (w : Width) (p : ℕ) → sign_type w p < 16
sign_type-lt w p = ground arith

pub uint-IsU64 : (w : Width) (n : ℕ) → n < 2 ^ bits w → IsU64 n
uint-IsU64 w8 n h = omega arith
uint-IsU64 w16 n h = omega arith
uint-IsU64 w32 n h = omega arith
uint-IsU64 w64 n h = omega arith

pub wire_number-lt : (i : ℕ) (g : FieldTag) → i < 2 ^ 32 → wire_number i g < 2 ^ 32
wire_number-lt i untagged h = h
wire_number-lt i (tagged n) h = omega arith
wire_number-lt i unreadable h = h

-- A header and a number, one behind the other.
headed :
    (tag typ n : ℕ) (buf : List ℕ)
    → tag < 2 ^ 32
    → typ < 16
    → IsU64 n
    → pack_number n (pack_header tag typ buf) ≡ buf ++ (header_bytes tag typ ++ varint64 n)
headed tag typ n buf ht hy hn =
    rw (pack_header_lem tag typ buf ht hy, pack_number-varint n _ hn, append_assoc)

pub pack_scalar-wire :
    (tag typ n : ℕ) (require : Bool) (buf : List ℕ)
    → tag < 2 ^ 32
    → typ < 16
    → IsU64 n
    → pack_scalar tag true require typ n buf ≡ buf ++ scalar_wire tag require typ n
unfolding pack_scalar
pack_scalar-wire tag typ n require buf ht hy hn =
    ground (arith, headed tag typ n buf, append-nil buf)

pack_string-wire :
    (tag : ℕ) (b : List ℕ) (require : Bool) (buf : List ℕ)
    → tag < 2 ^ 32
    → length b < 2 ^ 63
    → pack_string tag true require b buf ≡ buf ++ wire tag (Value.string b) require
unfolding pack_string wire
pack_string-wire tag b require buf ht hb = ground (
  arith,
  headed tag string_type (length b) buf,
  append-nil buf,
  append_assoc buf (header_bytes tag string_type ++ varint64 (length b)) b,
  append_assoc (header_bytes tag string_type) (varint64 (length b)) b,
)

-- A container: the header, the count and what is inside, or nothing.
contained :
    (n tag typ : ℕ) (require : Bool) (buf inner : List ℕ) (packed : Packed)
    → packed ≡ ((buf ++ (header_bytes tag typ ++ varint64 n)) ++ inner, none)
    → (if n == 0 && not require then (buf, none) else packed)
      ≡ (buf ++ optional (n == 0) require (header_bytes tag typ ++ (varint64 n ++ inner)), none)
contained n tag typ require buf inner packed e = ground (
  arith,
  append-nil buf,
  append_assoc buf (header_bytes tag typ ++ varint64 n) inner,
  append_assoc (header_bytes tag typ) (varint64 n) inner,
)

module _ (rt : Runtime) where
  mutual
    unfolding pack_value wire Carried

    value-wire :
        (v : Value) (followed : Bool) (tag : ℕ) (require : Bool) (buf : List ℕ)
        → Carried rt v
        → tag < 2 ^ 32
        → pack_value followed tag v true require buf ≡ (buf ++ wire tag v require, none)
    value-wire (Value.bool b) followed tag require buf c ht = rw (
        pack_scalar-wire tag integer_positive (bool_number b) require buf ht (omega arith)
          (ground arith))
    value-wire (Value.int w p) followed tag require buf c ht = rw (
      int_type-sign_type w p,
      int_number-magnitude w p c,
      pack_scalar-wire tag (sign_type w p) (magnitude w p) require buf ht (sign_type-lt w p)
          (magnitude-IsU64 w p c),
    )
    value-wire (Value.uint w n) followed tag require buf c ht =
        rw (pack_scalar-wire tag integer_positive n require buf ht (omega arith) (uint-IsU64 w n c))
    value-wire (Value.float32 n) followed tag require buf c ht = absurd c
    value-wire (Value.float64 n) followed tag require buf c ht = absurd c
    value-wire (Value.string b) followed tag require buf c ht =
        rw (pack_string-wire tag b require buf ht c)
    value-wire (Value.slice t vs) followed tag require buf c ht =
        contained (length_values vs) tag vector_type require buf (wire_elems vs) _ (
          rw (headed tag vector_type (length_values vs) buf ht (omega arith) (omega arith)) (
            elems-wire vs t (buf ++ (header_bytes tag vector_type ++ varint64 (length_values vs)))
              c.2))
    value-wire (Value.mapping k t es) followed tag require buf c ht =
        contained (length_entries es) tag map_type require buf (wire_entries es) _ (
          rw (headed tag map_type (length_entries es) buf ht (omega arith) (omega arith)) (
            entries-wire es k t (buf ++ (header_bytes tag map_type ++ varint64 (length_entries es)))
              c.3))
    value-wire (Value.struct fs) followed tag require buf c ht = rw (
      pack_header_lem tag struct_begin_type buf ht (omega arith),
      fields-wire fs fs 0 (buf ++ header_bytes tag struct_begin_type) c.0 c.1,
      append_assoc,
    )
    value-wire (Value.ptr v) followed tag require buf c ht = absurd c
    value-wire (Value.nil_ptr t) followed tag require buf c ht = absurd c
    value-wire Value.other followed tag require buf c ht = absurd c

    elems-wire :
        (vs : Values) (t : Ty) (buf : List ℕ)
        → CarriedElems rt t vs
        → pack_elems vs buf ≡ (buf ++ wire_elems vs, none)
    elems-wire Values.nil t buf c = rw append-nil
    elems-wire (Values.cons v vs) t buf c = rw (
      value-wire v false 0 true buf c.2 (omega arith),
      elems-wire vs t (buf ++ wire 0 v true) c.3,
      append_assoc,
    )

    entries-wire :
        (es : Entries) (k t : Ty) (buf : List ℕ)
        → CarriedEntries rt k t es
        → pack_entries es buf ≡ (buf ++ wire_entries es, none)
    entries-wire Entries.empty k t buf c = rw append-nil
    entries-wire (Entries.entry a v es) k t buf c = rw (
      value-wire a false 0 true buf c.1 (omega arith),
      value-wire v false 0 true (buf ++ wire 0 a true) c.4 (omega arith),
      entries-wire es k t ((buf ++ wire 0 a true) ++ wire 0 v true) c.5,
      append_assoc,
      append_assoc,
    )

    fields-wire :
        (fs all : Fields) (i : ℕ) (buf : List ℕ)
        → Found all i fs
        → CarriedFields rt fs
        → pack_fields i fs buf ≡ (buf ++ wire_fields i fs, none)
    fields-wire Fields.no_field all i buf h c =
        rw (pack_header_lem 0 struct_end_type buf (omega arith) (omega arith))
    fields-wire (Fields.field g r v fs) all i buf h c = rw (
      field_number-wire_number i g,
      value-wire v false (wire_number i g) r buf c.0 (wire_number-lt i g h.0),
      fields-wire fs all (i + 1) (buf ++ wire (wire_number i g) v r) h.2 c.1,
      append_assoc,
    )

  -- For every value that the format carries, a field number of 32 bits and either setting of
  -- `require`, `pack` with a header succeeds and appends exactly the bytes of the format.
  pub pack-wire :
      (v : Value) (tag : ℕ) (require : Bool) (buf : List ℕ)
      → Carried rt v
      → tag < 2 ^ 32
      → pack tag v true require buf ≡ (buf ++ wire tag v require, none)
  pack-wire v tag require buf c ht = value-wire v false tag require buf c ht
