-- ===== src/Spb/Wire.antt =====
-- The format by itself: the bytes of a value, the value that a decoder starts from, and the values
-- that the format can carry. The encoder and the decoder are held against it. The types of the format
-- are written as numbers: 0 and 1 for what is not negative and what is, 4 for a string, 5 for a vector,
-- 6 for a map, 7 and 8 for the begin and the end of a struct.
use gotools.Common.{
  ℕ, ◌+◌, ◌-◌, ◌%◌, ◌^◌, ◌≤◌, ◌<◌, ◌≡◌, arith, List, [], ◌++◌, ltb, ◌==◌, length, Bool, true, false,
  ◌&&◌, not, if◌then◌else◌, some,
}
use gotools.Common.Varint.{varint64, length-varint}
use gotools.Spb.Values.{
  Width, bits, FieldTag, untagged, tagged, unreadable, Ty, Value, Values, Entries, Fields,
  length_values, length_entries, zero_of,
}
use gotools.Spb.Unpack.{Runtime, new_elem, elem_of, field_index}
use gotools.Spb.Numbers.{header_bytes}

-- A field that is left out if it is zero and not required.
abbrev pub optional : Bool → Bool → List ℕ → List ℕ
optional empty require w = if not require && empty then [] else w

abbrev pub scalar_wire : ℕ → Bool → ℕ → ℕ → List ℕ
scalar_wire tag require typ n = optional (n == 0) require (header_bytes tag typ ++ varint64 n)

abbrev pub bool_number : Bool → ℕ
bool_number b = if b then 1 else 0

-- Whether the number of a bit pattern of the width is negative, as the type that it goes out with.
abbrev pub sign_type : Width → ℕ → ℕ
sign_type w p = if ltb p (2 ^ (bits w - 1)) then 0 else 1

-- The absolute value of that number. The least number of a width has none on the width: its 64-bit
-- pattern goes out.
abbrev pub magnitude : Width → ℕ → ℕ
magnitude w p =
    if ltb p (2 ^ (bits w - 1))
    then p
    else if p == 2 ^ (bits w - 1)
    then 2 ^ 64 - 2 ^ (bits w - 1)
    else 2 ^ bits w - p

-- A field goes out under its tag, cut to 32 bits, or else under its place.
abbrev pub wire_number : ℕ → FieldTag → ℕ
wire_number i untagged = i
wire_number i (tagged n) = n % 2 ^ 32
wire_number i unreadable = i

unfoldable mutual
  pub wire : ℕ → Value → Bool → List ℕ
  wire tag (Value.bool b) require = scalar_wire tag require 0 (bool_number b)
  wire tag (Value.int w p) require = scalar_wire tag require (sign_type w p) (magnitude w p)
  wire tag (Value.uint w n) require = scalar_wire tag require 0 n
  wire tag (Value.float32 n) require = scalar_wire tag require 0 n
  wire tag (Value.float64 n) require = scalar_wire tag require 0 n
  wire tag (Value.string b) require =
      optional (length b == 0) require (header_bytes tag 4 ++ (varint64 (length b) ++ b))
  wire tag (Value.slice t vs) require =
      optional (length_values vs == 0) require
        (header_bytes tag 5 ++ (varint64 (length_values vs) ++ wire_elems vs))
  wire tag (Value.mapping k t es) require =
      optional (length_entries es == 0) require
        (header_bytes tag 6 ++ (varint64 (length_entries es) ++ wire_entries es))
  wire tag (Value.struct fs) require = header_bytes tag 7 ++ wire_fields 0 fs
  wire tag (Value.ptr v) require = []
  wire tag (Value.nil_ptr t) require = []
  wire tag Value.other require = []

  pub wire_elems : Values → List ℕ
  wire_elems Values.nil = []
  wire_elems (Values.cons v vs) = wire 0 v true ++ wire_elems vs

  pub wire_entries : Entries → List ℕ
  wire_entries Entries.empty = []
  wire_entries (Entries.entry k v es) = wire 0 k true ++ (wire 0 v true ++ wire_entries es)

  -- The fields from index `i` on, and the end mark.
  pub wire_fields : ℕ → Fields → List ℕ
  wire_fields i Fields.no_field = header_bytes 0 8
  wire_fields i (Fields.field g r v fs) = wire (wire_number i g) v r ++ wire_fields (i + 1) fs

-- The zero value of a value's type.
unfoldable mutual
  pub blank : Value → Value
  blank (Value.bool b) = Value.bool false
  blank (Value.int w p) = Value.int w 0
  blank (Value.uint w n) = Value.uint w 0
  blank (Value.float32 n) = Value.float32 0
  blank (Value.float64 n) = Value.float64 0
  blank (Value.string b) = Value.string []
  blank (Value.slice t vs) = Value.slice t Values.nil
  blank (Value.mapping k t es) = Value.mapping k t Entries.empty
  blank (Value.struct fs) = Value.struct (blank_fields fs)
  blank (Value.ptr v) = Value.ptr (blank v)
  blank (Value.nil_ptr t) = Value.nil_ptr t
  blank Value.other = Value.other

  pub blank_fields : Fields → Fields
  blank_fields Fields.no_field = Fields.no_field
  blank_fields (Fields.field g r v fs) = Fields.field g r (blank v) (blank_fields fs)

-- The decoder finds every field of the struct `all` by the number under which it goes out, from
-- index `i` on.
abbrev pub Found : Fields → ℕ → Fields → Type 0
Found all i Fields.no_field = Unit
Found all i (Fields.field g r v fs) =
    (i < 2 ^ 32) × (field_index (wire_number i g) all ≡ some i) × Found all (i + 1) fs

module _ (rt : Runtime) where
  -- No key of the map is the runtime's equal of the one given.
  abbrev pub Apart : Value → Entries → Type 0
  Apart k Entries.empty = Unit
  Apart k (Entries.entry j v es) = (rt.same_key k j ≡ false) × Apart k es

  abbrev pub KeysApart : Entries → Type 0
  KeysApart Entries.empty = Unit
  KeysApart (Entries.entry k v es) = Apart k es × KeysApart es

  -- The values that the format carries: well typed, no pointers and no floats, within what `make`
  -- allocates, the keys of a map apart, and the fields of a struct to be told apart by their numbers.
  unfoldable mutual
    pub Carried : Value → Type 0
    Carried (Value.bool b) = Unit
    Carried (Value.int w p) = p < 2 ^ bits w
    Carried (Value.uint w n) = n < 2 ^ bits w
    Carried (Value.float32 n) = ⊥
    Carried (Value.float64 n) = ⊥
    Carried (Value.string b) = length b < 2 ^ 63
    Carried (Value.slice t vs) =
        (length_values vs < 2 ^ 63) × (length_values vs ≤ rt.max_cap) × CarriedElems t vs
    Carried (Value.mapping k t es) =
        (length_entries es < 2 ^ 63)
        × (length_entries es ≤ rt.max_cap)
        × KeysApart es
        × CarriedEntries k t es
    Carried (Value.struct fs) = Found fs 0 fs × CarriedFields fs
    Carried (Value.ptr v) = ⊥
    Carried (Value.nil_ptr t) = ⊥
    Carried Value.other = ⊥

    pub CarriedElems : Ty → Values → Type 0
    CarriedElems t Values.nil = Unit
    CarriedElems t (Values.cons v vs) =
        (new_elem t ≡ blank v) × (elem_of t v ≡ v) × Carried v × CarriedElems t vs

    pub CarriedEntries : Ty → Ty → Entries → Type 0
    CarriedEntries k t Entries.empty = Unit
    CarriedEntries k t (Entries.entry a v es) =
        (zero_of k ≡ blank a)
        × Carried a
        × (new_elem t ≡ blank v)
        × (elem_of t v ≡ v)
        × Carried v
        × CarriedEntries k t es

    pub CarriedFields : Fields → Type 0
    CarriedFields Fields.no_field = Unit
    CarriedFields (Fields.field g r v fs) = Carried v × CarriedFields fs

pub length-header : (tag typ : ℕ) → 1 ≤ length (header_bytes tag typ)
length-header tag typ = ground (arith, length-varint 9 tag)
