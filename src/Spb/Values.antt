-- ===== src/Spb/Values.antt =====
-- The values that spb.go sees through `reflect`, of Go's own types: a scalar of a defined type, with
-- which a type assertion of `pack` panics, is left out, and so is a field that is not exported, with
-- which `Interface` does. A signed integer of width w is its bit pattern,
-- below 2 ^ w; so is a float. A slice and a map carry the types of what they hold, as
-- `reflect.Value` does, and a map is listed in the order of `MapKeys`.
use gotools.Common.{ℕ, suc, List, [], Bool, false}

pub data Width : Type 0 where
  w8 w16 w32 w64 : Width

abbrev pub bits : Width → ℕ
bits w8 = 8
bits w16 = 16
bits w32 = 32
bits w64 = 64

-- The text of a field's `tag`: none, one that `strconv.Atoi` reads (as a 64-bit pattern), or another.
pub data FieldTag : Type 0 where
  untagged : FieldTag
  tagged : ℕ → FieldTag
  unreadable : FieldTag

mutual
  -- `reflect.Type`; `other` stands for the kinds that the codec refuses.
  pub data Ty : Type 0 where
    bool : Ty
    int : Width → Ty
    uint : Width → Ty
    float32 : Ty
    float64 : Ty
    string : Ty
    slice : Ty → Ty
    mapping : Ty → Ty → Ty
    struct : FieldTys → Ty
    ptr : Ty → Ty
    other : Ty

  pub data FieldTys : Type 0 where
    no_field : FieldTys
    field : FieldTag → Bool → Ty → FieldTys → FieldTys

mutual
  -- `reflect.Value`
  pub data Value : Type 0 where
    bool : Bool → Value
    int : Width → ℕ → Value
    uint : Width → ℕ → Value
    float32 : ℕ → Value
    float64 : ℕ → Value
    string : List ℕ → Value
    slice : Ty → Values → Value
    mapping : Ty → Ty → Entries → Value
    struct : Fields → Value
    ptr : Value → Value
    nil_ptr : Ty → Value
    other : Value

  pub data Values : Type 0 where
    nil : Values
    cons : Value → Values → Values

  pub data Entries : Type 0 where
    empty : Entries
    entry : Value → Value → Entries → Entries

  -- The fields of a struct in order, each with its `tag` and whether `require` is "true".
  pub data Fields : Type 0 where
    no_field : Fields
    field : FieldTag → Bool → Value → Fields → Fields

-- `reflect.Zero`, which `newValByType` allocates.
unfoldable mutual
  pub zero_of : Ty → Value
  zero_of bool = bool false
  zero_of (int w) = int w 0
  zero_of (uint w) = uint w 0
  zero_of float32 = float32 0
  zero_of float64 = float64 0
  zero_of string = string []
  zero_of (slice t) = slice t nil
  zero_of (mapping k t) = mapping k t empty
  zero_of (struct fs) = struct (zero_fields fs)
  zero_of (ptr t) = nil_ptr t
  zero_of other = other

  pub zero_fields : FieldTys → Fields
  zero_fields no_field = no_field
  zero_fields (field g r t fs) = field g r (zero_of t) (zero_fields fs)

abbrev pub length_values : Values → ℕ
length_values nil = 0
length_values (cons v vs) = suc (length_values vs)

abbrev pub length_entries : Entries → ℕ
length_entries empty = 0
length_entries (entry k v es) = suc (length_entries es)

abbrev pub length_fields : Fields → ℕ
length_fields no_field = 0
length_fields (field g r v fs) = suc (length_fields fs)
