-- ===== src/Spb/Unpack.antt =====
-- The decoder. `unpack` reads one field into a settable value and returns the value as it then is;
-- what a failed read has set before it failed is not kept.
use gotools.Common.{
  ℕ, zero, suc, ◌+◌, ◌-◌, ◌%◌, ◌^◌, List, ltb, ◌==◌, Bool, true, false, if◌then◌else◌, Option, none,
  some,
}
use gotools.Spb.Values.{bits, untagged, tagged, unreadable, Ty, Value, Entries, Fields, zero_of}

-- What the decoder uses of the Go runtime: the conversion of a float64's bits to a float32's, the
-- largest capacity for which `make` succeeds, and the equality of map keys.
pub record Runtime : Type 0 where
  pub narrow : ℕ → ℕ
  pub max_cap : ℕ
  pub same_key : Value → Value → Bool

-- The first field whose `tag` reads as the number, from index `i` on.
unfoldable pub tagged_field : ℕ → ℕ → Fields → Option ℕ
tagged_field tag i Fields.no_field = none
tagged_field tag i (Fields.field (tagged n) r v fs) =
    if n == tag then some i else tagged_field tag (i + 1) fs
tagged_field tag i (Fields.field untagged r v fs) = tagged_field tag (i + 1) fs
tagged_field tag i (Fields.field unreadable r v fs) = tagged_field tag (i + 1) fs

-- The field at an index, if it has no `tag`.
unfoldable pub plain_field : ℕ → Fields → Bool
plain_field i Fields.no_field = false
plain_field zero (Fields.field untagged r v fs) = true
plain_field zero (Fields.field (tagged n) r v fs) = false
plain_field zero (Fields.field unreadable r v fs) = false
plain_field (suc i) (Fields.field g r v fs) = plain_field i fs

-- `valField`: the index of the struct's field that a number stands for.
unfoldable pub field_index : ℕ → Fields → Option ℕ
unfolding tagged_field plain_field
field_index tag fs = elim (tagged_field tag 0 fs) [
  | some i ↦ some i
  | none ↦ if plain_field tag fs then some tag else none
]

unfoldable pub get_field : ℕ → Fields → Option Value
get_field i Fields.no_field = none
get_field zero (Fields.field g r v fs) = some v
get_field (suc i) (Fields.field g r v fs) = get_field i fs

unfoldable pub set_field : ℕ → Value → Fields → Fields
set_field i v Fields.no_field = Fields.no_field
set_field zero v (Fields.field g r w fs) = Fields.field g r v fs
set_field (suc i) v (Fields.field g r w fs) = Fields.field g r w (set_field i v fs)

-- SetUint, SetInt and SetBool of a positive number, as far as the value can be set so.
unfoldable pub set_positive : ℕ → Value → Value
set_positive n (Value.uint w m) = Value.uint w (n % 2 ^ bits w)
set_positive n (Value.int w p) = Value.int w (n % 2 ^ bits w)
set_positive n (Value.bool b) = Value.bool (ltb 0 n)
set_positive n v = v

-- `vv := int64(-v)`, and SetInt.
unfoldable pub set_negative : ℕ → Value → Value
set_negative n (Value.int w p) = Value.int w ((2 ^ 64 - n) % 2 ^ 64 % 2 ^ bits w)
set_negative n v = v

unfoldable pub set_string : List ℕ → Value → Value
set_string b (Value.string old) = Value.string b
set_string b v = v

-- SetFloat of the float64 with these bits.
unfoldable pub set_float : Runtime → ℕ → Value → Value
set_float rt n (Value.float64 m) = Value.float64 n
set_float rt n (Value.float32 m) = Value.float32 (rt.narrow n)
set_float rt n v = v

-- `mp.SetMapIndex(k, v)`
unfoldable pub set_map_index : Runtime → Value → Value → Entries → Entries
set_map_index rt k v Entries.empty = Entries.entry k v Entries.empty
set_map_index rt k v (Entries.entry j w es) =
    if rt.same_key j k then Entries.entry j v es else Entries.entry j w (set_map_index rt k v es)

unfoldable pub make_map : Runtime → Entries → Entries → Entries
unfolding set_map_index
make_map rt Entries.empty acc = acc
make_map rt (Entries.entry k v es) acc = make_map rt es (set_map_index rt k v acc)

-- The value behind the pointer that `newValByType` returns, and the element made of it once read.
abbrev pub new_elem : Ty → Value
new_elem (Ty.ptr t) = zero_of t
new_elem t = zero_of t

abbrev pub elem_of : Ty → Value → Value
elem_of (Ty.ptr t) v = Value.ptr v
elem_of t v = v

-- What the field is read into: the value itself, or the field of it that the number stands for.
pub data Target : Type 0 where
  itself : Target
  at_field : ℕ → Target
  nowhere : Target

unfoldable pub target_of : Bool → ℕ → Value → Target
unfolding field_index
target_of true tag x = itself
target_of false tag (Value.struct fs) = elim (field_index tag fs) [
  | some i ↦ at_field i
  | none ↦ nowhere
]
target_of false tag x = nowhere

unfoldable pub value_at : Target → Value → Option Value
unfolding get_field
value_at itself x = some x
value_at (at_field i) (Value.struct fs) = get_field i fs
value_at (at_field i) x = none
value_at nowhere x = none

unfoldable pub put_at : Target → Value → Value → Value
unfolding set_field
put_at itself v x = v
put_at (at_field i) v (Value.struct fs) = Value.struct (set_field i v fs)
put_at (at_field i) v x = x
put_at nowhere v x = x

-- A setter at the target, if there is one.
unfoldable pub modify_at : Target → (Value → Value) → Value → Value
unfolding value_at put_at
modify_at t f x = elim (value_at t x) [ none ↦ x | some v ↦ put_at t (f v) x ]

-- The kinds that the containers of the wire look for in the target.
pub data Shape : Type 0 where
  as_slice : Ty → Shape
  as_map : Ty → Ty → Shape
  as_struct : Value → Shape
  no_shape : Shape

unfoldable pub shape_of : Option Value → Shape
shape_of none = no_shape
shape_of (some (Value.slice t vs)) = as_slice t
shape_of (some (Value.mapping k t es)) = as_map k t
shape_of (some (Value.struct fs)) = as_struct (Value.struct fs)
shape_of (some v) = no_shape
