-- ===== src/Spb/Pack.antt =====
-- The encoder. A method that appends to `spb.buf` takes the buffer and returns the new one; with an
-- error it returns what was written up to there.
use gotools.Common.{
  ℕ, ◌+◌, ◌-◌, ◌*◌, ◌/◌, ◌%◌, ◌^◌, ◌<◌, arith, List, [], ◌∷◌, ◌++◌, ltb, leb, ◌==◌, length, bit_and,
  bit_or, Bool, true, false, ◌&&◌, not, if◌then◌else◌, Option, none, some, dec_lt,
}
use gotools.Common.Order.{lt_wf}
use gotools.Spb.Values.{
  Width, bits, FieldTag, untagged, tagged, unreadable, Value, Values, Entries, Fields,
  length_values, length_entries,
}
use mathlib.Core.Logic.{dite}
use mathlib.Core.WellFounded.{Acc}

-- The errors of the file. `panicked` is a panic of the runtime, and `out_of_fuel` no Go value: a
-- loop of the model ran out of fuel.
pub data SpbError : Type 0 where
  no_enough_data unexpected_eof overflow invalid_type struct_end need_ptr panicked out_of_fuel :
      SpbError

abbrev pub integer_positive : ℕ
integer_positive = 0

abbrev pub integer_negative : ℕ
integer_negative = 1

abbrev pub string_type : ℕ
string_type = 4

abbrev pub vector_type : ℕ
vector_type = 5

abbrev pub map_type : ℕ
map_type = 6

abbrev pub struct_begin_type : ℕ
struct_begin_type = 7

abbrev pub struct_end_type : ℕ
struct_end_type = 8

pub shift_shrinks : (x : ℕ) → 127 < x → x / 128 < x
shift_shrinks x h = omega arith

-- `for x >= 1<<7`
unfoldable pub number_loop : List ℕ → (x : ℕ) → Acc ◌<◌ x → List ℕ
number_loop buf x (Acc.intro _ smaller) =
    dite (dec_lt 127 x)
      (λ more.
        number_loop (buf ++ ((bit_or (bit_and x 0x7f) 0x80 % 256) ∷ [])) (x / 128)
          (smaller _ (shift_shrinks x more)))
      (λ _. buf ++ ((x % 256) ∷ []))

unfoldable pub pack_number : ℕ → List ℕ → List ℕ
unfolding number_loop lt_wf dec_lt
pack_number x buf = number_loop buf x (lt_wf.apply x)

-- `header := typ << 4` on a byte.
unfoldable pub pack_header : ℕ → ℕ → List ℕ → List ℕ
pack_header tag typ buf =
    let header : ℕ = typ * 2 ^ 4 % 256 in
    if ltb tag 15
    then buf ++ (bit_or header (tag % 256) ∷ [])
    else pack_number tag (buf ++ (bit_or header 0xf ∷ []))

-- `v < 0`, on the bit pattern.
abbrev pub is_negative : Width → ℕ → Bool
is_negative w p = leb (2 ^ (bits w - 1)) p

-- `v = -v` on the width.
abbrev pub negate : Width → ℕ → ℕ
negate w p = (2 ^ bits w - p) % 2 ^ bits w

-- `uint64(v)` extends the sign.
abbrev pub to_uint64 : Width → ℕ → ℕ
to_uint64 w p = if is_negative w p then p + (2 ^ 64 - 2 ^ bits w) else p

-- The type and the number that `pack` writes for a scalar.
unfoldable pub int_type : Width → ℕ → ℕ
int_type w p = if is_negative w p then integer_negative else integer_positive

unfoldable pub int_number : Width → ℕ → ℕ
int_number w p = if is_negative w p then to_uint64 w (negate w p) else to_uint64 w p

-- The end of `pack`: the optional header, and the number.
unfoldable pub pack_scalar : ℕ → Bool → Bool → ℕ → ℕ → List ℕ → List ℕ
pack_scalar tag head require typ val buf =
    if val == 0 && not require
    then buf
    else pack_number val (if head then pack_header tag typ buf else buf)

unfoldable pub pack_string : ℕ → Bool → Bool → List ℕ → List ℕ → List ℕ
pack_string tag head require v buf =
    if length v == 0 && not require
    then buf
    else pack_number (length v) (if head then pack_header tag string_type buf else buf) ++ v

-- The number under which a struct's field at index `i` goes out.
unfoldable pub field_number : ℕ → FieldTag → ℕ
field_number i untagged = i
field_number i (tagged n) = n % 2 ^ 32
field_number i unreadable = i

abbrev pub Packed : Type 0
Packed = List ℕ × Option SpbError

-- `err := …; if err != nil { return err }`
abbrev pub and_then : Packed → (List ℕ → Packed) → Packed
and_then (buf, none) f = f buf
and_then (buf, some e) f = (buf, some e)

-- `pack`, with the boxes that `i` stands in: one pointer is followed, and a pointer behind it is of
-- a kind that is refused.
unfoldable mutual
  pub pack_value : Bool → ℕ → Value → Bool → Bool → List ℕ → Packed
  pack_value followed tag (Value.bool b) head require buf =
      (pack_scalar tag head require integer_positive (if b then 1 else 0) buf, none)
  pack_value followed tag (Value.int w p) head require buf =
      (pack_scalar tag head require (int_type w p) (int_number w p) buf, none)
  pack_value followed tag (Value.uint w n) head require buf =
      (pack_scalar tag head require integer_positive n buf, none)
  pack_value followed tag (Value.float32 n) head require buf =
      (pack_scalar tag head require integer_positive n buf, none)
  pack_value followed tag (Value.float64 n) head require buf =
      (pack_scalar tag head require integer_positive n buf, none)
  pack_value followed tag (Value.string v) head require buf =
      (pack_string tag head require v buf, none)
  pack_value followed tag (Value.slice t vs) head require buf =
      let n = length_values vs in
      if n == 0 && not require
      then (buf, none)
      else pack_elems vs (pack_number n (pack_header tag vector_type buf))
  pack_value followed tag (Value.mapping k t es) head require buf =
      let n = length_entries es in
      if n == 0 && not require
      then (buf, none)
      else pack_entries es (pack_number n (pack_header tag map_type buf))
  pack_value followed tag (Value.struct fs) head require buf =
      pack_fields 0 fs (pack_header tag struct_begin_type buf)
  pack_value followed tag (Value.ptr v) head require buf =
      let inner = pack_value true tag v head require buf in
      if followed then (buf, some invalid_type) else inner
  pack_value followed tag (Value.nil_ptr t) head require buf =
      (buf, some (if followed then invalid_type else panicked))
  pack_value followed tag Value.other head require buf = (buf, some invalid_type)

  -- packSlice's loop
  pub pack_elems : Values → List ℕ → Packed
  pack_elems Values.nil buf = (buf, none)
  pack_elems (Values.cons v vs) buf =
      and_then (pack_value false 0 v true true buf) (λ b. pack_elems vs b)

  -- packMap's loop
  pub pack_entries : Entries → List ℕ → Packed
  pack_entries Entries.empty buf = (buf, none)
  pack_entries (Entries.entry k v es) buf =
      and_then (pack_value false 0 k true true buf)
        (λ b. and_then (pack_value false 0 v true true b) (λ b'. pack_entries es b'))

  -- packStruct's loop from the field at index `i`, and the end mark.
  pub pack_fields : ℕ → Fields → List ℕ → Packed
  pack_fields i Fields.no_field buf = (pack_header 0 struct_end_type buf, none)
  pack_fields i (Fields.field g r v fs) buf =
      and_then (pack_value false (field_number i g) v true r buf) (λ b. pack_fields (i + 1) fs b)

-- pack
abbrev pub pack : ℕ → Value → Bool → Bool → List ℕ → Packed
pack tag i head require buf = pack_value false tag i head require buf

-- SpbEncode
unfoldable pub spb_encode : Value → Packed
unfolding pack_value
spb_encode i = pack 0 i true true []
