-- ===== src/Spb/Tests.antt =====
-- Runs of stnet/spb.go, and the theorems at concrete inputs.
use gotools.Common.{ℕ, ◌≡◌, refl, arith, List, [], ◌∷◌, ◌++◌, true, false, none, some, length}
use gotools.Spb.Values.{w8, w16, untagged, tagged, Ty, FieldTys, Value, Values, Fields, zero_of}
use gotools.Spb.Pack.{
  pack_number, pack_header, pack_scalar, pack_string, int_type, int_number, field_number, pack,
  spb_encode,
}
use gotools.Spb.Read.{
  Spb, done, unpack_number, unpack_byte, unpack_header, quiet, repeat, skip_field,
}
use gotools.Spb.Unpack.{
  Runtime, set_positive, set_negative, set_string, set_float, make_map, target_of, value_at, put_at,
  modify_at, shape_of,
}
use gotools.Spb.Decode.{spb_decode}
use gotools.Spb.Wire.{wire, blank, Carried}
use gotools.Spb.PackWire.{pack-wire}
use gotools.Spb.RoundTrip.{spb_decode-spb_encode}
use gotools.Spb.Floats.{float_is_lost}

program : Unit {0}
unfolding pack_number pack_header pack_scalar pack_string int_type int_number field_number
    spb_encode zero_of unpack_number unpack_byte unpack_header quiet repeat skip_field set_positive
    set_negative set_string set_float make_map target_of value_at put_at modify_at shape_of
    spb_decode
program = tt

abbrev rt : Runtime
rt = record { narrow = λ n. n; max_cap = 1000; same_key = λ a b. false }

-- struct { A int8; B string; C []uint16 `tag:"20"`; D struct{ E bool } }
abbrev sample : Value
sample = Value.struct (
    Fields.field untagged false (Value.int w8 0x80) (
      Fields.field untagged false (Value.string (104 ∷ 105 ∷ [])) (
        Fields.field (tagged 20) false
          (Value.slice (Ty.uint w16)
            (Values.cons (Value.uint w16 300) (Values.cons (Value.uint w16 0) Values.nil)))
          (Fields.field untagged true
            (Value.struct (Fields.field untagged false (Value.bool true) Fields.no_field))
            Fields.no_field))))

abbrev sample_ty : Ty
sample_ty = Ty.struct (
    FieldTys.field untagged false (Ty.int w8) (
      FieldTys.field untagged false Ty.string (
        FieldTys.field (tagged 20) false (Ty.slice (Ty.uint w16)) (
          FieldTys.field untagged true
            (Ty.struct (FieldTys.field untagged false Ty.bool FieldTys.no_field))
            FieldTys.no_field))))

abbrev bytes : List ℕ
bytes =
    0x70 ∷ 0x10 ∷ 0x80 ∷ 0xff ∷ 0xff ∷ 0xff ∷ 0xff ∷ 0xff ∷ 0xff ∷ 0xff ∷ 0xff ∷ 1 ∷ 0x41 ∷ 2 ∷ 104
    ∷ 105 ∷ 0x5f ∷ 20 ∷ 2 ∷ 0 ∷ 0xac ∷ 2 ∷ 0 ∷ 0 ∷ 0x73 ∷ 0 ∷ 1 ∷ 0x80 ∷ 0x80 ∷ []

spb_encode-sample : spb_encode sample ≡ (bytes, none)
unfolding program
spb_encode-sample = refl

spb_decode-sample :
    spb_decode rt bytes (some (zero_of sample_ty))
    ≡ done sample (record { buf = bytes; index = 29 })
unfolding program
spb_decode-sample = refl

sample-Carried : Carried rt sample
unfolding program Carried blank
sample-Carried = (
  (omega arith, refl, (omega arith, refl, (omega arith, refl, (omega arith, refl, tt)))),
  (
    omega arith,
    (
      omega arith,
      (
        (omega arith, omega arith, (refl, refl, omega arith, (refl, refl, omega arith, tt))),
        (((omega arith, refl, tt), (tt, tt)), tt),
      ),
    ),
  ),
)

spb_decode-spb_encode_example :
    ((spb_encode sample).1 ≡ none)
    × (spb_decode rt (spb_encode sample).0 (some (blank sample))
        ≡ done sample
            (record { buf = (spb_encode sample).0; index = length (spb_encode sample).0 }))
spb_decode-spb_encode_example =
    spb_decode-spb_encode rt sample sample-Carried (rw spb_encode-sample (omega arith))

pack-wire_example : pack 20 sample true false [] ≡ ([] ++ wire 20 sample false, none)
pack-wire_example = pack-wire rt sample 20 false [] sample-Carried (omega arith)

float_is_lost_example :
    ((spb_encode (Value.float64 7)).1 ≡ none)
    × (spb_decode rt (spb_encode (Value.float64 7)).0 (some (Value.float64 0))
        ≡ done (Value.float64 0) (record {
          buf = (spb_encode (Value.float64 7)).0;
          index = length (spb_encode (Value.float64 7)).0;
        }))
float_is_lost_example = float_is_lost rt 7 0 (omega arith)

abbrev unread : Spb
unread = record { buf = 0xac ∷ 2 ∷ 7 ∷ []; index = 0 }

abbrev read : Spb
read = record { buf = 0xac ∷ 2 ∷ 7 ∷ []; index = 2 }

unpack_number-unread : unpack_number unread ≡ done 300 read
unfolding unpack_number
unpack_number-unread = refl
