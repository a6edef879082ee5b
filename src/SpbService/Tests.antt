-- ===== src/SpbService/Tests.antt =====
-- Runs of ServiceSpb of stnet/simpleimp.go, and the theorem at a concrete input.
use gotools.Common.{
  ◌+◌, ◌^◌, ◌<◌, ◌≡◌, refl, arith, [], ◌∷◌, ◌++◌, length, none, some, false, ℕ_discrete,
}
use gotools.Common.Assoc.{get, insert}
use gotools.Spb.Values.{w32, Ty, Value, zero_of}
use gotools.Spb.Pack.{
  number_loop, pack_number, pack_header, pack_value, pack_elems, pack_fields, field_number,
  pack_scalar, spb_encode,
}
use gotools.Spb.Unpack.{Runtime}
use gotools.Spb.Wire.{blank, Carried}
use gotools.Frame.{encode_protocol}
use gotools.Rpc.{Bytes}
use gotools.Rpc.Frames.{AreBytes}
use gotools.SpbService.{
  proto_value, register_msg, ServiceSpb, bytes_msg, other_msg, no_msg, decoded, as_it_came,
  not_bytes, handle_message, handle_typed, command, spb_unmarshal, spb_cmd,
}
use gotools.SpbService.Delivered.{handle_message-spb_cmd}

program : Unit {0}
unfolding number_loop pack_number pack_header pack_value pack_elems pack_fields field_number
    pack_scalar spb_encode encode_protocol spb_cmd register_msg handle_message handle_typed get
    insert ℕ_discrete blank zero_of Carried
program = tt

abbrev rt : Runtime
rt = record { narrow = λ n. n; max_cap = 1000; same_key = λ a b. false }

abbrev service : ServiceSpb
service = record { msg_reg = (9, Ty.uint w32) ∷ [] }

registers : register_msg 9 (some (Ty.uint w32)) (record { msg_reg = [] }) ≡ (none, service)
unfolding program
registers = refl

unknown_number : handle_message rt 8 no_msg service ≡ as_it_came 8 no_msg
unfolding program
unknown_number = refl

wrong_kind : handle_message rt 9 other_msg service ≡ not_bytes 9
unfolding program
wrong_kind = refl

abbrev sample : Value
sample = Value.uint w32 300

encoded : spb_encode sample ≡ (0x00 ∷ 0xac ∷ 2 ∷ [], none)
unfolding program
encoded = refl

sample-AreBytes : AreBytes rt (spb_encode sample).0
sample-AreBytes =
    rw (encoded) ((omega arith, (omega arith, (omega arith, tt))), omega arith, omega arith)

sample-Carried : Carried rt sample
unfolding program
sample-Carried = omega arith

short_frame :
    length (spb_encode (proto_value (record { cmd_id = 9; cmd_data = (spb_encode sample).0 }))).0
      + 4
    < 2 ^ 16
unfolding program
short_frame = omega arith

of_its_type : zero_of (Ty.uint w32) ≡ blank sample
unfolding program
of_its_type = refl

known_number : get ℕ_discrete 9 service.msg_reg ≡ some (Ty.uint w32)
unfolding program
known_number = refl

handle_message-spb_cmd_example :
    (f : Bytes) × (spb_cmd 9 sample ≡ some f)
    × (spb_unmarshal rt (f ++ (1 ∷ 2 ∷ [])) ≡ (length f, command 9 (spb_encode sample).0))
    × (handle_message rt 9 (bytes_msg (spb_encode sample).0) service ≡ decoded 9 sample)
handle_message-spb_cmd_example =
    handle_message-spb_cmd rt service 9 (Ty.uint w32) sample (1 ∷ 2 ∷ []) sample-Carried
      known_number of_its_type (omega arith) sample-AreBytes short_frame
