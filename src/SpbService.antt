-- ===== src/SpbService.antt =====
-- ServiceSpb of stnet/simpleimp.go: messages with a number, whose types are registered, as structs
-- in the tagged format; the implementation that is called is what `handle_message` returns.
use gotools.Common.{
  ℕ, ◌+◌, ◌^◌, List, [], ◌∷◌, length, Bool, true, false, Option, none, some, ℕ_discrete,
}
use gotools.Common.Assoc.{get, insert}
use gotools.Spb.Values.{w8, w64, Ty, Value, Values, Fields, zero_of}
use gotools.Spb.Pack.{SpbError, panicked, spb_encode}
use gotools.Spb.Read.{Run, done, failed}
use gotools.Spb.Unpack.{Runtime}
use gotools.Spb.Decode.{spb_decode}
use gotools.Frame.{Message, invalid_length, message, unmarshal, encode_protocol}
use gotools.Rpc.{Bytes}
use gotools.Rpc.Proto.{byte_values, bytes_of, one_field}
pub mod Delivered
mod Tests

-- JsonProto, the struct around a message.
pub record JsonProto : Type 0 where
  pub cmd_id : ℕ
  pub cmd_data : Bytes

abbrev pub proto_value : JsonProto → Value
proto_value p = Value.struct (
    one_field (Value.uint w64 p.cmd_id)
      (one_field (Value.slice (Ty.uint w8) (byte_values p.cmd_data)) Fields.no_field))

abbrev pub zero_proto : JsonProto
zero_proto = record { cmd_id = 0; cmd_data = [] }

abbrev pub proto_of : Value → JsonProto
proto_of
      (Value.struct (
        Fields.field g0 r0
          (Value.uint w0 id)
          (Fields.field g1 r1 (Value.slice t bs) Fields.no_field))) =
    record { cmd_id = id; cmd_data = bytes_of bs }
proto_of v = zero_proto

-- The types of the messages by their numbers.
pub record ServiceSpb : Type 0 where
  pub msg_reg : List (ℕ × Ty)

pub data RegisterError : Type 0 where
  ptr_or_nil : RegisterError

-- RegisterMsg, of the type of a message, which nil has not.
unfoldable pub register_msg : ℕ → Option Ty → ServiceSpb → Option RegisterError × ServiceSpb
unfolding insert ℕ_discrete
register_msg id none s = (some ptr_or_nil, s)
register_msg id (some (Ty.ptr t)) s = (some ptr_or_nil, s)
register_msg id (some t) s = (none, record s { msg_reg = insert ℕ_discrete id t s.msg_reg })

-- What HandleMessage is given: nil, bytes, or another value.
pub data Msg : Type 0 where
  no_msg other_msg : Msg
  bytes_msg : Bytes → Msg

-- The call of the implementation: with the message as it came, with an error for one that is not
-- bytes or that is not decoded, or with the decoded one. A panic of the decoder goes on.
pub data Handled : Type 0 where
  as_it_came : ℕ → Msg → Handled
  not_bytes : ℕ → Handled
  not_decoded : ℕ → SpbError → Handled
  decoded : ℕ → Value → Handled
  panics : Handled

abbrev pub after_decode : ℕ → Run Value → Handled
after_decode id (failed panicked s) = panics
after_decode id (failed e s) = not_decoded id e
after_decode id (done v s) = decoded id v

unfoldable pub handle_typed : Runtime → ℕ → Ty → Msg → Handled
unfolding spb_decode zero_of
handle_typed rt id t other_msg = not_bytes id
handle_typed rt id t no_msg = after_decode id (spb_decode rt [] (some (zero_of t)))
handle_typed rt id t (bytes_msg d) = after_decode id (spb_decode rt d (some (zero_of t)))

-- HandleMessage.
unfoldable pub handle_message : Runtime → ℕ → Msg → ServiceSpb → Handled
unfolding handle_typed get ℕ_discrete
handle_message rt id msg s = elim (get ℕ_discrete id s.msg_reg) [
  | none ↦ as_it_came id msg
  | some t ↦ handle_typed rt id t msg
]

-- What Unmarshal returns beside the length: nothing yet, an error, a panic of the decoder, or a
-- message with its number.
pub data Unmarshalled : Type 0 where
  nothing : Unmarshalled
  bad_length : ℕ → Unmarshalled
  bad_body : SpbError → Unmarshalled
  crashed : Unmarshalled
  command : ℕ → Bytes → Unmarshalled

abbrev pub of_body : Option (Message (Run Value)) → Unmarshalled
of_body none = nothing
of_body (some (invalid_length n)) = bad_length n
of_body (some (message (failed panicked s))) = crashed
of_body (some (message (failed e s))) = bad_body e
of_body (some (message (done v s))) = command (proto_of v).cmd_id (proto_of v).cmd_data

-- Unmarshal, with the struct as the body of its frame.
unfoldable pub spb_unmarshal : Runtime → Bytes → ℕ × Unmarshalled
unfolding unmarshal spb_decode
spb_unmarshal rt bytes =
    let r = unmarshal (λ body. spb_decode rt body (some (proto_value zero_proto))) bytes in
    (r.0, of_body r.1)

-- SendSpbCmd, up to what it gives to Send; none stands for an error.
unfoldable pub spb_cmd : ℕ → Value → Option Bytes
unfolding spb_encode encode_protocol
spb_cmd id msg =
    let d = spb_encode msg in
    let packed = spb_encode (proto_value (record { cmd_id = id; cmd_data = d.0 })) in
    elim d.1 [
      | some e ↦ none
      | none ↦ elim packed.1 [ some e ↦ none | none ↦ some (encode_protocol packed.0) ]
    ]

-- HandleMessage of ServiceJson: what the implementation is given, and whether with an error.
unfoldable pub handle_json : ℕ → Msg → JsonProto × Bool
handle_json id no_msg = (record { cmd_id = id; cmd_data = [] }, false)
handle_json id other_msg = (record { cmd_id = id; cmd_data = [] }, true)
handle_json id (bytes_msg d) = (record { cmd_id = id; cmd_data = d }, false)
