-- ===== src/Rpc/Proto.antt =====
-- The requests and responses of stnet/rpc.go as bytes: the structs in the tagged format, behind a
-- frame whose first byte holds the flags.
use gotools.Common.{
  ℕ, ◌-◌, ◌*◌, ◌^◌, bit_or, bit_and, [], ◌∷◌, length, take, drop, ltb, leb, ◌==◌, false, ◌||◌,
  if◌then◌else◌, Option, none, some, ℕ_discrete,
}
use gotools.Common.Assoc.{get, insert}
use gotools.Spb.Values.{w8, w32, untagged, Ty, Value, Values, Fields}
use gotools.Spb.Pack.{SpbError, panicked, out_of_fuel, spb_encode}
use gotools.Spb.Read.{done, failed}
use gotools.Spb.Unpack.{Runtime}
use gotools.Spb.Decode.{spb_decode}
use gotools.Frame.{rpc_encode_protocol, max_msg_size}
use gotools.Rpc.{Bytes, ReqProto, RspProto, ServiceRpc}

-- []byte
abbrev pub byte_values : Bytes → Values
byte_values [] = Values.nil
byte_values (b ∷ bs) = Values.cons (Value.uint w8 b) (byte_values bs)

abbrev pub bytes_of : Values → Bytes
bytes_of (Values.cons (Value.uint w b) vs) = b ∷ bytes_of vs
bytes_of vs = []

abbrev pub one_field : Value → Fields → Fields
one_field v fs = Fields.field untagged false v fs

abbrev pub req_value : ReqProto → Value
req_value r = Value.struct (
    one_field (Value.uint w32 r.req_cmd_id) (
      one_field (Value.uint w32 r.req_cmd_seq) (
        one_field (Value.slice (Ty.uint w8) (byte_values r.req_data)) (
          one_field (Value.bool r.is_one_way)
            (one_field (Value.string r.func_name) Fields.no_field)))))

abbrev pub rsp_value : RspProto → Value
rsp_value r = Value.struct (
    one_field (Value.uint w32 r.rsp_cmd_id) (
      one_field (Value.uint w32 r.rsp_cmd_seq) (
        one_field (Value.uint w32 r.push_seq_id) (
          one_field (Value.int w32 r.rsp_code) (
            one_field (Value.slice (Ty.uint w8) (byte_values r.rsp_data))
              (one_field (Value.string r.func_name) Fields.no_field))))))

abbrev pub zero_req : ReqProto
zero_req = record {
  req_cmd_id = 0;
  req_cmd_seq = 0;
  req_data = [];
  is_one_way = false;
  func_name = [];
}

abbrev pub zero_rsp : RspProto
zero_rsp = record {
  rsp_cmd_id = 0;
  rsp_cmd_seq = 0;
  push_seq_id = 0;
  rsp_code = 0;
  rsp_data = [];
  func_name = [];
}

-- The struct behind a value of its type.
abbrev pub req_of : Value → ReqProto
req_of
      (Value.struct (
        Fields.field g0 r0 (Value.uint w0 id) (
          Fields.field g1 r1 (Value.uint w1 seq) (
            Fields.field g2 r2 (Value.slice t bs) (
              Fields.field g3 r3
                (Value.bool one_way)
                (Fields.field g4 r4 (Value.string name) Fields.no_field)))))) =
    record {
      req_cmd_id = id;
      req_cmd_seq = seq;
      req_data = bytes_of bs;
      is_one_way = one_way;
      func_name = name;
    }
req_of v = zero_req

abbrev pub rsp_of : Value → RspProto
rsp_of
      (Value.struct (
        Fields.field g0 r0 (Value.uint w0 id) (
          Fields.field g1 r1 (Value.uint w1 seq) (
            Fields.field g2 r2 (Value.uint w2 push) (
              Fields.field g3 r3 (Value.int w3 code) (
                Fields.field g4 r4
                  (Value.slice t bs)
                  (Fields.field g5 r5 (Value.string name) Fields.no_field))))))) =
    record {
      rsp_cmd_id = id;
      rsp_cmd_seq = seq;
      push_seq_id = push;
      rsp_code = code;
      rsp_data = bytes_of bs;
      func_name = name;
    }
rsp_of v = zero_rsp

abbrev flagged : ℕ → Bytes → Bytes
flagged flag [] = []
flagged flag (b ∷ bs) = bit_or b flag ∷ bs

-- encodeProtocol of a pointer to the struct, and the flags: 2 for a request and 3 for a response.
unfoldable pub send_frame : ℕ → Value → Option Bytes
unfolding spb_encode rpc_encode_protocol
send_frame flag v =
    let packed = spb_encode (Value.ptr v) in
    elim packed.1 [
      | some e ↦ none
      | none ↦ elim (rpc_encode_protocol packed.0) [ none ↦ none | some f ↦ some (flagged flag f) ]
    ]

-- msgLen leaves the first byte out.
unfoldable pub rpc_msg_len : Bytes → ℕ
rpc_msg_len (b0 ∷ b1 ∷ b2 ∷ b3 ∷ b) = bit_or (bit_or b3 (b2 * 2 ^ 8)) (b1 * 2 ^ 16)
rpc_msg_len b = 0

-- What Unmarshal returns beside the length: nothing, a bad length, the error of the body, a message
-- with its number, or that the response went to the call that waits for it. A call whose channel is
-- full blocks the reader, with the lock held; a panic of the decoder goes on.
pub data Received : Type 0 where
  nothing : Received
  bad_length : ℕ → Received
  bad_body : Received
  request : ℕ → ReqProto → Received
  response : ℕ → RspProto → Received
  signalled : Received
  blocked : Received
  panics : Received

abbrev failure : SpbError → Received
failure panicked = panics
failure out_of_fuel = panics
failure e = bad_body

abbrev pub first_byte : Bytes → ℕ
first_byte [] = 0
first_byte (b ∷ bs) = b

-- The response to a call: to the channel of one that waits, and else to the queue.
unfoldable pub to_waiter : RspProto → ServiceRpc → Received × ServiceRpc
unfolding get insert ℕ_discrete
to_waiter rsp s = elim (get ℕ_discrete rsp.rsp_cmd_seq s.rpc_requests) [
  | none ↦ (response 3 rsp, s)
  | some v ↦ elim v.signal [
    | none ↦ (response 3 rsp, s)
    | some c ↦ elim (get ℕ_discrete c s.channels) [
      | some (some old) ↦ (blocked, s)
      | some none ↦ (signalled, record s { channels = insert ℕ_discrete c (some rsp) s.channels })
      | none ↦ (blocked, s)
    ]
  ]
]

-- The body, by the two flags.
unfoldable pub rpc_body : Runtime → ℕ → Bytes → ServiceRpc → Received × ServiceRpc
unfolding spb_decode to_waiter
rpc_body rt flag body s =
    if bit_and flag 1 == 0
    then elim (spb_decode rt body (some (req_value zero_req))) [
      | failed e s' ↦ (failure e, s)
      | done v s' ↦ (request (if bit_and flag 2 == 0 then 0 else 2) (req_of v), s)
    ]
    else elim (spb_decode rt body (some (rsp_value zero_rsp))) [
      | failed e s' ↦ (failure e, s)
      | done v s' ↦
          if bit_and flag 2 == 0 then (response 1 (rsp_of v), s) else to_waiter (rsp_of v) s
    ]

-- Unmarshal: the length that is parsed, what was received, and the service.
unfoldable pub rpc_unmarshal : Runtime → ServiceRpc → Bytes → ℕ × Received × ServiceRpc
unfolding rpc_msg_len rpc_body
rpc_unmarshal rt s bytes =
    let n = rpc_msg_len bytes in
    if ltb (length bytes) 4
    then (0, nothing, s)
    else if ltb n 4 || leb max_msg_size n
    then (length bytes, bad_length n, s)
    else if ltb (length bytes) n
    then (0, nothing, s)
    else (
      n,
      (rpc_body rt (first_byte bytes) (take (n - 4) (drop 4 bytes)) s).0,
      (rpc_body rt (first_byte bytes) (take (n - 4) (drop 4 bytes)) s).1,
    )
