-- ===== src/Rpc/Tests.antt =====
-- Runs of stnet/rpc.go, and the theorems at concrete inputs.
use gotools.Common.{
  ◌+◌, ◌%◌, ◌^◌, ◌≤◌, ◌<◌, ◌≡◌, refl, arith, List, [], ◌∷◌, ◌++◌, length, true, false, ltb,
  if◌then◌else◌, none, some, ℕ_discrete,
}
use mathlib.Core.Path.{subst}
use gotools.Common.Assoc.{get, insert, delete}
use gotools.Config.Text.{str_discrete}
use gotools.Spb.Values.{w32, Ty, Value, zero_of}
use gotools.Spb.Pack.{
  pack_number, pack_header, pack_scalar, pack_string, int_type, int_number, field_number,
  spb_encode,
}
use gotools.Spb.Read.{unpack_number, unpack_byte, unpack_header, quiet, repeat, skip_field}
use gotools.Spb.Unpack.{
  Runtime, set_positive, set_negative, set_string, set_float, make_map, target_of, value_at, put_at,
  modify_at, shape_of,
}
use gotools.Spb.Decode.{spb_decode}
use gotools.Spb.Wire.{blank, Carried}
use gotools.Frame.{max_msg_size}
use gotools.Rpc.{
  Bytes, RspProto, Callback, RpcRequest, Method, ServiceRpc, sent, called_exception, called_back,
  called_method,
}
use gotools.Rpc.Args.{pack_params, unpack_args}
use gotools.Rpc.Params.{split_params}
use gotools.Rpc.Proto.{
  req_value, rsp_value, send_frame, request, response, signalled, blocked, to_waiter, rpc_unmarshal,
}
use gotools.Rpc.Frames.{RspFits}
use gotools.Rpc.Calls.{
  new_request, register, rpc_call, returned, complete, handle_rpc_rsp, handle_rpc_req,
  sync_response, loop, new_service_rpc, err_call_timeout,
}
use gotools.Rpc.Table.{Valid, loop-timeouts, sync_response-to_waiter}
use gotools.Rpc.Once.{call, Steps, start, then_step, Steps-Valid, handle_rpc_rsp-over}
use gotools.Rpc.Deliver.{call_params, call_request, answer_to, packed_of, Passes, rpc_call-delivers}

program : Unit {0}
unfolding pack_number pack_header pack_scalar pack_string int_type int_number field_number
    spb_encode zero_of unpack_number unpack_byte unpack_header quiet repeat skip_field set_positive
    set_negative set_string set_float make_map target_of value_at put_at modify_at shape_of
    spb_decode get insert delete str_discrete pack_params unpack_args split_params send_frame
    rpc_unmarshal rpc_call new_request register handle_rpc_rsp handle_rpc_req sync_response loop
    complete
program = tt

abbrev rt : Runtime
rt = record { narrow = λ n. n; max_cap = 1000; same_key = λ a b. false }

-- func isOne(x uint32) bool
abbrev is_one : Bytes
is_one = b'i' ∷ []

abbrev method : Method
method = record { params = Ty.uint w32 ∷ []; call = λ vs. Value.bool true ∷ [] }

abbrev server : ServiceRpc
server = new_service_rpc ((is_one, method) ∷ [])

abbrev client : ServiceRpc
client = new_service_rpc []

abbrev one : List Value
one = Value.uint w32 1 ∷ []

abbrev on_result : Callback
on_result = record { function = 20; params = Ty.bool ∷ [] }

abbrev sent_call : RpcRequest
sent_call = call_request 100 7 is_one one on_result 21 client

abbrev waiting : ServiceRpc
waiting = register sent_call client

abbrev answer : RspProto
answer = answer_to sent_call.req (Value.bool true ∷ [])

answered :
    handle_rpc_rsp rt answer waiting
    ≡ (called_back 20 (Value.bool true ∷ []) ∷ [], record waiting { rpc_requests = [] })
unfolding program
answered = refl

-- The call that does not wait is forgotten without a word, the one that waits is told.
forgotten : loop 106 waiting ≡ ([], record waiting { rpc_requests = [] })
unfolding program
forgotten = refl

one-Passes : Passes rt (Ty.uint w32 ∷ []) one
unfolding program Carried blank
one-Passes = (
  (omega arith, refl, refl, tt),
  omega arith,
  ((omega arith, (omega arith, tt)), omega arith, omega arith),
)

result-Passes : Passes rt on_result.params (method.call one)
unfolding program Carried blank
result-Passes = (
  (tt, refl, refl, tt),
  omega arith,
  ((omega arith, (omega arith, tt)), omega arith, omega arith),
)

is_one-known : get str_discrete is_one server.methods ≡ some method
unfolding program
is_one-known = refl

request-size : length (spb_encode (req_value sent_call.req)).0 + 4 < max_msg_size
unfolding program
request-size = omega arith

answer-size : length (spb_encode (rsp_value answer)).0 + 4 < max_msg_size
unfolding program
answer-size = omega arith

sent_call-kept :
    get ℕ_discrete ((client.rpc_req_sequence + 1) % 2 ^ 32) waiting.rpc_requests ≡ some sent_call
unfolding program
sent_call-kept = refl

rpc_call-delivers_example :
    (f : Bytes) × (g : Bytes) × (rpc_call true 100 false 7 is_one
        (call_params one on_result 21)
        client
      ≡ (returned none, sent 7 f ∷ [], register sent_call client))
    × (rpc_unmarshal rt server (f ++ []) ≡ (length f, request 2 sent_call.req, server))
    × (handle_rpc_req rt 8 sent_call.req server ≡ called_method is_one one ∷ sent 8 g ∷ [])
    × (rpc_unmarshal rt waiting (g ++ (1 ∷ [])) ≡ (length g, response 3 answer, waiting))
    × (handle_rpc_rsp rt answer waiting ≡ (
      called_back 20 (Value.bool true ∷ []) ∷ [],
      record waiting { rpc_requests = delete ℕ_discrete ((0 + 1) % 2 ^ 32) waiting.rpc_requests },
    ))
rpc_call-delivers_example =
    rpc_call-delivers rt 100 7 8 21 is_one one method on_result client server waiting [] (1 ∷ [])
      is_one-known (omega arith) one-Passes result-Passes request-size answer-size sent_call-kept

answer-Fits : RspFits rt answer
unfolding program
answer-Fits = (
  omega arith,
  omega arith,
  omega arith,
  omega arith,
  ((omega arith, (omega arith, tt)), omega arith, omega arith),
  omega arith,
)

first_run :
    Steps rt 1 client (rpc_call true 100 false 7 is_one (call_params one on_result 21) client).2
first_run = then_step start (call true 100 false 7 is_one (call_params one on_result 21))

Steps-Valid_example :
    Valid (rpc_call true 100 false 7 is_one (call_params one on_result 21) client).2
Steps-Valid_example =
    Steps-Valid rt [] 1 (rpc_call true 100 false 7 is_one (call_params one on_result 21) client).2
      first_run

called-waiting :
    (rpc_call true 100 false 7 is_one (call_params one on_result 21) client).2 ≡ waiting
unfolding program
called-waiting = refl

waiting-Valid : Valid waiting
waiting-Valid = subst Valid called-waiting (Steps-Valid rt [] 1 _ first_run)

loop-timeouts_example :
    get ℕ_discrete 1 (loop 106 waiting).1.rpc_requests
    ≡ elim (get ℕ_discrete 1 waiting.rpc_requests) [
      | none ↦ none
      | some v ↦ if ltb v.timeout 106 then none else some v
    ]
loop-timeouts_example = loop-timeouts 106 1 waiting waiting-Valid

abbrev after_call : ServiceRpc
after_call =
    (rpc_call true 103 false 7 is_one (call_params one on_result 21)
      (handle_rpc_rsp rt answer waiting).1).2

counted : (answer.rsp_cmd_seq ≤ waiting.rpc_req_sequence) × (waiting.rpc_req_sequence + 1 < 2 ^ 32)
unfolding program
counted = (omega arith, omega arith)

handle_rpc_rsp-over_example : handle_rpc_rsp rt answer after_call ≡ ([], after_call)
handle_rpc_rsp-over_example =
    handle_rpc_rsp-over rt answer answer waiting after_call 1 waiting-Valid counted.0 counted.1
      (then_step start (call true 103 false 7 is_one (call_params one on_result 21))) refl

-- The same call, waiting.
abbrev sync_call : RpcRequest
sync_call = new_request 100 true 7 is_one (packed_of one) (some on_result) (some 21) client

abbrev sync_waiting : ServiceRpc
sync_waiting = register sync_call client

told : (loop 106 sync_waiting).0 ≡ called_exception 21 err_call_timeout ∷ []
unfolding program
told = refl

sync_response-to_waiter_example :
    ((to_waiter answer sync_waiting).0 ≡ signalled)
    × ((sync_response rt 0 (to_waiter answer sync_waiting).1).0 ≡ complete rt answer sync_call)
    × (get ℕ_discrete 1 (sync_response rt 0 (to_waiter answer sync_waiting).1).1.rpc_requests
        ≡ none)
    × ((to_waiter answer (to_waiter answer sync_waiting).1).0 ≡ blocked)
unfolding program
sync_response-to_waiter_example =
    sync_response-to_waiter rt answer answer sync_call 0 sync_waiting refl refl refl refl
