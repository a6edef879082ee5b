-- ===== src/Rpc/Calls.antt =====
-- The calls of stnet/rpc.go: what a service does for a caller, for a request and for a response. The
-- functions of the program are parameters: a method is its types and what it returns, and what it
-- does to the service in turn is a step of its own.
use gotools.Common.{
  ℕ, suc, ◌+◌, ◌-◌, ◌^◌, ◌%◌, List, [], ◌∷◌, ◌++◌, ltb, ◌==◌, Bool, true, false, not, ◌&&◌,
  if◌then◌else◌, Option, none, some, ℕ_discrete,
}
use gotools.Common.Assoc.{get, insert, delete}
use gotools.Config.Text.{str_discrete}
use gotools.Spb.Values.{Value}
use gotools.Spb.Pack.{SpbError, panicked}
use gotools.Spb.Unpack.{Runtime}
use gotools.Rpc.{
  Bytes, ReqProto, RspProto, Callback, RpcRequest, Method, ServiceRpc, Effect, sent,
  called_exception, called_back, called_method, panicking,
}
use gotools.Rpc.Args.{pack_params, args, bad_args, args_panic, unpack_args}
use gotools.Rpc.Params.{
  CallError, no_callback, bad_exception, bad_callback, wrong_param, not_encoded, not_sent, Param,
  split_params, as_exception, as_callback, param_values,
}
use gotools.Rpc.Proto.{req_value, rsp_value, zero_rsp, send_frame, Received, request, response}

-- TimeOut, in seconds
abbrev pub time_out : ℕ
time_out = 5

-- The codes are the patterns of -1, -2 and -3 in 32 bits.
abbrev pub err_no_remote_func : ℕ
err_no_remote_func = 2 ^ 32 - 1

abbrev pub err_call_timeout : ℕ
err_call_timeout = 2 ^ 32 - 2

abbrev pub err_func_param : ℕ
err_func_param = 2 ^ 32 - 3

abbrev is_none : {A : Type 0} → Option A → Bool
is_none none = true
is_none (some a) = false

-- The request that goes into the table.
unfoldable pub new_request :
    ℕ → Bool → ℕ → Bytes → Bytes → Option Callback → Option ℕ → ServiceRpc → RpcRequest
new_request now issync sess name packed c e s = record {
  req = record {
    req_cmd_id = 0;
    req_cmd_seq = (s.rpc_req_sequence + 1) % 2 ^ 32;
    req_data = packed;
    is_one_way = is_none c && is_none e;
    func_name = name;
  };
  callback = c;
  exception = e;
  timeout = now + time_out;
  sess = sess;
  signal = if issync then some s.next_channel else none;
}

-- The part under the lock: the next number, the channel of a call that waits, and the table.
unfoldable pub register : RpcRequest → ServiceRpc → ServiceRpc
unfolding insert ℕ_discrete
register r s = record {
  methods = s.methods;
  rpc_requests = insert ℕ_discrete r.req.req_cmd_seq r s.rpc_requests;
  rpc_req_sequence = (s.rpc_req_sequence + 1) % 2 ^ 32;
  channels = elim r.signal [ none ↦ s.channels | some c ↦ insert ℕ_discrete c none s.channels ];
  next_channel = elim r.signal [ none ↦ s.next_channel | some c ↦ suc s.next_channel ];
}

-- What a call comes to: it returns, it waits at its channel for the response to its request, or the
-- encoder panics.
pub data Called : Type 0 where
  returned : Option CallError → Called
  waits : RpcRequest → Called
  call_panics : Called

abbrev failed_call : ℕ × SpbError → Called
failed_call (i, panicked) = call_panics
failed_call (i, e) = returned (some (wrong_param i))

-- sendRpcReq and what follows it. `accepted` is whether Session.Send takes the frame.
unfoldable pub send_req : Bool → RpcRequest → ServiceRpc → Called × List Effect × ServiceRpc
unfolding send_frame
send_req accepted r s = elim (send_frame 2 (req_value r.req)) [
  | none ↦ (returned (some not_encoded), [], s)
  | some f ↦ (
    if not accepted
        then returned (some not_sent)
        else elim r.signal [ none ↦ returned none | some c ↦ waits r ],
    sent r.sess f ∷ [],
    s,
  )
]

-- rpc_call, up to where a call that waits does so.
unfoldable pub rpc_call :
    Bool → ℕ → Bool → ℕ → Bytes → List Param → ServiceRpc → Called × List Effect × ServiceRpc
unfolding split_params pack_params new_request register send_req
rpc_call accepted now issync sess name params s = elim (split_params params) [
  | none ↦ (returned (some no_callback), [], s)
  | some (front, last_but_one, last) ↦ elim (as_exception last) [
    | none ↦ (returned (some bad_exception), [], s)
    | some e ↦ elim (as_callback last_but_one) [
      | none ↦ (returned (some bad_callback), [], s)
      | some c ↦
          let packed = pack_params 0 (param_values front) [] in
          elim packed.1 [
            | some error ↦ (failed_call error, [], s)
            | none ↦
                let r = new_request now issync sess name packed.0 c e s in
                send_req accepted r (register r s)
          ]
    ]
  ]
]

unfoldable pub raise : Option ℕ → ℕ → List Effect
raise none code = []
raise (some f) code = called_exception f code ∷ []

-- What becomes of a request when its response is there.
unfoldable pub complete : Runtime → RspProto → RpcRequest → List Effect
unfolding unpack_args raise
complete rt rsp v =
    if not (rsp.rsp_code == 0) then raise v.exception rsp.rsp_code else elim v.callback [
      | none ↦ []
      | some c ↦ elim (unpack_args rt c.params (record { buf = rsp.rsp_data; index = 0 })) [
        | args vs ↦ called_back c.function vs ∷ []
        | bad_args ↦ raise v.exception err_func_param
        | args_panic ↦ panicking ∷ []
      ]
    ]

unfoldable pub handle_rpc_rsp : Runtime → RspProto → ServiceRpc → List Effect × ServiceRpc
unfolding get delete complete ℕ_discrete
handle_rpc_rsp rt rsp s = elim (get ℕ_discrete rsp.rsp_cmd_seq s.rpc_requests) [
  | none ↦ ([], s)
  | some v ↦ (
    complete rt rsp v,
    record s { rpc_requests = delete ℕ_discrete rsp.rsp_cmd_seq s.rpc_requests },
  )
]

-- The two ends of a call that waits: the response is taken from the channel, or the time is over.
unfoldable pub sync_response : Runtime → ℕ → ServiceRpc → List Effect × ServiceRpc
unfolding get insert handle_rpc_rsp ℕ_discrete
sync_response rt c s = elim (get ℕ_discrete c s.channels) [
  | none ↦ ([], s)
  | some none ↦ ([], s)
  | some (some rsp) ↦
      handle_rpc_rsp rt rsp (record s { channels = insert ℕ_discrete c none s.channels })
]

unfoldable pub sync_timeout : RpcRequest → ServiceRpc → List Effect × ServiceRpc
unfolding delete raise ℕ_discrete
sync_timeout r s = (
  raise r.exception err_call_timeout,
  record s { rpc_requests = delete ℕ_discrete r.req.req_cmd_seq s.rpc_requests },
)

unfoldable pub send_rsp : ℕ → RspProto → List Effect
unfolding send_frame
send_rsp sess rsp = elim (send_frame 3 (rsp_value rsp)) [ none ↦ [] | some f ↦ sent sess f ∷ [] ]

abbrev not_packed : ℕ → RspProto → ℕ × SpbError → List Effect
not_packed sess rsp (i, panicked) = panicking ∷ []
not_packed sess rsp (i, e) = send_rsp sess (record rsp { rsp_code = err_func_param })

-- The response to a request: the results are packed like the parameters of a call.
unfoldable pub respond : ℕ → RspProto → List Value → List Effect
unfolding pack_params send_rsp
respond sess rsp results =
    let packed = pack_params 0 results [] in
    elim packed.1 [
      | some e ↦ not_packed sess rsp e
      | none ↦ send_rsp sess (record rsp { rsp_data = packed.0 })
    ]

abbrev pub rsp_to : ReqProto → RspProto
rsp_to req = record zero_rsp { rsp_cmd_seq = req.req_cmd_seq; func_name = req.func_name }

unfoldable pub handle_rpc_req : Runtime → ℕ → ReqProto → ServiceRpc → List Effect
unfolding get str_discrete unpack_args respond send_rsp
handle_rpc_req rt sess req s = elim (get str_discrete req.func_name s.methods) [
  | none ↦ send_rsp sess (record (rsp_to req) { rsp_code = err_no_remote_func })
  | some m ↦ elim (unpack_args rt m.params (record { buf = req.req_data; index = 0 })) [
    | bad_args ↦ send_rsp sess (record (rsp_to req) { rsp_code = err_func_param })
    | args_panic ↦ panicking ∷ []
    | args vs ↦
        called_method req.func_name vs
        ∷ (if req.is_one_way then [] else respond sess (rsp_to req) (m.call vs))
  ]
]

-- HandleMessage, on what Unmarshal made.
unfoldable pub handle_message : Runtime → ℕ → Received → ServiceRpc → List Effect × ServiceRpc
unfolding handle_rpc_req handle_rpc_rsp
handle_message rt sess (request id req) s =
    if id == 2 then (handle_rpc_req rt sess req s, s) else ([], s)
handle_message rt sess (response id rsp) s = if id == 3 then handle_rpc_rsp rt rsp s else ([], s)
handle_message rt sess other s = ([], s)

-- Loop over the table: the calls of exceptions, and the requests that stay.
unfoldable pub sweep : ℕ → List (ℕ × RpcRequest) → List Effect × List (ℕ × RpcRequest)
unfolding raise
sweep now [] = ([], [])
sweep now ((k, v) ∷ m) =
    let rest = sweep now m in
    if ltb v.timeout now
    then (
      elim v.signal [ none ↦ rest.0 | some c ↦ raise v.exception err_call_timeout ++ rest.0 ],
      rest.1,
    )
    else (rest.0, (k, v) ∷ rest.1)

unfoldable pub loop : ℕ → ServiceRpc → List Effect × ServiceRpc
unfolding sweep
loop now s =
    ((sweep now s.rpc_requests).0, record s { rpc_requests = (sweep now s.rpc_requests).1 })

abbrev pub new_service_rpc : List (Bytes × Method) → ServiceRpc
new_service_rpc methods = record {
  methods = methods;
  rpc_requests = [];
  rpc_req_sequence = 0;
  channels = [];
  next_channel = 0;
}
