-- ===== src/Rpc/Deliver.antt =====
-- A call of stnet/rpc.go from one service to another and back: the frame of the request, the call of
-- the method, the frame of the response, and the callback.
use gotools.Common.{
  ℕ, ◌+◌, ◌^◌, ◌%◌, ◌<◌, ◌≡◌, refl, ap, ◌∙◌, arith, List, [], ◌∷◌, ◌++◌, length, map, true, false,
  none, some, ℕ_discrete,
}
use gotools.Common.Assoc.{get, delete, get-insert}
use gotools.Config.Text.{str_discrete}
use gotools.Spb.Values.{Ty, Value}
use gotools.Spb.Pack.{spb_encode}
use gotools.Spb.Unpack.{Runtime}
use gotools.Frame.{max_msg_size}
use gotools.Rpc.{
  Bytes, ReqProto, RspProto, Callback, RpcRequest, Method, ServiceRpc, sent, called_back,
  called_method,
}
use gotools.Rpc.Args.{pack_params, Fits, unpack_args-pack_params}
use gotools.Rpc.Params.{Param, exception, function, value, split_params, param_values}
use gotools.Rpc.Proto.{
  req_value, rsp_value, send_frame, request, response, to_waiter, rpc_unmarshal,
}
use gotools.Rpc.Frames.{AreBytes, rpc_unmarshal-send_request, rpc_unmarshal-send_response}
use gotools.Rpc.Calls.{
  new_request, register, send_req, rpc_call, returned, complete, handle_rpc_rsp, rsp_to, respond,
  send_rsp, handle_rpc_req,
}

-- The parameters of a call: the values, a callback, and a function for the exception.
abbrev pub call_params : List Value → Callback → ℕ → List Param
call_params vs c e = map value vs ++ (function c ∷ exception e ∷ [])

split_params-append :
    (vs : List Value) (p q : Param)
    → split_params (map value vs ++ (p ∷ q ∷ [])) ≡ some (map value vs, p, q)
unfolding split_params
split_params-append [] p q = refl
split_params-append (v ∷ []) p q = refl
split_params-append (v ∷ w ∷ vs) p q = ground (arith, split_params-append (w ∷ vs) p q)

param_values-map : (vs : List Value) → param_values (map value vs) ≡ vs
param_values-map [] = refl
param_values-map (v ∷ vs) = ap (λ t. v ∷ t) (param_values-map vs)

-- What the values are packed to.
abbrev pub packed_of : List Value → Bytes
packed_of vs = (pack_params 0 vs []).0

abbrev pub call_request : ℕ → ℕ → Bytes → List Value → Callback → ℕ → ServiceRpc → RpcRequest
call_request now sess name vs c e s =
    new_request now false sess name (packed_of vs) (some c) (some e) s

abbrev pub answer_to : ReqProto → List Value → RspProto
answer_to req results = record (rsp_to req) { rsp_data = packed_of results }

-- The values fit their types, and what they are packed to goes into a message.
abbrev pub Passes : Runtime → List Ty → List Value → Type 0
Passes rt ts vs = Fits rt ts vs × (length vs < 2 ^ 32) × AreBytes rt (packed_of vs)

module _ (rt : Runtime) where
  rpc_call-sends :
      (now sess e : ℕ) (name : Bytes) (vs : List Value) (ts : List Ty) (c : Callback)
      (s : ServiceRpc) (f : Bytes)
      → Passes rt ts vs
      → send_frame 2 (req_value (call_request now sess name vs c e s).req) ≡ some f
      → rpc_call true now false sess name (call_params vs c e) s
        ≡ (returned none, sent sess f ∷ [], register (call_request now sess name vs c e s) s)
  unfolding rpc_call send_req new_request
  rpc_call-sends now sess e name vs ts c s f (fits, few, bytes) h =
      let split = split_params-append vs (function c) (exception e) in
      let same = param_values-map vs in
      let packs = (unpack_args-pack_params rt ts vs fits few (omega (arith, bytes))).0 in
      ground (arith, split, same, packs, h)

  handle_rpc_req-responds :
      (peer : ℕ) (req : ReqProto) (vs : List Value) (m : Method) (t : ServiceRpc) (g : Bytes)
      → get str_discrete req.func_name t.methods ≡ some m
      → req.is_one_way ≡ false
      → req.req_data ≡ packed_of vs
      → Passes rt m.params vs
      → (rs : List Ty) → Passes rt rs (m.call vs)
      → send_frame 3 (rsp_value (answer_to req (m.call vs))) ≡ some g
      → handle_rpc_req rt peer req t ≡ called_method req.func_name vs ∷ sent peer g ∷ []
  unfolding handle_rpc_req respond send_rsp
  handle_rpc_req-responds peer req vs m t g known both bytes (fits, few, size) rs
        (fits', few', size') h =
      let reads = (unpack_args-pack_params rt m.params vs fits few (omega (arith, size))).1 in
      let packs = (unpack_args-pack_params rt rs (m.call vs) fits' few' (omega (arith, size'))).0 in
      ground (arith, known, both, bytes, reads, packs, h)

  handle_rpc_rsp-calls_back :
      (rsp : RspProto) (r : RpcRequest) (c : Callback) (results : List Value) (s : ServiceRpc)
      → get ℕ_discrete rsp.rsp_cmd_seq s.rpc_requests ≡ some r
      → r.callback ≡ some c
      → rsp.rsp_code ≡ 0
      → rsp.rsp_data ≡ packed_of results
      → Passes rt c.params results
      → handle_rpc_rsp rt rsp s ≡ (
        called_back c.function results ∷ [],
        record s { rpc_requests = delete ℕ_discrete rsp.rsp_cmd_seq s.rpc_requests },
      )
  unfolding handle_rpc_rsp complete
  handle_rpc_rsp-calls_back rsp r c results s there cb code bytes (fits, few, size) =
      let reads = (unpack_args-pack_params rt c.params results fits few (omega (arith, size))).1 in
      ground (arith, there, cb, code, bytes, reads)

  register-there :
      (r : RpcRequest) (s : ServiceRpc)
      → get ℕ_discrete r.req.req_cmd_seq (register r s).rpc_requests ≡ some r
  unfolding register
  register-there r s =
      ground (arith, get-insert ℕ_discrete r.req.req_cmd_seq r.req.req_cmd_seq r s.rpc_requests)

  to_waiter-async :
      (rsp : RspProto) (r : RpcRequest) (s : ServiceRpc)
      → get ℕ_discrete rsp.rsp_cmd_seq s.rpc_requests ≡ some r
      → r.signal ≡ none
      → to_waiter rsp s ≡ (response 3 rsp, s)
  unfolding to_waiter
  to_waiter-async rsp r s there alone = ground (arith, there, alone)

  -- A call that does not wait, of a method that the other service has, calls that method with the
  -- values of the call, and calls the callback with the method's results. The values and the results
  -- are carried by the format, are of the types of the method and of the callback, and fit into a
  -- message; the sessions take the frames, and whatever follows a frame is left for later. At the
  -- caller anything may happen in between that leaves the request in its table.
  pub rpc_call-delivers :
      (now sess peer e : ℕ) (name : Bytes) (vs : List Value) (m : Method) (c : Callback)
      (s t u : ServiceRpc) (rest rest' : Bytes)
      → get str_discrete name t.methods ≡ some m
      → length name < 2 ^ 31
      → Passes rt m.params vs
      → Passes rt c.params (m.call vs)
      → length (spb_encode (req_value (call_request now sess name vs c e s).req)).0 + 4
        < max_msg_size
      → length
            (spb_encode
              (rsp_value (answer_to (call_request now sess name vs c e s).req (m.call vs)))).0
          + 4
        < max_msg_size
      → get ℕ_discrete ((s.rpc_req_sequence + 1) % 2 ^ 32) u.rpc_requests
        ≡ some (call_request now sess name vs c e s)
      → (f : Bytes) × (g : Bytes) × (rpc_call true now false sess name (call_params vs c e) s
          ≡ (returned none, sent sess f ∷ [], register (call_request now sess name vs c e s) s))
        × (rpc_unmarshal rt t (f ++ rest)
            ≡ (length f, request 2 (call_request now sess name vs c e s).req, t))
        × (handle_rpc_req rt peer (call_request now sess name vs c e s).req t
            ≡ called_method name vs ∷ sent peer g ∷ [])
        × (rpc_unmarshal rt u (g ++ rest') ≡ (
          length g,
          response 3 (answer_to (call_request now sess name vs c e s).req (m.call vs)),
          u,
        ))
        × (handle_rpc_rsp rt (answer_to (call_request now sess name vs c e s).req (m.call vs)) u ≡ (
          called_back c.function (m.call vs) ∷ [],
          record u {
            rpc_requests = delete ℕ_discrete ((s.rpc_req_sequence + 1) % 2 ^ 32) u.rpc_requests;
          },
        ))
  unfolding new_request
  rpc_call-delivers now sess peer e name vs m c s t u rest rest' known short there back small small'
        kept =
      let r = call_request now sess name vs c e s in
      let rsp = answer_to r.req (m.call vs) in
      let seq : (s.rpc_req_sequence + 1) % 2 ^ 32 < 2 ^ 32 = omega arith in
      let (f, sent_f, got_f) =
        rpc_unmarshal-send_request rt t r.req rest (omega arith, seq, there.2, short) small in
      let (g, sent_g, got_g) =
        rpc_unmarshal-send_response rt u rsp rest'
          (omega arith, seq, omega arith, omega arith, back.2, short) small' in
      let async = to_waiter-async rsp r u kept refl in
      (
        f,
        g,
        rpc_call-sends now sess e name vs m.params c s f there sent_f,
        got_f,
        handle_rpc_req-responds peer r.req vs m t g known refl refl there c.params back sent_g,
        got_g ∙ ground (arith, async),
        handle_rpc_rsp-calls_back rsp r c (m.call vs) u kept refl refl refl back,
      )
