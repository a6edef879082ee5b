-- ===== src/Rpc/Table.antt =====
-- The table of requests of stnet/rpc.go.
use gotools.Common.{
  ℕ, ◌^◌, ◌<◌, ◌≡◌, refl, sym, ap, ◌∙◌, arith, List, [], ◌∷◌, ltb, ◌==◌, suc, Bool, false, ◌&&◌,
  if◌then◌else◌, Option, none, some, ℕ_discrete, ◌⊎◌, inl, inr, Option-cases, Bool-cases,
}
use gotools.Common.Assoc.{get, get-insert, get-delete, Unique}
use gotools.Spb.Unpack.{Runtime}
use gotools.Rpc.{Effect, called_exception, Bytes, RspProto, Callback, RpcRequest, ServiceRpc}
use gotools.Rpc.Args.{pack_params}
use gotools.Rpc.Params.{Param, split_params, as_exception, as_callback, param_values}
use gotools.Rpc.Proto.{signalled, blocked, to_waiter}
use gotools.Rpc.Calls.{
  new_request, register, send_req, rpc_call, complete, handle_rpc_rsp, sync_response, sweep, loop,
  err_call_timeout,
}

send_req-state : (accepted : Bool) (r : RpcRequest) (s : ServiceRpc) → (send_req accepted r s).2 ≡ s
unfolding send_req
send_req-state accepted r s = ground arith

-- rpc_call leaves the service as it is, or registers one request.
pub rpc_call-state :
    (accepted : Bool) (now : ℕ) (issync : Bool) (sess : ℕ) (name : Bytes) (params : List Param)
    (s : ServiceRpc)
    → ((rpc_call accepted now issync sess name params s).2 ≡ s)
      ⊎ ((packed : Bytes) × (c : Option Callback) × (e : Option ℕ) × ((rpc_call accepted now issync
              sess name params s).2
            ≡ register (new_request now issync sess name packed c e s) s))
unfolding rpc_call
rpc_call-state accepted now issync sess name params s = elim (Option-cases (split_params params)) [
  | inl h ↦ inl (ground (arith, h))
  | inr ((front, p, q), h) ↦ elim (Option-cases (as_exception q)) [
    | inl h1 ↦ inl (ground (arith, h, h1))
    | inr (e, h1) ↦ elim (Option-cases (as_callback p)) [
      | inl h2 ↦ inl (ground (arith, h, h1, h2))
      | inr (c, h2) ↦ elim (Option-cases (pack_params 0 (param_values front) []).1) [
        | inr (x, h3) ↦ inl (ground (arith, h, h1, h2, h3))
        | inl h3 ↦
            let packed = (pack_params 0 (param_values front) []).0 in
            let r = new_request now issync sess name packed c e s in
            let sent = send_req-state accepted r (register r s) in
            inr (packed, c, e, ground (arith, h, h1, h2, h3, sent))
      ]
    ]
  ]
]

-- A number in the table is that of its request, and a call that waits has its channel.
abbrev pub IsEntry : ServiceRpc → ℕ → RpcRequest → Type 0
IsEntry s k v =
    (v.req.req_cmd_seq ≡ k)
    × (k < 2 ^ 32)
    × ((c : ℕ) → v.signal ≡ some c → (o : Option RspProto) × (get ℕ_discrete c s.channels ≡ some o))

abbrev pub Valid : ServiceRpc → Type 0
Valid s =
    Unique ℕ_discrete s.rpc_requests
    × ((k : ℕ) (v : RpcRequest) → get ℕ_discrete k s.rpc_requests ≡ some v → IsEntry s k v)

-- Loop deletes exactly the requests whose time is over before it.
pub sweep-absent :
    (now k : ℕ) (m : List (ℕ × RpcRequest))
    → get ℕ_discrete k m ≡ none
    → get ℕ_discrete k (sweep now m).1 ≡ none
unfolding get sweep
sweep-absent now k [] h = refl
sweep-absent now k ((j, v) ∷ m) h = ground (arith, sweep-absent now k m)

pub get-sweep :
    (now k : ℕ) (m : List (ℕ × RpcRequest))
    → Unique ℕ_discrete m
    → get ℕ_discrete k (sweep now m).1 ≡ elim (get ℕ_discrete k m) [
      | none ↦ none
      | some v ↦ if ltb v.timeout now then none else some v
    ]
unfolding get sweep
get-sweep now k [] u = refl
get-sweep now k ((j, v) ∷ m) u = elim (ℕ_discrete j k) [
  | yes p ↦
      let gone : get ℕ_discrete k (sweep now m).1 ≡ none =
        sweep-absent now k m (ap (λ x. get ℕ_discrete x m) (sym p) ∙ u.0) in
      ground (arith, p, gone)
  | no n ↦ ground (arith, n, get-sweep now k m u.1)
]

pub sweep-Unique :
    (now : ℕ) (m : List (ℕ × RpcRequest)) → Unique ℕ_discrete m → Unique ℕ_discrete (sweep now m).1
unfolding sweep
sweep-Unique now [] u = tt
sweep-Unique now ((j, v) ∷ m) u = elim (Bool-cases (ltb v.timeout now)) [
  | inl e ↦ rw e (sweep-Unique now m u.1)
  | inr e ↦ rw e (sweep-absent now j m u.0, sweep-Unique now m u.1)
]

-- On a service that is in order a Loop at `now` takes from the table exactly the requests with a
-- timeout before it, and the others keep their places.
pub loop-timeouts :
    (now k : ℕ) (s : ServiceRpc)
    → Valid s
    → get ℕ_discrete k (loop now s).1.rpc_requests ≡ elim (get ℕ_discrete k s.rpc_requests) [
      | none ↦ none
      | some v ↦ if ltb v.timeout now then none else some v
    ]
unfolding loop
loop-timeouts now k s h = get-sweep now k s.rpc_requests h.0

-- A response takes its own request from the table and no other, and a second response with the same
-- number does nothing.
pub handle_rpc_rsp-once :
    (rt : Runtime) (rsp again : RspProto) (s : ServiceRpc)
    → again.rsp_cmd_seq ≡ rsp.rsp_cmd_seq
    → (handle_rpc_rsp rt again (handle_rpc_rsp rt rsp s).1 ≡ ([], (handle_rpc_rsp rt rsp s).1))
      × ((k : ℕ)
          → get ℕ_discrete k (handle_rpc_rsp rt rsp s).1.rpc_requests
            ≡ (if k == rsp.rsp_cmd_seq then none else get ℕ_discrete k s.rpc_requests))
unfolding handle_rpc_rsp
handle_rpc_rsp-once rt rsp again s e =
    let gone = get-delete ℕ_discrete rsp.rsp_cmd_seq rsp.rsp_cmd_seq s.rpc_requests in
    elim (Option-cases (get ℕ_discrete rsp.rsp_cmd_seq s.rpc_requests)) [
      | inl h ↦ (ground (arith, h, e), λ k. ground (arith, h))
      | inr (v, h) ↦ (
        ground (arith, h, e, gone),
        λ k. ground (arith, h, get-delete ℕ_discrete rsp.rsp_cmd_seq k s.rpc_requests),
      )
    ]

-- The response to a call that waits at an empty channel goes into that channel, from which the call
-- takes it and completes its request, which is then gone from the table. A second response that
-- comes before the call takes the first one blocks the reader.
pub sync_response-to_waiter :
    (rt : Runtime) (rsp again : RspProto) (r : RpcRequest) (c : ℕ) (s : ServiceRpc)
    → get ℕ_discrete rsp.rsp_cmd_seq s.rpc_requests ≡ some r
    → r.signal ≡ some c
    → get ℕ_discrete c s.channels ≡ some none
    → again.rsp_cmd_seq ≡ rsp.rsp_cmd_seq
    → ((to_waiter rsp s).0 ≡ signalled)
      × ((sync_response rt c (to_waiter rsp s).1).0 ≡ complete rt rsp r)
      × (get ℕ_discrete rsp.rsp_cmd_seq (sync_response rt c (to_waiter rsp s).1).1.rpc_requests
          ≡ none)
      × ((to_waiter again (to_waiter rsp s).1).0 ≡ blocked)
unfolding to_waiter sync_response handle_rpc_rsp
sync_response-to_waiter rt rsp again r c s there waiting empty same =
    let full = get-insert ℕ_discrete c c (some rsp) s.channels in
    let gone = get-delete ℕ_discrete rsp.rsp_cmd_seq rsp.rsp_cmd_seq s.rpc_requests in
    (
      ground (arith, there, waiting, empty),
      ground (arith, there, waiting, empty, full),
      ground (arith, there, waiting, empty, full, gone),
      ground (arith, there, waiting, empty, full, same),
    )

-- How many elements of a list pass a test.
abbrev pub how_many : {A : Type 0} → (A → Bool) → List A → ℕ
how_many p [] = 0
how_many p (x ∷ xs) = let n = how_many p xs in if p x then suc n else n

-- A call of the exception `e`, with the code of a timeout.
abbrev pub is_timeout_of : ℕ → Effect → Bool
is_timeout_of e (called_exception f code) = f == e && code == err_call_timeout
is_timeout_of e other = false

-- A request whose time is over at `now`, and one that a call waits for with the exception `e`.
abbrev pub is_over : ℕ → RpcRequest → Bool
is_over now v = ltb v.timeout now

abbrev pub waits_with : ℕ → RpcRequest → Bool
waits_with e v = elim v.signal [
  | none ↦ false
  | some c ↦ elim v.exception [ none ↦ false | some f ↦ f == e ]
]

abbrev pub IsTimeout : Effect → Type 0
IsTimeout f = (e : ℕ) × (f ≡ called_exception e err_call_timeout)
