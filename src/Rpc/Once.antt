-- ===== src/Rpc/Once.antt =====
-- Runs of a service of stnet/rpc.go: the calls, the bytes that come in, the messages that are
-- handled, the ends of the calls that wait, and the Loops, in any order.
use gotools.Common.{
  ℕ, ◌+◌, ◌^◌, ◌%◌, ◌≤◌, ◌<◌, ◌≡◌, ◌≢◌, refl, sym, ◌∙◌, arith, List, [], Bool, Option, none, some,
  ℕ_discrete, inl, inr, Option-cases,
}
use mathlib.Core.Path.{subst}
use gotools.Common.Assoc.{get, get-insert, Unique, insert-Unique}
use gotools.Spb.Unpack.{Runtime}
use gotools.Rpc.{Bytes, RspProto, RpcRequest, Method, ServiceRpc}
use gotools.Rpc.Params.{Param}
use gotools.Rpc.Proto.{Received, rpc_unmarshal}
use gotools.Rpc.Calls.{
  new_request, register, rpc_call, handle_rpc_rsp, sync_response, sync_timeout, handle_message,
  loop, new_service_rpc,
}
use gotools.Rpc.Table.{rpc_call-state, handle_rpc_rsp-once, IsEntry, Valid}
use gotools.Rpc.Shrinks.{
  insert-kept, Shrinks, handle_rpc_rsp-Shrinks, delete-Shrinks, receive-Shrinks,
  handle_message-Shrinks, sync_response-Shrinks, loop-Shrinks,
}

register-channel :
    (r : RpcRequest) (s : ServiceRpc) (c : ℕ)
    → r.signal ≡ some c
    → (o : Option RspProto) × (get ℕ_discrete c (register r s).channels ≡ some o)
unfolding register
register-channel r s c h = (none, ground (arith, h, get-insert ℕ_discrete c c none s.channels))

register-kept :
    (r : RpcRequest) (s : ServiceRpc) (c : ℕ) (o : Option RspProto)
    → get ℕ_discrete c s.channels ≡ some o
    → (p : Option RspProto) × (get ℕ_discrete c (register r s).channels ≡ some p)
unfolding register
register-kept r s c o there = elim (Option-cases r.signal) [
  | inl h ↦ (o, ground (arith, h, there))
  | inr (d, h) ↦ let (p, q) = insert-kept d c none o s.channels there in (p, ground (arith, h, q))
]

-- A request under the next number, whatever is in it.
register-Valid :
    (r : RpcRequest) (s : ServiceRpc) → r.req.req_cmd_seq < 2 ^ 32 → Valid s → Valid (register r s)
unfolding register
register-Valid r s small (u, entries) =
    let seq : ℕ = r.req.req_cmd_seq in
    (
      insert-Unique ℕ_discrete seq r s.rpc_requests u,
      λ k v e. elim (ℕ_discrete seq k) [
        | yes p ↦
            let same : r ≡ v = ground (arith, p, e, get-insert ℕ_discrete seq k r s.rpc_requests) in
            subst (λ x. IsEntry (register r s) k x) same (p, omega arith, register-channel r s)
        | no n ↦
            let (p, q, w) =
              entries k v (ground (arith, n, e, get-insert ℕ_discrete seq k r s.rpc_requests)) in
            (p, q, λ c h. let (o, there) = w c h in register-kept r s c o there)
      ],
    )

module _ (rt : Runtime) where
  -- One step, with the number of calls in it.
  pub data Step : ℕ → ServiceRpc → ServiceRpc → Type 0 where
    call :
        {s : ServiceRpc} (accepted : Bool) (now : ℕ) (issync : Bool) (sess : ℕ) (name : Bytes)
        (params : List Param)
        → Step 1 s (rpc_call accepted now issync sess name params s).2
    receive : {s : ServiceRpc} (bytes : Bytes) → Step 0 s (rpc_unmarshal rt s bytes).2
    handle :
        {s : ServiceRpc} (sess : ℕ) (msg : Received) → Step 0 s (handle_message rt sess msg s).1
    reply : {s : ServiceRpc} (channel : ℕ) → Step 0 s (sync_response rt channel s).1
    give_up : {s : ServiceRpc} (r : RpcRequest) → Step 0 s (sync_timeout r s).1
    tick : {s : ServiceRpc} (now : ℕ) → Step 0 s (loop now s).1

  pub data Steps : ℕ → ServiceRpc → ServiceRpc → Type 0 where
    start : {s : ServiceRpc} → Steps 0 s s
    then_step : {n i : ℕ} {s t u : ServiceRpc} → Steps n s t → Step i t u → Steps (n + i) s u

  Shrinks-Valid : (s t : ServiceRpc) → Shrinks rt s t → Valid s → Valid t
  Shrinks-Valid s t h (u, entries) = (
    h.unique u,
    λ k v e. elim (h.fewer u k) [
      | inl gone ↦ absurd (ground (arith, e, gone))
      | inr same ↦
          let (seq, small, ch) = entries k v (sym same ∙ e) in
          (seq, small, λ c w. let (o, there) = ch c w in h.kept c o there)
    ],
  )

  Step-Shrinks : (s t : ServiceRpc) → Step 0 s t → Shrinks rt s t
  unfolding sync_timeout
  Step-Shrinks s t (receive bytes) = receive-Shrinks rt bytes s
  Step-Shrinks s t (handle sess msg) = handle_message-Shrinks rt sess msg s
  Step-Shrinks s t (reply c) = sync_response-Shrinks rt c s
  Step-Shrinks s t (give_up r) = delete-Shrinks rt r.req.req_cmd_seq s
  Step-Shrinks s t (tick now) = loop-Shrinks rt now s

  Step-Valid : (n : ℕ) (s t : ServiceRpc) → Step n s t → Valid s → Valid t
  unfolding new_request
  Step-Valid n s t (call accepted now issync sess name params) h =
      elim (rpc_call-state accepted now issync sess name params s) [
        | inl e ↦ rw e h
        | inr (packed, c, e, reg) ↦ rw reg (register-Valid _ s (omega arith) h)
      ]
  Step-Valid n s t (receive bytes) h = Shrinks-Valid s t (receive-Shrinks rt bytes s) h
  Step-Valid n s t (handle sess msg) h = Shrinks-Valid s t (handle_message-Shrinks rt sess msg s) h
  Step-Valid n s t (reply c) h = Shrinks-Valid s t (sync_response-Shrinks rt c s) h
  Step-Valid n s t (give_up r) h = Shrinks-Valid s t (Step-Shrinks s t (give_up r)) h
  Step-Valid n s t (tick now) h = Shrinks-Valid s t (loop-Shrinks rt now s) h

  -- In every run of a new service each number in the table is that of its request and stands once, and
  -- the channel of a call that waits is there.
  pub Steps-Valid :
      (methods : List (Bytes × Method)) (n : ℕ) (t : ServiceRpc)
      → Steps n (new_service_rpc methods) t
      → Valid t
  unfolding get
  Steps-Valid methods n t start = (tt, λ k v e. ground (arith, e))
  Steps-Valid methods n t (then_step run step) = Step-Valid _ _ t step (Steps-Valid methods _ _ run)

  register-gone :
      (r : RpcRequest) (s : ServiceRpc) (k : ℕ)
      → r.req.req_cmd_seq ≡ (s.rpc_req_sequence + 1) % 2 ^ 32
      → k ≤ s.rpc_req_sequence
      → s.rpc_req_sequence + 1 < 2 ^ 32
      → get ℕ_discrete k s.rpc_requests ≡ none
      → (get ℕ_discrete k (register r s).rpc_requests ≡ none)
        × ((register r s).rpc_req_sequence ≡ s.rpc_req_sequence + 1)
  unfolding register
  register-gone r s k seq le small gone =
      let other : r.req.req_cmd_seq ≢ k = λ e. absurd (omega (arith, seq, e)) in
      (
        ground (arith, other, gone, get-insert ℕ_discrete r.req.req_cmd_seq k r s.rpc_requests),
        omega arith,
      )

  Shrinks-gone :
      (s t : ServiceRpc) (k : ℕ)
      → Shrinks rt s t
      → Unique ℕ_discrete s.rpc_requests
      → get ℕ_discrete k s.rpc_requests ≡ none
      → get ℕ_discrete k t.rpc_requests ≡ none
  Shrinks-gone s t k h u gone = elim (h.fewer u k) [ inl e ↦ e | inr e ↦ e ∙ gone ]

  -- The numbers up to the counter that are not in the table.
  abbrev Gone : ℕ → ℕ → ServiceRpc → Type 0
  Gone k top s =
      Valid s
      × (get ℕ_discrete k s.rpc_requests ≡ none)
      × (k ≤ s.rpc_req_sequence)
      × (s.rpc_req_sequence ≤ top)

  shrunk-Gone : (k top : ℕ) (s t : ServiceRpc) → Shrinks rt s t → Gone k top s → Gone k (top + 0) t
  shrunk-Gone k top s t h (valid, gone, le, bound) = (
    Shrinks-Valid s t h valid,
    Shrinks-gone s t k h valid.0 gone,
    omega (arith, h.counter),
    omega (arith, h.counter),
  )

  Step-Gone :
      (n k top : ℕ) (s t : ServiceRpc)
      → Step n s t
      → top + n < 2 ^ 32
      → Gone k top s
      → Gone k (top + n) t
  unfolding new_request
  Step-Gone n k top s t (call accepted now issync sess name params) small (valid, gone, le, bound) =
      elim (rpc_call-state accepted now issync sess name params s) [
        | inl e ↦ rw e (valid, gone, le, omega arith)
        | inr (packed, c, x, reg) ↦
            let r = new_request now issync sess name packed c x s in
            let (gone', seq) = register-gone r s k refl le (omega arith) gone in
            rw reg (
              register-Valid r s (omega arith) valid,
              gone',
              omega (arith, seq),
              omega (arith, seq),
            )
      ]
  Step-Gone n k top s t (receive bytes) small h = shrunk-Gone k _ s t (receive-Shrinks rt bytes s) h
  Step-Gone n k top s t (handle sess msg) small h =
      shrunk-Gone k _ s t (handle_message-Shrinks rt sess msg s) h
  Step-Gone n k top s t (reply c) small h = shrunk-Gone k _ s t (sync_response-Shrinks rt c s) h
  Step-Gone n k top s t (give_up r) small h = shrunk-Gone k _ s t (Step-Shrinks s t (give_up r)) h
  Step-Gone n k top s t (tick now) small h = shrunk-Gone k _ s t (loop-Shrinks rt now s) h

  Steps-Gone :
      (n k : ℕ) (s t : ServiceRpc)
      → Steps n s t
      → s.rpc_req_sequence + n < 2 ^ 32
      → Gone k s.rpc_req_sequence s
      → Gone k (s.rpc_req_sequence + n) t
  Steps-Gone n k s t start small h = (h.0, h.1, h.2, omega arith)
  Steps-Gone n k s t (then_step {n = m} {i = i} {t = u} run step) small h =
      let at_u = Steps-Gone m k s u run (omega arith) h in
      let at_t = Step-Gone i k (s.rpc_req_sequence + m) u t step (omega arith) at_u in
      (at_t.0, at_t.1, at_t.2, omega (arith, at_t.3))

  -- On a service that is in order, once the response with a number that the counter has reached is
  -- handled, the request is over: after any run in which the numbers do not come round, a response with
  -- that number does nothing.
  pub handle_rpc_rsp-over :
      (rsp again : RspProto) (s t : ServiceRpc) (n : ℕ)
      → Valid s
      → rsp.rsp_cmd_seq ≤ s.rpc_req_sequence
      → s.rpc_req_sequence + n < 2 ^ 32
      → Steps n (handle_rpc_rsp rt rsp s).1 t
      → again.rsp_cmd_seq ≡ rsp.rsp_cmd_seq
      → handle_rpc_rsp rt again t ≡ ([], t)
  unfolding handle_rpc_rsp
  handle_rpc_rsp-over rsp again s t n valid le small run same =
      let k = rsp.rsp_cmd_seq in
      let u = (handle_rpc_rsp rt rsp s).1 in
      let over = handle_rpc_rsp-once rt rsp rsp s refl in
      let shrunk = handle_rpc_rsp-Shrinks rt rsp s in
      let gone : get ℕ_discrete k u.rpc_requests ≡ none = ground (arith, over.1 k) in
      let top = shrunk.counter in
      let at_t =
        Steps-Gone n k u t run (omega (arith, top))
          (Shrinks-Valid s u shrunk valid, gone, omega (arith, top), omega arith) in
      ground (arith, same, at_t.1)
