-- ===== src/Rpc/Shrinks.antt =====
-- What the operations of stnet/rpc.go other than a call do to the table, the counter and the channels.
use gotools.Common.{
  ℕ, ◌-◌, ◌≡◌, refl, ◌∙◌, arith, List, ltb, leb, ◌==◌, ◌||◌, Option, none, some, ℕ_discrete, ◌⊎◌,
  inl, inr, length, take, drop, bit_and, Option-cases, Bool-cases,
}
use gotools.Common.Assoc.{get, insert, delete, get-insert, get-delete, Unique, delete-Unique}
use gotools.Spb.Pack.{SpbError}
use gotools.Spb.Read.{Spb, Run, done, failed}
use gotools.Spb.Unpack.{Runtime}
use gotools.Spb.Decode.{spb_decode}
use gotools.Frame.{max_msg_size}
use gotools.Rpc.{Bytes, RspProto, RpcRequest, ServiceRpc}
use gotools.Rpc.Proto.{
  Received, nothing, bad_length, bad_body, request, response, signalled, blocked, panics, to_waiter,
  rpc_body, rpc_msg_len, rpc_unmarshal, rsp_value, rsp_of, zero_rsp, first_byte,
}
use gotools.Rpc.Calls.{handle_rpc_rsp, sync_response, handle_message, sweep, loop}
use gotools.Rpc.Table.{get-sweep, sweep-Unique}

Run-cases :
    {A : Type 0} (r : Run A)
    → ((v : A) × (t : Spb) × (r ≡ done v t)) ⊎ ((e : SpbError) × (t : Spb) × (r ≡ failed e t))
Run-cases (done v t) = inl (v, t, refl)
Run-cases (failed e t) = inr (e, t, refl)

-- A channel stays when another, or it, is written.
pub insert-kept :
    (c d : ℕ) (x o : Option RspProto) (m : List (ℕ × Option RspProto))
    → get ℕ_discrete d m ≡ some o
    → (p : Option RspProto) × (get ℕ_discrete d (insert ℕ_discrete c x m) ≡ some p)
insert-kept c d x o m h = elim (ℕ_discrete c d) [
  | yes p ↦ (x, ground (arith, p, get-insert ℕ_discrete c d x m))
  | no n ↦ (o, ground (arith, n, h, get-insert ℕ_discrete c d x m))
]

module _ (rt : Runtime) where
  -- What a step other than a call does to the table and the counter: requests only go, and channels
  -- only change what they hold.
  pub record Shrinks (s t : ServiceRpc) : Type 0 where
    pub counter : t.rpc_req_sequence ≡ s.rpc_req_sequence
    pub unique : Unique ℕ_discrete s.rpc_requests → Unique ℕ_discrete t.rpc_requests
    pub fewer :
        Unique ℕ_discrete s.rpc_requests
        → (k : ℕ)
        → (get ℕ_discrete k t.rpc_requests ≡ none)
          ⊎ (get ℕ_discrete k t.rpc_requests ≡ get ℕ_discrete k s.rpc_requests)
    pub kept :
        (c : ℕ) (o : Option RspProto)
        → get ℕ_discrete c s.channels ≡ some o
        → (p : Option RspProto) × (get ℕ_discrete c t.channels ≡ some p)

  same-Shrinks : (s : ServiceRpc) → Shrinks s s
  same-Shrinks s = record {
    counter = refl;
    unique = λ u. u;
    fewer = λ u k. inr refl;
    kept = λ c o h. (o, h);
  }

  channel-Shrinks :
      (c : ℕ) (x : Option RspProto) (s : ServiceRpc)
      → Shrinks s (record s { channels = insert ℕ_discrete c x s.channels })
  channel-Shrinks c x s = record {
    counter = refl;
    unique = λ u. u;
    fewer = λ u k. inr refl;
    kept = λ d o h. insert-kept c d x o s.channels h;
  }

  pub delete-Shrinks :
      (k : ℕ) (s : ServiceRpc)
      → Shrinks s (record s { rpc_requests = delete ℕ_discrete k s.rpc_requests })
  delete-Shrinks k s = record {
    counter = refl;
    unique = delete-Unique ℕ_discrete k s.rpc_requests;
    fewer = λ u j. elim (ℕ_discrete k j) [
      | yes p ↦ inl (ground (arith, p, get-delete ℕ_discrete k j s.rpc_requests))
      | no n ↦ inr (ground (arith, n, get-delete ℕ_discrete k j s.rpc_requests))
    ];
    kept = λ c o h. (o, h);
  }

  trans-Shrinks : {s t u : ServiceRpc} → Shrinks s t → Shrinks t u → Shrinks s u
  trans-Shrinks {s} {t} {u} a b = record {
    counter = b.counter ∙ a.counter;
    unique = λ h. b.unique (a.unique h);
    fewer = λ h k. elim (b.fewer (a.unique h) k) [
      | inl gone ↦ inl gone
      | inr e ↦ elim (a.fewer h k) [ inl gone ↦ inl (e ∙ gone) | inr e' ↦ inr (e ∙ e') ]
    ];
    kept = λ c o h. let (p, h') = a.kept c o h in b.kept c p h';
  }

  pub handle_rpc_rsp-Shrinks :
      (rsp : RspProto) (s : ServiceRpc) → Shrinks s (handle_rpc_rsp rt rsp s).1
  unfolding handle_rpc_rsp
  handle_rpc_rsp-Shrinks rsp s =
      elim (Option-cases (get ℕ_discrete rsp.rsp_cmd_seq s.rpc_requests)) [
        | inl h ↦ rw (h, handle_rpc_rsp) (same-Shrinks s)
        | inr (v, h) ↦ rw (h, handle_rpc_rsp) (delete-Shrinks rsp.rsp_cmd_seq s)
      ]

  to_waiter-Shrinks : (rsp : RspProto) (s : ServiceRpc) → Shrinks s (to_waiter rsp s).1
  unfolding to_waiter
  to_waiter-Shrinks rsp s = elim (Option-cases (get ℕ_discrete rsp.rsp_cmd_seq s.rpc_requests)) [
    | inl h ↦ rw (h, to_waiter) (same-Shrinks s)
    | inr (v, h) ↦ elim (Option-cases v.signal) [
      | inl h1 ↦ rw (h, h1, to_waiter) (same-Shrinks s)
      | inr (c, h1) ↦ elim (Option-cases (get ℕ_discrete c s.channels)) [
        | inl h2 ↦ rw (h, h1, h2, to_waiter) (same-Shrinks s)
        | inr (none, h2) ↦ rw (h, h1, h2, to_waiter) (channel-Shrinks c (some rsp) s)
        | inr (some old, h2) ↦ rw (h, h1, h2, to_waiter) (same-Shrinks s)
      ]
    ]
  ]

  rpc_body-state :
      (flag : ℕ) (body : Bytes) (s : ServiceRpc)
      → ((rpc_body rt flag body s).1 ≡ s)
        ⊎ ((rsp : RspProto) × ((rpc_body rt flag body s).1 ≡ (to_waiter rsp s).1))
  unfolding rpc_body
  rpc_body-state flag body s = elim (Run-cases (spb_decode rt body (some (rsp_value zero_rsp)))) [
    | inl (v, t, e) ↦ elim (Bool-cases (bit_and flag 1 == 0)) [
      | inl h ↦ inl (ground (arith, h))
      | inr h ↦ elim (Bool-cases (bit_and flag 2 == 0)) [
        | inl g ↦ inl (ground (arith, h, g, e))
        | inr g ↦ inr (rsp_of v, ground (arith, h, g, e))
      ]
    ]
    | inr (x, t, e) ↦ inl (ground (arith, e))
  ]

  rpc_unmarshal-state :
      (bytes : Bytes) (s : ServiceRpc)
      → ((rpc_unmarshal rt s bytes).2 ≡ s)
        ⊎ ((flag : ℕ) × (body : Bytes) × ((rpc_unmarshal rt s bytes).2
              ≡ (rpc_body rt flag body s).1))
  unfolding rpc_unmarshal
  rpc_unmarshal-state bytes s =
      let n = rpc_msg_len bytes in
      elim (Bool-cases (ltb (length bytes) 4)) [
        | inl h ↦ inl (ground (arith, h))
        | inr h ↦ elim (Bool-cases (ltb n 4 || leb max_msg_size n)) [
          | inl g ↦ inl (ground (arith, h, g))
          | inr g ↦ elim (Bool-cases (ltb (length bytes) n)) [
            | inl f ↦ inl (ground (arith, h, g, f))
            | inr f ↦ inr (first_byte bytes, take (n - 4) (drop 4 bytes), ground (arith, h, g, f))
          ]
        ]
      ]

  handle_message-state :
      (sess : ℕ) (msg : Received) (s : ServiceRpc)
      → ((handle_message rt sess msg s).1 ≡ s)
        ⊎ ((rsp : RspProto) × ((handle_message rt sess msg s).1 ≡ (handle_rpc_rsp rt rsp s).1))
  unfolding handle_message
  handle_message-state sess (response id rsp) s = elim (Bool-cases (id == 3)) [
    | inl e ↦ inr (rsp, ground (arith, e))
    | inr e ↦ inl (ground (arith, e))
  ]
  handle_message-state sess (request id req) s = inl (ground arith)
  handle_message-state sess nothing s = inl refl
  handle_message-state sess (bad_length n) s = inl refl
  handle_message-state sess bad_body s = inl refl
  handle_message-state sess signalled s = inl refl
  handle_message-state sess blocked s = inl refl
  handle_message-state sess panics s = inl refl

  sweep-fewer :
      (now k : ℕ) (m : List (ℕ × RpcRequest))
      → Unique ℕ_discrete m
      → (get ℕ_discrete k (sweep now m).1 ≡ none)
        ⊎ (get ℕ_discrete k (sweep now m).1 ≡ get ℕ_discrete k m)
  sweep-fewer now k m u = elim (Option-cases (get ℕ_discrete k m)) [
    | inl h ↦ inl (ground (arith, h, get-sweep now k m u))
    | inr (v, h) ↦ elim (Bool-cases (ltb v.timeout now)) [
      | inl g ↦ inl (ground (arith, h, g, get-sweep now k m u))
      | inr g ↦ inr (ground (arith, h, g, get-sweep now k m u))
    ]
  ]

  rpc_body-Shrinks :
      (flag : ℕ) (body : Bytes) (s : ServiceRpc) → Shrinks s (rpc_body rt flag body s).1
  unfolding rpc_body
  rpc_body-Shrinks flag body s = elim (rpc_body-state flag body s) [
    | inl e ↦ rw e (same-Shrinks s)
    | inr (rsp, e) ↦ rw e (to_waiter-Shrinks rsp s)
  ]

  pub receive-Shrinks : (bytes : Bytes) (s : ServiceRpc) → Shrinks s (rpc_unmarshal rt s bytes).2
  receive-Shrinks bytes s = elim (rpc_unmarshal-state bytes s) [
    | inl e ↦ rw e (same-Shrinks s)
    | inr (flag, body, e) ↦ rw e (rpc_body-Shrinks flag body s)
  ]

  pub handle_message-Shrinks :
      (sess : ℕ) (msg : Received) (s : ServiceRpc) → Shrinks s (handle_message rt sess msg s).1
  handle_message-Shrinks sess msg s = elim (handle_message-state sess msg s) [
    | inl e ↦ rw e (same-Shrinks s)
    | inr (rsp, e) ↦ rw e (handle_rpc_rsp-Shrinks rsp s)
  ]

  pub sync_response-Shrinks : (c : ℕ) (s : ServiceRpc) → Shrinks s (sync_response rt c s).1
  unfolding sync_response
  sync_response-Shrinks c s = elim (Option-cases (get ℕ_discrete c s.channels)) [
    | inl h ↦ rw (h, sync_response) (same-Shrinks s)
    | inr (none, h) ↦ rw (h, sync_response) (same-Shrinks s)
    | inr (some rsp, h) ↦
        rw (h, sync_response)
          (trans-Shrinks (channel-Shrinks c none s) (handle_rpc_rsp-Shrinks rsp _))
  ]

  pub loop-Shrinks : (now : ℕ) (s : ServiceRpc) → Shrinks s (loop now s).1
  unfolding loop
  loop-Shrinks now s = record {
    counter = refl;
    unique = sweep-Unique now s.rpc_requests;
    fewer = λ u k. sweep-fewer now k s.rpc_requests u;
    kept = λ c o h. (o, h);
  }
