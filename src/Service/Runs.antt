-- ===== src/Service/Runs.antt =====
-- What holds in every run of a service of stnet/service.go.
use gotools.Common.{
  ℕ, ◌≤◌, ◌<◌, ◌≡◌, refl, sym, arith, List, [], ◌∷◌, ◌++◌, ◌==◌, length, get_or, Bool, ◌||◌, Option,
  none, some, dec_lt, length-replicate, Bool-cases, inl, inr,
}
use gotools.Common.Places.{All-replicate, get_or-replicate}
use gotools.Service.{
  Session, CmdType, payload, opened, closed, heart_beat, system, SessionMessage, Service,
  ServiceImp, queue_cap, offer, offer_to, get_processor, push_request, parse_msg, event_thread,
  event_message, request_message, session_event, offer_in_time, is_negative, serve, system_message,
}
use mathlib.Core.Path.{subst}
use gotools.Service.Fifo.{
  Flow, Event, pushed, parsed, noticed, stopped, turn, of_thread, note, parsed_message, step, run,
  new_flow, InOrder, offer_to-InOrder, serve-InOrder,
}
use gotools.Service.Bounds.{IsValid, get_processor-lt, offer_to-IsValid, serve-IsValid}

-- The thread of an event that names one is one of the server's.
abbrev pub HasThread : {M : Type 0} → ℕ → Event M → Type 0
HasThread threads (pushed sess msg_id msg) = Unit
HasThread threads (parsed sess bytes) = Unit
HasThread threads (noticed timed_out sess cmd) = Unit
HasThread threads (stopped th) = th < threads
HasThread threads (turn th) = th < threads

module _ {M E : Type 0} (imp : ServiceImp M E) (threads : ℕ)
    (panics : SessionMessage M E → Bool) where
  event_thread-lt :
      (s : Service M E) (sess : Session) (cmd : CmdType)
      → s.thread_id < threads
      → event_thread imp threads s sess cmd < threads
  unfolding event_thread
  event_thread-lt s sess payload own = get_processor-lt imp threads s (some sess) 0 none own
  event_thread-lt s sess opened own = own
  event_thread-lt s sess closed own = own
  event_thread-lt s sess heart_beat own = own
  event_thread-lt s sess system own = own

  -- What an event does: it offers a message to a thread of the server, changes nothing but signals, or
  -- is a thread's turn.
  data Change (f g : Flow M E) : Type 0 where
    offered :
        (i : ℕ) (m : SessionMessage M E)
        → i < threads
        → g.service ≡ (offer_to i m f.service).0
        → g.sent ≡ note i m (offer_to i m f.service).1 f.sent
        → g.taken ≡ f.taken
        → Change f g
    same : g.service ≡ f.service → g.sent ≡ f.sent → g.taken ≡ f.taken → Change f g
    served :
        (i : ℕ)
        → i < threads
        → g.service ≡ (serve panics i f.service).0
        → g.sent ≡ f.sent
        → g.taken ≡ f.taken ++ of_thread i (serve panics i f.service).1.taken
        → Change f g

  pushed-Change :
      (sess : Option Session) (msg_id : ℕ) (msg : Option M) (f : Flow M E)
      → f.service.thread_id < threads
      → Change f (step imp threads panics (pushed sess msg_id msg) f)
  unfolding step push_request offer_to offer
  pushed-Change sess msg_id msg f own =
      let th = get_processor imp threads f.service sess msg_id msg in
      let lt = get_processor-lt imp threads f.service sess msg_id msg own in
      let m : SessionMessage M E = request_message sess msg_id msg in
      elim (dec_lt (length (get_or f.service.message_q th [])) queue_cap) [
        | yes room ↦ offered th m lt (ground arith) (ground arith) refl
        | no full ↦ offered th m lt (ground arith) (ground arith) refl
      ]

  parsed-Change :
      (sess : Session) (bytes : List ℕ) (f : Flow M E)
      → f.service.thread_id < threads
      → Change f (step imp threads panics (parsed sess bytes) f)
  unfolding step parse_msg
  parsed-Change sess bytes f own =
      let p = imp.unmarshal sess bytes in
      let th = get_processor imp threads f.service (some sess) p.msg_id p.msg in
      let lt = get_processor-lt imp threads f.service (some sess) p.msg_id p.msg own in
      elim (Bool-cases (p.len_parsed == 0 || is_negative p.len_parsed || is_negative p.msg_id)) [
        | inl ignored ↦ same (ground (arith, ignored)) (ground (arith, ignored)) refl
        | inr read ↦
            offered th (parsed_message imp sess bytes) lt (ground (arith, read))
              (ground (arith, read)) refl
      ]

  offer_in_time-Change :
      (timed_out : Bool) (th : ℕ) (m : SessionMessage M E) (f : Flow M E)
      → th < threads
      → let r = offer_in_time timed_out th m (f.service, f.signals) in
        Change f (record f { service = r.0.0; signals = r.0.1; sent = note th m r.1 f.sent })
  unfolding offer_in_time offer_to offer
  offer_in_time-Change timed_out th m f lt =
      elim (dec_lt (length (get_or f.service.message_q th [])) queue_cap) [
        | yes room ↦ offered th m lt (ground arith) (ground arith) refl
        | no full ↦ elim (Bool-cases timed_out) [
          | inl over ↦ same (ground (arith, over)) (ground (arith, over)) refl
          | inr left ↦ same (ground (arith, left)) (ground (arith, left)) refl
        ]
      ]

  noticed-Change :
      (timed_out : Bool) (sess : Session) (cmd : CmdType) (f : Flow M E)
      → f.service.thread_id < threads
      → Change f (step imp threads panics (noticed timed_out sess cmd) f)
  unfolding step session_event
  noticed-Change timed_out sess opened f own = same refl refl refl
  noticed-Change timed_out sess payload f own =
      offer_in_time-Change timed_out (event_thread imp threads f.service sess payload)
        (event_message sess payload) f (event_thread-lt f.service sess payload own)
  noticed-Change timed_out sess closed f own =
      offer_in_time-Change timed_out (event_thread imp threads f.service sess closed)
        (event_message sess closed) f (event_thread-lt f.service sess closed own)
  noticed-Change timed_out sess heart_beat f own =
      offer_in_time-Change timed_out (event_thread imp threads f.service sess heart_beat)
        (event_message sess heart_beat) f (event_thread-lt f.service sess heart_beat own)
  noticed-Change timed_out sess system f own =
      offer_in_time-Change timed_out (event_thread imp threads f.service sess system)
        (event_message sess system) f (event_thread-lt f.service sess system own)

  step-Change :
      (e : Event M) (f : Flow M E)
      → f.service.thread_id < threads
      → HasThread threads e
      → Change f (step imp threads panics e f)
  unfolding step
  step-Change (pushed sess msg_id msg) f own h = pushed-Change sess msg_id msg f own
  step-Change (parsed sess bytes) f own h = parsed-Change sess bytes f own
  step-Change (noticed timed_out sess cmd) f own h = noticed-Change timed_out sess cmd f own
  step-Change (stopped th) f own h = offered th system_message h refl refl refl
  step-Change (turn th) f own h = served th h refl refl refl

  -- A change keeps the service within its bounds, and a thread's messages in order.
  Change-IsValid :
      (f g : Flow M E) → Change f g → IsValid threads f.service → IsValid threads g.service
  Change-IsValid f g (offered i m lt is_service is_sent is_taken) v =
      subst (λ s. IsValid threads s) (sym is_service) (offer_to-IsValid threads i m f.service v)
  Change-IsValid f g (same is_service is_sent is_taken) v =
      subst (λ s. IsValid threads s) (sym is_service) v
  Change-IsValid f g (served i lt is_service is_sent is_taken) v =
      subst (λ s. IsValid threads s) (sym is_service) (serve-IsValid panics threads i f.service v)

  Change-InOrder :
      (th : ℕ) (f g : Flow M E)
      → Change f g
      → IsValid threads f.service
      → InOrder th f
      → InOrder th g
  Change-InOrder th f g (offered i m lt is_service is_sent is_taken) v h =
      let next = offer_to-InOrder th i m f (omega (arith, v.count)) h in
      rw (is_service, is_sent, is_taken) next
  Change-InOrder th f g (same is_service is_sent is_taken) v h =
      rw (is_service, is_sent, is_taken) h
  Change-InOrder th f g (served i lt is_service is_sent is_taken) v h =
      let next = serve-InOrder panics th i f (omega (arith, v.count)) h in
      rw (is_service, is_sent, is_taken) next

  -- Each event has a thread of the server, where it names one.
  abbrev pub HaveThreads : List (Event M) → Type 0
  HaveThreads [] = Unit
  HaveThreads (e ∷ es) = HasThread threads e × HaveThreads es

  run-both :
      (th : ℕ) (es : List (Event M)) (f : Flow M E)
      → HaveThreads es
      → IsValid threads f.service
      → InOrder th f
      → IsValid threads (run imp threads panics es f).service
        × InOrder th (run imp threads panics es f)
  unfolding run
  run-both th [] f here v h = (v, h)
  run-both th (e ∷ es) f (here, later) v h =
      let c = step-Change e f v.own here in
      let g = step imp threads panics e f in
      run-both th es g later (Change-IsValid f g c v) (Change-InOrder th f g c v h)

  new_flow-IsValid :
      (name : List ℕ) (thread_id : ℕ)
      → thread_id < threads
      → IsValid threads (new_flow {M = M} {E = E} name thread_id threads).service
  new_flow-IsValid name thread_id own = record {
    count = length-replicate threads [];
    own = own;
    bounded =
        All-replicate (λ (q : List (SessionMessage M E)). length q ≤ queue_cap) threads []
          (omega arith);
  }

  -- From a new service on, through any pushes, received bytes, events, stops and turns of the server's
  -- threads, calls that panic included: what a thread took out, and then what its queue holds, is what
  -- went into its queue, in order.
  pub run-InOrder :
      (name : List ℕ) (thread_id th : ℕ) (es : List (Event M))
      → thread_id < threads
      → HaveThreads es
      → InOrder th (run imp threads panics es (new_flow name thread_id threads))
  run-InOrder name thread_id th es own here =
      let f : Flow M E = new_flow name thread_id threads in
      (run-both th es f here (new_flow-IsValid name thread_id own)
        (get_or-replicate threads th [])).1

  -- In every such run the service has a queue for each thread, each holds at most 10240 messages, and
  -- the service's own thread is one of the server's.
  run-IsValid :
      (name : List ℕ) (thread_id : ℕ) (es : List (Event M))
      → thread_id < threads
      → HaveThreads es
      → IsValid threads (run imp threads panics es (new_flow name thread_id threads)).service
  run-IsValid name thread_id es own here =
      let f : Flow M E = new_flow name thread_id threads in
      (run-both 0 es f here (new_flow-IsValid name thread_id own) (get_or-replicate threads 0 [])).0
