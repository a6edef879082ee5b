-- ===== src/Service/Fifo.antt =====
-- Runs of a service of stnet/service.go: pushes, received bytes, events of sessions, the stop, and the
-- turns of the threads, in any order.
use gotools.Common.{
  ℕ, ◌<◌, ◌≡◌, ◌≢◌, refl, arith, List, [], ◌∷◌, ◌++◌, append_assoc, append-nil, ◌==◌, length,
  get_or, Bool, false, if◌then◌else◌, Option, none, some, dec_lt, ℕ_discrete, replicate,
}
use gotools.Common.Places.{get_or-set, get_or-set_ne}
use gotools.Service.{
  Session, CmdType, payload, SessionMessage, Service, ServiceImp, queue_cap, Offered, accepted,
  dropped, waiting, handled, message_thread, offer, offer_to, get_processor, push_request,
  parse_msg, event_thread, event_message, request_message, session_event, serve, system_message,
}
use gotools.Service.Bounds.{message_thread-queue}

-- A service with its signals, and what has happened: the messages that went into a queue, and those
-- that threads took out, in order and each with its thread.
pub record Flow (M E : Type 0) : Type 0 where
  pub service : Service M E
  pub signals : List Bool
  pub sent : List (ℕ × SessionMessage M E)
  pub taken : List (ℕ × SessionMessage M E)

pub data Event (M : Type 0) : Type 0 where
  pushed : Option Session → ℕ → Option M → Event M
  parsed : Session → List ℕ → Event M
  noticed : Bool → Session → CmdType → Event M
  stopped : ℕ → Event M
  turn : ℕ → Event M

module _ {M E : Type 0} where
  -- The messages of a thread.
  abbrev pub at : ℕ → List (ℕ × SessionMessage M E) → List (SessionMessage M E)
  at th [] = []
  at th ((i, m) ∷ l) = if i == th then m ∷ at th l else at th l

  abbrev pub of_thread : ℕ → List (SessionMessage M E) → List (ℕ × SessionMessage M E)
  of_thread th [] = []
  of_thread th (m ∷ ms) = (th, m) ∷ of_thread th ms

  abbrev pub note :
      ℕ
      → SessionMessage M E
      → Offered
      → List (ℕ × SessionMessage M E)
      → List (ℕ × SessionMessage M E)
  note th m accepted log = log ++ (th, m) ∷ []
  note th m dropped log = log
  note th m waiting log = log
  note th m handled log = log

  abbrev pub note_parsed :
      ℕ
      → SessionMessage M E
      → Option Offered
      → List (ℕ × SessionMessage M E)
      → List (ℕ × SessionMessage M E)
  note_parsed th m none log = log
  note_parsed th m (some o) log = note th m o log

  abbrev pub parsed_message : ServiceImp M E → Session → List ℕ → SessionMessage M E
  parsed_message imp sess bytes =
      let p = imp.unmarshal sess bytes in
      record {
        sess = some sess;
        dt_type = payload;
        msg_id = p.msg_id;
        msg = p.msg;
        err = p.err;
        peer = some sess.peer;
      }

module _ {M E : Type 0} (imp : ServiceImp M E) (threads : ℕ)
    (panics : SessionMessage M E → Bool) where
  unfoldable pub step : Event M → Flow M E → Flow M E
  unfolding push_request parse_msg session_event offer_to serve
  step (pushed sess msg_id msg) f =
      let r = push_request imp threads sess msg_id msg (f.service, f.signals) in
      let th = get_processor imp threads f.service sess msg_id msg in
      record f {
        service = r.0.0;
        signals = r.0.1;
        sent = note th (request_message sess msg_id msg) r.1 f.sent;
      }
  step (parsed sess bytes) f =
      let r = parse_msg imp threads sess bytes (f.service, f.signals) in
      let p = imp.unmarshal sess bytes in
      let th = get_processor imp threads f.service (some sess) p.msg_id p.msg in
      record f {
        service = r.0.0;
        signals = r.0.1;
        sent = note_parsed th (parsed_message imp sess bytes) r.2 f.sent;
      }
  step (noticed timed_out sess cmd) f =
      let r = session_event imp threads timed_out sess cmd (f.service, f.signals) in
      let th = event_thread imp threads f.service sess cmd in
      record f {
        service = r.0.0;
        signals = r.0.1;
        sent = note th (event_message sess cmd) r.1 f.sent;
      }
  step (stopped th) f =
      let r = offer_to th system_message f.service in
      record f { service = r.0; sent = note th system_message r.1 f.sent }
  step (turn th) f =
      let r = serve panics th f.service in
      record f { service = r.0; taken = f.taken ++ of_thread th r.1.taken }

  unfoldable pub run : List (Event M) → Flow M E → Flow M E
  unfolding step
  run [] f = f
  run (e ∷ es) f = run es (step e f)

abbrev pub new_flow : {M E : Type 0} → List ℕ → ℕ → ℕ → Flow M E
new_flow name thread_id threads = record {
  service = record { name = name; thread_id = thread_id; message_q = replicate threads [] };
  signals = replicate threads false;
  sent = [];
  taken = [];
}

module _ {M E : Type 0} where
  at-append : (th : ℕ) (a b : List (ℕ × SessionMessage M E)) → at th (a ++ b) ≡ at th a ++ at th b
  at-append th [] b = refl
  at-append th ((i, m) ∷ a) b = ground (arith, at-append th a b)

  at-of_thread_self : (th : ℕ) (ms : List (SessionMessage M E)) → at th (of_thread th ms) ≡ ms
  at-of_thread_self th [] = refl
  at-of_thread_self th (m ∷ ms) = ground (arith, at-of_thread_self th ms)

  at-of_thread_ne :
      (th i : ℕ) (ms : List (SessionMessage M E)) → i ≢ th → at th (of_thread i ms) ≡ []
  at-of_thread_ne th i [] h = refl
  at-of_thread_ne th i (m ∷ ms) h = ground (arith, at-of_thread_ne th i ms)

  -- What went in for a thread is what it took out and what it still has, in order.
  abbrev pub InOrder : ℕ → Flow M E → Type 0
  InOrder th f = at th f.taken ++ get_or f.service.message_q th [] ≡ at th f.sent

  pub offer_to-InOrder :
      (th i : ℕ) (m : SessionMessage M E) (f : Flow M E)
      → i < length f.service.message_q
      → InOrder th f
      → InOrder th (record f {
        service = (offer_to i m f.service).0;
        sent = note i m (offer_to i m f.service).1 f.sent;
      })
  unfolding offer_to offer
  offer_to-InOrder th i m f there h =
      let q = get_or f.service.message_q i [] in
      let mq = f.service.message_q in
      elim (ℕ_discrete i th) [
        | yes same ↦ elim (dec_lt (length q) queue_cap) [
          | yes room ↦
              let new = get_or-set mq i (q ++ m ∷ []) [] there in
              let log = at-append th f.sent ((i, m) ∷ []) in
              ground (arith, same, room, new, log, h, append_assoc (at th f.taken) q (m ∷ []))
          | no full ↦ let new = get_or-set mq i q [] there in ground (arith, same, full, new, h)
        ]
        | no other ↦ elim (dec_lt (length q) queue_cap) [
          | yes room ↦
              let new = get_or-set_ne mq i th (q ++ m ∷ []) [] other in
              let log = at-append th f.sent ((i, m) ∷ []) in
              ground (arith, other, room, new, log, h, append-nil (at th f.sent))
          | no full ↦
              let new = get_or-set_ne mq i th q [] other in ground (arith, other, full, new, h)
        ]
      ]

  pub serve-InOrder :
      (panics : SessionMessage M E → Bool) (th i : ℕ) (f : Flow M E)
      → i < length f.service.message_q
      → InOrder th f
      → InOrder th (record f {
        service = (serve panics i f.service).0;
        taken = f.taken ++ of_thread i (serve panics i f.service).1.taken;
      })
  unfolding serve
  serve-InOrder panics th i f there h =
      let q = get_or f.service.message_q i [] in
      let mq = f.service.message_q in
      let b = message_thread panics q in
      let front = message_thread-queue panics q in
      let log = at-append th f.taken (of_thread i b.taken) in
      elim (ℕ_discrete i th) [
        | yes same ↦ ground (
          arith,
          same,
          log,
          at-of_thread_self th b.taken,
          get_or-set mq i b.queue [] there,
          append_assoc (at th f.taken) b.taken b.queue,
          front,
          h,
        )
        | no other ↦ ground (
          arith,
          log,
          at-of_thread_ne th i b.taken other,
          get_or-set_ne mq i th b.queue [] other,
          append-nil (at th f.taken),
          h,
        )
      ]
