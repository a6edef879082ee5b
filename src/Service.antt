-- ===== src/Service.antt =====
-- stnet/service.go, and of stnet/session.go the kinds of events: a service has one queue of
-- messages for each thread of the server. An integer that the source takes as signed is its 64-bit
-- pattern. The implementation that the program gives is a parameter: it unmarshals, chooses a
-- thread, and is called back; what it is called with is the result.
use gotools.Common.{
  ℕ, zero, suc, ◌+◌, ◌-◌, ◌*◌, ◌%◌, ◌^◌, ◌≤◌, ◌<◌, List, [], ◌∷◌, ◌++◌, ltb, leb, ◌==◌, length, set,
  get_or, Bool, true, false, ◌||◌, not, if◌then◌else◌, Option, none, some,
}
pub mod Bounds
pub mod Fifo
pub mod Runs
pub mod Wake
mod Tests

-- A session as its service sees it.
pub record Session : Type 0 where
  pub id : ℕ
  pub peer : ℕ

-- CMDType: Data, Open, Close, HeartBeat and System.
pub data CmdType : Type 0 where
  payload opened closed heart_beat system : CmdType

pub record SessionMessage (M E : Type 0) : Type 0 where
  pub sess : Option Session
  pub dt_type : CmdType
  pub msg_id : ℕ
  pub msg : Option M
  pub err : Option E
  pub peer : Option ℕ

-- The call of the implementation that a message leads to.
pub data Call (M E : Type 0) : Type 0 where
  handle_error : Option Session → Option ℕ → E → Call M E
  session_open session_close heart_beat_time_out : Option Session → Call M E
  handle_message : Option Session → Option ℕ → ℕ → Option M → Call M E

-- The record that the service keeps for a thread's queue: its length is at most that of the channel.
abbrev pub queue_cap : ℕ
queue_cap = 10240

pub record Service (M E : Type 0) : Type 0 where
  pub name : List ℕ
  pub thread_id : ℕ
  pub message_q : List (List (SessionMessage M E))

-- What Unmarshal returns: the length that is parsed and the number, both signed, and the message.
pub record Parsed (M E : Type 0) : Type 0 where
  pub len_parsed : ℕ
  pub msg_id : ℕ
  pub msg : Option M
  pub err : Option E

-- The implementation: HashProcessor and Unmarshal, which may look at the session.
pub record ServiceImp (M E : Type 0) : Type 0 where
  pub hash_processor : Option Session → ℕ → Option M → ℕ
  pub unmarshal : Session → List ℕ → Parsed M E

abbrev pub is_negative : ℕ → Bool
is_negative p = leb (2 ^ 63) p

-- What comes of a message that is offered to a queue: it is in, it is dropped, the sender waits, or it
-- was handled at once.
pub data Offered : Type 0 where
  accepted dropped waiting handled : Offered

-- What messageThread has done: the queue, the messages it took out, and what it returns.
pub record Batch (M E : Type 0) : Type 0 where
  pub queue : List (SessionMessage M E)
  pub taken : List (SessionMessage M E)
  pub returned : ℕ

-- The signals that wake the threads: a channel of one place for each.
abbrev pub wake : ℕ → List Bool → List Bool
wake th signals = set signals th true

abbrev pub peer_of : Option Session → Option ℕ
peer_of none = none
peer_of (some ss) = some ss.peer

module _ {M E : Type 0} where
  -- handleMsg; a message of the kind System leads to no call.
  unfoldable pub handle_msg : SessionMessage M E → Option (Call M E)
  handle_msg m = elim m.err [
    | some e ↦ some (handle_error m.sess m.peer e)
    | none ↦ elim m.dt_type [
      | opened ↦ some (session_open m.sess)
      | closed ↦ some (session_close m.sess)
      | heart_beat ↦ some (heart_beat_time_out m.sess)
      | payload ↦ some (handle_message m.sess m.peer m.msg_id m.msg)
      | system ↦ none
    ]
  ]

  abbrev pub took : SessionMessage M E → Batch M E → Batch M E
  took m b = record b { taken = m ∷ b.taken }

  -- The loop of messageThread, with the rounds that are left and `n`. `panics` is whether the call that
  -- a message leads to panics: it is recovered, the loop ends, and the function returns 0.
  unfoldable pub message_loop :
      (SessionMessage M E → Bool) → ℕ → ℕ → List (SessionMessage M E) → Batch M E
  message_loop panics zero n q = record { queue = q; taken = []; returned = n }
  message_loop panics (suc rounds) n [] = record { queue = []; taken = []; returned = n }
  message_loop panics (suc rounds) n (m ∷ q) =
      let rest = message_loop panics rounds (n + 1) q in
      took m (if panics m then record { queue = q; taken = []; returned = 0 } else rest)

  unfoldable pub message_thread :
      (SessionMessage M E → Bool) → List (SessionMessage M E) → Batch M E
  unfolding message_loop
  message_thread panics q = message_loop panics 1024 0 q

  -- A send to a channel with a `default`.
  unfoldable pub offer :
      SessionMessage M E → List (SessionMessage M E) → List (SessionMessage M E) × Offered
  offer m q = if ltb (length q) queue_cap then (q ++ m ∷ [], accepted) else (q, dropped)

  -- The same to the queue of a thread.
  unfoldable pub offer_to : ℕ → SessionMessage M E → Service M E → Service M E × Offered
  unfolding offer
  offer_to th m s =
      let sent = offer m (get_or s.message_q th []) in
      (record s { message_q = set s.message_q th sent.0 }, sent.1)

  -- getProcessor: the thread of a message, among `threads`.
  unfoldable pub get_processor :
      ServiceImp M E → ℕ → Service M E → Option Session → ℕ → Option M → ℕ
  get_processor imp threads s sess msg_id msg =
      let th = imp.hash_processor sess msg_id msg in
      if is_negative th
      then elim sess [ some ss ↦ ss.id % threads | none ↦ s.thread_id ]
      else if th == 0
      then s.thread_id
      else th % threads

  abbrev pub request_message : Option Session → ℕ → Option M → SessionMessage M E
  request_message sess msg_id msg = record {
    sess = sess;
    dt_type = payload;
    msg_id = msg_id;
    msg = msg;
    err = none;
    peer = peer_of sess;
  }

  -- PushRequest: a full queue is an error, and wakes nobody.
  unfoldable pub push_request :
      ServiceImp M E
      → ℕ
      → Option Session
      → ℕ
      → Option M
      → Service M E × List Bool
      → (Service M E × List Bool) × Offered
  unfolding get_processor offer_to
  push_request imp threads sess msg_id msg (s, signals) =
      let th = get_processor imp threads s sess msg_id msg in
      let sent = offer_to th (request_message sess msg_id msg) s in
      elim sent.1 [
        | accepted ↦ ((sent.0, wake th signals), accepted)
        | other ↦ ((sent.0, signals), dropped)
      ]

  -- ParseMsg: what it returns is the length; a message behind a length that is not positive, or with a
  -- negative number, is ignored, and a message for a full queue is dropped, but wakes the thread.
  unfoldable pub parse_msg :
      ServiceImp M E
      → ℕ
      → Session
      → List ℕ
      → Service M E × List Bool
      → (Service M E × List Bool) × ℕ × Option Offered
  unfolding get_processor offer_to
  parse_msg imp threads sess bytes (s, signals) =
      let p = imp.unmarshal sess bytes in
      let th = get_processor imp threads s (some sess) p.msg_id p.msg in
      let m : SessionMessage M E = record {
        sess = some sess;
        dt_type = payload;
        msg_id = p.msg_id;
        msg = p.msg;
        err = p.err;
        peer = some sess.peer;
      } in
      let sent = offer_to th m s in
      if p.len_parsed == 0 || is_negative p.len_parsed || is_negative p.msg_id
      then ((s, signals), p.len_parsed, none)
      else ((sent.0, wake th signals), p.len_parsed, some sent.1)

  abbrev pub event_message : Session → CmdType → SessionMessage M E
  event_message sess cmd = record {
    sess = some sess;
    dt_type = cmd;
    msg_id = 0;
    msg = none;
    err = none;
    peer = some sess.peer;
  }

  unfoldable pub event_thread : ServiceImp M E → ℕ → Service M E → Session → CmdType → ℕ
  unfolding get_processor
  event_thread imp threads s sess payload = get_processor imp threads s (some sess) 0 none
  event_thread imp threads s sess cmd = s.thread_id

  -- The wait for room in a queue, which is over after 100 ms; `timed_out` is whether they are.
  unfoldable pub offer_in_time :
      Bool → ℕ → SessionMessage M E → Service M E × List Bool → (Service M E × List Bool) × Offered
  unfolding offer_to
  offer_in_time timed_out th m (s, signals) =
      let sent = offer_to th m s in
      elim sent.1 [
        | accepted ↦ ((sent.0, wake th signals), accepted)
        | other ↦ ((s, signals), if timed_out then dropped else waiting)
      ]

  -- sessionEvent. An Open is handled at once, by `handle_msg` of its message.
  unfoldable pub session_event :
      ServiceImp M E
      → ℕ
      → Bool
      → Session
      → CmdType
      → Service M E × List Bool
      → (Service M E × List Bool) × Offered
  unfolding event_thread offer_in_time
  session_event imp threads timed_out sess opened state = (state, handled)
  session_event imp threads timed_out sess cmd (s, signals) =
      offer_in_time timed_out (event_thread imp threads s sess cmd) (event_message sess cmd)
        (s, signals)

  -- destroy's loop, which offers each thread a message of the kind System.
  abbrev pub system_message : SessionMessage M E
  system_message = record {
    sess = none;
    dt_type = system;
    msg_id = 0;
    msg = none;
    err = none;
    peer = none;
  }

  unfoldable pub stop_from : ℕ → ℕ → Service M E → Service M E
  unfolding offer_to
  stop_from zero th s = s
  stop_from (suc left) th s = stop_from left (th + 1) (offer_to th system_message s).0

  unfoldable pub destroy : ℕ → Service M E → Service M E
  unfolding stop_from
  destroy threads s = stop_from threads 0 s

  -- The turn of thread `th` at the service.
  unfoldable pub serve : (SessionMessage M E → Bool) → ℕ → Service M E → Service M E × Batch M E
  unfolding message_thread
  serve panics th s =
      let b = message_thread panics (get_or s.message_q th []) in
      (record s { message_q = set s.message_q th b.queue }, b)
