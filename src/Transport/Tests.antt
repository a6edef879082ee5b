-- ===== src/Transport/Tests.antt =====
-- Runs of stnet/session.go and stnet/connector.go, and the theorems at concrete inputs.
use gotools.Common.{
  ℕ, ◌≤◌, ◌<◌, ◌≡◌, refl, arith, List, [], ◌∷◌, length, map, true, false, none, some, inr,
}
use gotools.Frame.{encode_protocol, receive_all}
use gotools.Frame.Cut.{messages}
use gotools.Transport.{
  panicked, Session, globals, new_session, new_conn_session, restart, send, finish, Accepts,
  write_from, dosend, next_size, Read, gives, dorecv, msg_buff_size,
}
use gotools.Transport.Connect.{new_connector, next_count, try_once, connect}
use gotools.Transport.Written.{Writes, Wrote, write_from-ends}
use gotools.Transport.Sent.{Event, sends, writes, ends, Log, step, run, start, InOrder}
use gotools.Transport.Order.{run-order}
use gotools.Transport.Received.{Reads, dorecv-stream}
use gotools.Transport.EndToEnd.{delivers}
use gotools.Transport.Reconnect.{tries, waits_from, refusals, connect-tries}

program : Unit {0}
unfolding encode_protocol new_session new_conn_session restart send finish write_from dosend
    next_size dorecv next_count try_once connect step run
program = tt

-- A socket that takes two bytes at a time.
abbrev two_at_most : List ℕ → ℕ
two_at_most [] = 0
two_at_most (a ∷ []) = 1
two_at_most (a ∷ b ∷ l) = 2

abbrev slow : Accepts
slow out bytes = (two_at_most bytes, false)

two_at_most-fits : (l : List ℕ) → two_at_most l ≤ length l
two_at_most-fits [] = omega arith
two_at_most-fits (a ∷ []) = omega arith
two_at_most-fits (a ∷ b ∷ l) = omega arith

two_at_most-moves : (l : List ℕ) → 0 < length l → 0 < two_at_most l
two_at_most-moves [] h = h
two_at_most-moves (a ∷ []) h = omega arith
two_at_most-moves (a ∷ b ∷ l) h = omega arith

slow-Writes : Writes slow
slow-Writes = record {
  fits = λ out bytes. two_at_most-fits bytes;
  moves = λ out bytes some_left good. two_at_most-moves bytes some_left;
}

abbrev session : Session
session = record {
  id = 1;
  writer = [];
  writer_cap = 256;
  hander = [];
  hander_cap = 256;
  closer = false;
  is_close = false;
  heartbeat = 0;
  has_conn = false;
  is_udp = false;
}

is_new : (new_session true 0 false globals).1 ≡ inr session
unfolding program
is_new = refl

-- A session over UDP changes the lengths for the next one over TCP.
longer_queues :
    (new_session true 0 false (new_session true 0 true globals).0).1
    ≡ inr (record session { id = 2; writer_cap = 10240; hander_cap = 10240 })
unfolding program
longer_queues = refl

-- A Read of no bytes without an error ends in a panic.
read_of_none : (dorecv (gives 0 ∷ []) 1024 (1 ∷ [])).state ≡ panicked
unfolding program
read_of_none = refl

write_from-ends_example :
    Wrote (write_from slow 4 0 (1 ∷ 2 ∷ 3 ∷ []) (9 ∷ [])) (9 ∷ []) (1 ∷ 2 ∷ 3 ∷ [])
write_from-ends_example = write_from-ends slow slow-Writes (1 ∷ 2 ∷ 3 ∷ []) (9 ∷ [])

abbrev body : List ℕ
body = 7 ∷ 8 ∷ 9 ∷ []

abbrev events : List Event
events = sends false (encode_protocol body) none ∷ writes ∷ ends ∷ sends true body none ∷ []

run-order_example : (l : Log) × (run slow events (start session) ≡ some l) × InOrder l
run-order_example = run-order slow session events slow-Writes refl

abbrev frame_bytes : List ℕ
frame_bytes = 0 ∷ 0 ∷ 0 ∷ 7 ∷ body

abbrev done : Log
done = record {
  pipe = record {
    session = finish session;
    out = frame_bytes;
    datagrams = [];
    sends = true;
    failed = false;
  };
  sent = frame_bytes ∷ [];
}

reaches_done : run slow events (start session) ≡ some done
unfolding program
reaches_done = refl

all_sent : done.sent ≡ map encode_protocol (body ∷ [])
unfolding program
all_sent = refl

nothing_queued : done.pipe.session.writer ≡ []
unfolding program
nothing_queued = refl

abbrev reads : List Read
reads = gives 3 ∷ gives 100 ∷ []

all_read : (dorecv reads msg_buff_size done.pipe.out).rest ≡ []
unfolding program
all_read = refl

delivers_example :
    receive_all
      (λ b. b)
      false
      (dorecv reads msg_buff_size frame_bytes).chunks
      (record { temp_buf = []; closed = false; sent = [] })
    ≡ some (record { temp_buf = []; closed = false; sent = messages (λ b. b) (body ∷ []) })
delivers_example =
    delivers (λ b. b) slow session events done reads (body ∷ []) slow-Writes refl reaches_done
      all_sent (omega arith, tt) refl nothing_queued all_read

dorecv-stream_example : Reads 7 frame_bytes (dorecv reads msg_buff_size frame_bytes)
dorecv-stream_example = dorecv-stream reads frame_bytes

connect-tries_example :
    let c = connect (refusals 33) new_connector in
    (c.reconn_count ≡ tries 33) × (c.delays ≡ waits_from 0 33) × (c.over ≡ false)
connect-tries_example = connect-tries 33

twelve_again : (connect (refusals 33) new_connector).reconn_count ≡ 12
unfolding program
twelve_again = refl
