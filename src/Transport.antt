-- ===== src/Transport.antt =====
-- stnet/session.go: what a session sends and receives. A channel is the list of what is in it, with
-- its capacity; a nil channel is one that is never closed. The socket is a parameter: `Accepts`
-- says how many bytes a Write takes and whether it fails, after the bytes that the socket has
-- taken.
use gotools.Common.{
  ℕ, zero, suc, ◌+◌, ◌*◌, ◌/◌, ◌%◌, ◌^◌, List, [], ◌∷◌, ◌++◌, ltb, ◌==◌, length, take, drop, Bool,
  true, false, ◌&&◌, ◌||◌, not, if◌then◌else◌, Option, none, some, ◌⊎◌, inl, inr,
}
pub mod Written
pub mod Sent
pub mod Order
pub mod Received
pub mod EndToEnd
pub mod Connect
pub mod Reconnect
mod Tests

pub data NetError : Type 0 where
  err_socket_closed err_socket_is_open err_send_buff_is_full err_msg_parse_nil : NetError

pub record RsData : Type 0 where
  pub bytes : List ℕ
  pub peer : Option ℕ

-- The variables of the package that sessions share.
pub record Globals : Type 0 where
  pub writer_list_len : ℕ
  pub recv_list_len : ℕ
  pub global_session_id : ℕ

abbrev pub globals : Globals
globals = record { writer_list_len = 256; recv_list_len = 256; global_session_id = 0 }

pub record Session : Type 0 where
  pub id : ℕ
  pub writer : List RsData
  pub writer_cap : ℕ
  pub hander : List RsData
  pub hander_cap : ℕ
  pub closer : Bool
  pub is_close : Bool
  pub heartbeat : ℕ
  pub has_conn : Bool
  pub is_udp : Bool

-- The lengths of the channels, which a session over UDP changes for all that come after it.
abbrev pub set_lens : Bool → Globals → Globals
set_lens true g = record g { writer_list_len = 10240; recv_list_len = 10240 }
set_lens false g = g

abbrev pub next_id : Globals → Globals
next_id g = record g { global_session_id = (g.global_session_id + 1) % 2 ^ 64 }

-- NewSession; `has_parser` is whether msgparse is not nil.
unfoldable pub new_session : Bool → ℕ → Bool → Globals → Globals × (NetError ⊎ Session)
new_session false heartbeat is_udp g = (g, inl err_msg_parse_nil)
new_session true heartbeat is_udp g =
    let g' = next_id (set_lens is_udp g) in
    (
      g',
      inr (record {
        id = g'.global_session_id;
        writer = [];
        writer_cap = g'.writer_list_len;
        hander = [];
        hander_cap = g'.recv_list_len;
        closer = false;
        is_close = false;
        heartbeat = heartbeat;
        has_conn = false;
        is_udp = is_udp;
      }),
    )

-- newConnSession: it is closed until `restart`.
unfoldable pub new_conn_session : Bool → Bool → Globals → Globals × (NetError ⊎ Session)
new_conn_session false is_udp g = (g, inl err_msg_parse_nil)
new_conn_session true is_udp g =
    let g' = next_id (set_lens is_udp g) in
    (
      g',
      inr (record {
        id = g'.global_session_id;
        writer = [];
        writer_cap = g'.writer_list_len;
        hander = [];
        hander_cap = g'.recv_list_len;
        closer = false;
        is_close = true;
        heartbeat = 0;
        has_conn = true;
        is_udp = is_udp;
      }),
    )

-- restart: what waits to be sent is kept, what was received is dropped.
unfoldable pub restart : Globals → Session → NetError ⊎ Session
restart g s =
    if not s.is_close
    then inl err_socket_is_open
    else inr
        (record s { is_close = false; closer = false; hander = []; hander_cap = g.recv_list_len })

-- Send. When the session's closer is closed and its queue has room, Go takes either case of the
-- `select`; `pick` is whether it takes the closer.
unfoldable pub send : Bool → List ℕ → Option ℕ → Session → Session × Option NetError
send pick bytes peer s =
    let room = ltb (length s.writer) s.writer_cap in
    if s.closer && (pick || not room)
    then (s, some err_socket_closed)
    else if room
    then (record s { writer = s.writer ++ record { bytes = bytes; peer = peer } ∷ [] }, none)
    else (s, some err_send_buff_is_full)

-- The end of dorecv, which stops the other two.
unfoldable pub finish : Session → Session
finish s = record s { closer = true; is_close = true }

abbrev pub Accepts : Type 0
Accepts = List ℕ → List ℕ → ℕ × Bool

-- The loop of dosend that writes a message, from byte `n` on: what the socket has then, and whether a
-- Write failed. Without fuel there is no result.
unfoldable pub write_from : Accepts → ℕ → ℕ → List ℕ → List ℕ → Option (List ℕ × Bool)
write_from accepts zero n bytes out = none
write_from accepts (suc fuel) n bytes out =
    let r = accepts out (drop n bytes) in
    let out' = out ++ take r.0 (drop n bytes) in
    let next = write_from accepts fuel (n + r.0) bytes out' in
    if ltb n (length bytes) then (if r.1 then some (out', true) else next) else some (out, false)

-- A datagram, with the address that it is written to, if it is not the connected one.
abbrev pub datagram : Bool → RsData → Option ℕ × List ℕ
datagram true buf = (none, buf.bytes)
datagram false buf = (buf.peer, buf.bytes)

-- A session and its socket: the bytes or the datagrams that are written, whether dosend still runs, and
-- whether a Write failed, which closes the socket.
pub record Pipe : Type 0 where
  pub session : Session
  pub out : List ℕ
  pub datagrams : List (Option ℕ × List ℕ)
  pub sends : Bool
  pub failed : Bool

-- A round of dosend in which a message is taken from the queue.
unfoldable pub dosend : Accepts → List RsData → Pipe → Option Pipe
unfolding write_from
dosend accepts [] p = some p
dosend accepts (buf ∷ writer) p =
    let taken = record p.session { writer = writer } in
    if p.session.is_udp
    then some (record p {
      session = taken;
      datagrams = p.datagrams ++ datagram p.session.has_conn buf ∷ [];
    })
    else elim (write_from accepts (suc (length buf.bytes)) 0 buf.bytes p.out) [
      | none ↦ none
      | some (out, failed) ↦
          some (record p { session = taken; out = out; sends = not failed; failed = failed })
    ]

abbrev pub min_msg_size : ℕ
min_msg_size = 64

-- The buffer for the next Read of dorecv, after one of `n` bytes into a buffer of `size`.
unfoldable pub next_size : ℕ → ℕ → ℕ
next_size n size =
    if ltb min_msg_size size && ltb (n * 2) size
    then size / 2
    else if n == size
    then size * 2
    else size

-- A Read of a socket: so many bytes at most, or an error.
pub data Read : Type 0 where
  gives : ℕ → Read
  fails : Read

-- How dorecv stands: reading, returned, or in a panic, since it asks a nil error for its text.
pub data State : Type 0 where
  reading returned panicked : State

pub record Receiving : Type 0 where
  pub chunks : List (List ℕ)
  pub size : ℕ
  pub rest : List ℕ
  pub state : State

abbrev pub msg_buff_size : ℕ
msg_buff_size = 1024

-- The loop of dorecv on a stream of bytes (TCP), with the chunks that it hands over.
unfoldable pub dorecv : List Read → ℕ → List ℕ → Receiving
unfolding next_size
dorecv [] size stream = record { chunks = []; size = size; rest = stream; state = reading }
dorecv (fails ∷ reads) size stream = record {
  chunks = [];
  size = size;
  rest = stream;
  state = returned;
}
dorecv (gives k ∷ reads) size stream =
    let chunk = take k (take size stream) in
    let n = length chunk in
    let later = dorecv reads (next_size n size) (drop n stream) in
    if n == 0
    then record { chunks = []; size = size; rest = stream; state = panicked }
    else record later { chunks = chunk ∷ later.chunks }
