-- ===== src/Frame.antt =====
-- stnet/encode.go, the ends of stnet/rpc.go and stnet/simpleimp.go, and the receiving branch of
-- dohand in stnet/session.go: messages framed by their length, and the stream of bytes that is cut
-- into them.
use gotools.Common.{
  ℕ, zero, suc, ◌+◌, ◌-◌, ◌*◌, ◌/◌, ◌%◌, ◌^◌, ◌≤◌, ◌<◌, bit_or, List, [], ◌∷◌, ◌++◌, ltb, leb,
  length, take, drop, Bool, true, false, ◌||◌, if◌then◌else◌, Option, none, some,
}
pub mod Bytes
pub mod Cut
pub mod Stream
pub mod Last
mod Tests

-- MsgLen, over the first four bytes.
unfoldable pub msg_len : List ℕ → ℕ
msg_len (b0 ∷ b1 ∷ b2 ∷ b3 ∷ b) =
    bit_or (bit_or (bit_or b3 (b2 * 2 ^ 8)) (b1 * 2 ^ 16)) (b0 * 2 ^ 24)
msg_len b = 0

-- EncodeProtocol, of the message that Marshal returned.
unfoldable pub encode_protocol : List ℕ → List ℕ
encode_protocol bytes =
    let msglen = length bytes + 4 in
    (msglen / 2 ^ 24 % 256)
    ∷ (msglen / 2 ^ 18 % 256)
    ∷ (msglen / 2 ^ 8 % 256)
    ∷ (msglen % 256)
    ∷ bytes

-- The `encodeProtocol` of the calls: the first byte is kept free for the flags.
unfoldable pub rpc_encode_protocol : List ℕ → Option (List ℕ)
rpc_encode_protocol bytes =
    let msglen = length bytes + 4 in
    if ltb 0 (msglen / 2 ^ 24 % 256)
    then none
    else some (
        (msglen / 2 ^ 24 % 256)
        ∷ (msglen / 2 ^ 16 % 256)
        ∷ (msglen / 2 ^ 8 % 256)
        ∷ (msglen % 256)
        ∷ bytes)

abbrev pub max_msg_size : ℕ
max_msg_size = 2 * 1024 * 1024

-- What a service is given: an invalid length, or what the parser makes of a message's body.
pub data Message (M : Type 0) : Type 0 where
  invalid_length : ℕ → Message M
  message : M → Message M

-- Unmarshal of ServiceSpb and of ServiceJson: how many bytes are parsed, and what was in them.
-- `body` stands for the decoding of `data[4:msgLen]`.
unfoldable pub unmarshal : {M : Type 0} → (List ℕ → M) → List ℕ → ℕ × Option (Message M)
unfolding msg_len
unmarshal body bytes =
    if ltb (length bytes) 4
    then (0, none)
    else if ltb (msg_len bytes) 4 || leb max_msg_size (msg_len bytes)
    then (length bytes, some (invalid_length (msg_len bytes)))
    else if ltb (length bytes) (msg_len bytes)
    then (0, none)
    else (msg_len bytes, some (message (body (take (msg_len bytes - 4) (drop 4 bytes)))))

-- The services of the library never answer a negative length, so the branch that closes the socket
-- for one is left out. What ParseMsg does with a message behind this is in Service.
--
-- What dohand keeps: the bytes of a message that is not whole yet, whether it has closed the socket,
-- and the messages that it has handed on.
pub record Hand (M : Type 0) : Type 0 where
  pub temp_buf : List ℕ
  pub closed : Bool
  pub sent : List (Message M)

abbrev pub sent_of : {M : Type 0} → Option (Message M) → List (Message M)
sent_of none = []
sent_of (some m) = m ∷ []

-- The loop at `anthorMsg`. Every round but the last takes a byte at least of the buffer. `body` always
-- gives a result: a decoder that panics, with which dohand ends, is left out.
unfoldable pub hand_loop :
    {M : Type 0} → (List ℕ → M) → Bool → ℕ → List ℕ → Hand M → Option (Hand M)
unfolding unmarshal
hand_loop body is_udp zero buf h = none
hand_loop body is_udp (suc fuel) buf h =
    let n = (unmarshal body buf).0 in
    let h' = record h { sent = h.sent ++ sent_of (unmarshal body buf).1 } in
    let rest = hand_loop body is_udp fuel (drop n buf) h' in
    if leb (length buf) n
    then some (record h' { temp_buf = [] })
    else if ltb 0 n
    then rest
    else if is_udp
    then some h'
    else some (record h' { temp_buf = buf; closed = h.closed || ltb max_msg_size (length buf) })

-- `case buf := <-s.hander`
unfoldable pub receive : {M : Type 0} → (List ℕ → M) → Bool → List ℕ → Hand M → Option (Hand M)
unfolding hand_loop
receive body is_udp buf h =
    let bytes = h.temp_buf ++ buf in hand_loop body is_udp (suc (length bytes)) bytes h

-- The chunks that dorecv hands over, one after the other.
unfoldable pub receive_all :
    {M : Type 0} → (List ℕ → M) → Bool → List (List ℕ) → Hand M → Option (Hand M)
unfolding receive
receive_all body is_udp [] h = some h
receive_all body is_udp (buf ∷ bufs) h = elim (receive body is_udp buf h) [
  | none ↦ none
  | some h' ↦ receive_all body is_udp bufs h'
]

abbrev pub first_of : List (List ℕ) → List ℕ
first_of [] = []
first_of (buf ∷ bufs) = buf

-- `case <-s.closer`, with the chunks that are still in the channel: one of them is taken, and
-- ParseMsg is called once.
unfoldable pub last_message : {M : Type 0} → (List ℕ → M) → List (List ℕ) → Hand M → Hand M
unfolding unmarshal
last_message body bufs h =
    let bytes = h.temp_buf ++ first_of bufs in
    let h' = record h { sent = h.sent ++ sent_of (unmarshal body bytes).1 } in
    if ltb 0 (length bytes) then h' else h
