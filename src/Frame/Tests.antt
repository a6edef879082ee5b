-- ===== src/Frame/Tests.antt =====
-- Runs of the framing, and the theorems at concrete inputs.
use gotools.Common.{ℕ, ◌≡◌, ◌+◌, ◌%◌, ◌^◌, refl, arith, List, [], ◌∷◌, ◌++◌, false, length, some}
use gotools.Frame.{msg_len, encode_protocol, message, receive_all, last_message}
use gotools.Frame.Last.{last_message-one}
use gotools.Frame.Bytes.{msg_len-encode_protocol}
use gotools.Frame.Cut.{messages}
use gotools.Frame.Stream.{receive_all-stream, receive_all-encode_protocol}

abbrev body : List ℕ → List ℕ
body b = b

-- Two messages, in chunks that cut the first length and the second body.
abbrev chunks : List (List ℕ)
chunks = (0 ∷ 0 ∷ []) ∷ (0 ∷ 5 ∷ 7 ∷ 0 ∷ 0 ∷ 0 ∷ 6 ∷ 8 ∷ []) ∷ (9 ∷ []) ∷ []

abbrev bodies : List (List ℕ)
bodies = (7 ∷ []) ∷ (8 ∷ 9 ∷ []) ∷ []

chunks_run :
    receive_all body false chunks (record { temp_buf = []; closed = false; sent = [] })
    ≡ some (record {
      temp_buf = [];
      closed = false;
      sent = message (7 ∷ []) ∷ message (8 ∷ 9 ∷ []) ∷ [];
    })
unfolding receive_all
chunks_run = refl

receive_all-stream_example :
    receive_all body false chunks (record { temp_buf = []; closed = false; sent = [] })
    ≡ some (record { temp_buf = []; closed = false; sent = [] ++ messages body bodies })
receive_all-stream_example =
    receive_all-stream body chunks bodies false [] (omega arith, (omega arith, tt)) refl

abbrev two : List ℕ
two = 1 ∷ 2 ∷ []

msg_len-encode_protocol_example : msg_len (encode_protocol two) ≡ (length two + 4) % 2 ^ 16
msg_len-encode_protocol_example = msg_len-encode_protocol two (omega arith)

receive_all-encode_protocol_example :
    receive_all body false chunks (record { temp_buf = []; closed = false; sent = [] })
    ≡ some (record { temp_buf = []; closed = false; sent = [] ++ messages body bodies })
unfolding encode_protocol
receive_all-encode_protocol_example =
    receive_all-encode_protocol body chunks bodies false [] (omega arith, (omega arith, tt)) refl

-- Three messages are received when the session ends; two of them are lost.
last_message-one_example :
    last_message body
      ((0 ∷ 0 ∷ 0 ∷ 5 ∷ 7 ∷ 0 ∷ 0 ∷ 0 ∷ 5 ∷ 8 ∷ []) ∷ (0 ∷ 0 ∷ 0 ∷ 5 ∷ 9 ∷ []) ∷ [])
      (record { temp_buf = []; closed = false; sent = [] })
    ≡ record { temp_buf = []; closed = false; sent = [] ++ message (7 ∷ []) ∷ [] }
last_message-one_example =
    last_message-one body (7 ∷ []) (0 ∷ 0 ∷ 0 ∷ 5 ∷ 8 ∷ [])
      ((0 ∷ 0 ∷ 0 ∷ 5 ∷ 7 ∷ 0 ∷ 0 ∷ 0 ∷ 5 ∷ 8 ∷ []) ∷ (0 ∷ 0 ∷ 0 ∷ 5 ∷ 9 ∷ []) ∷ [])
      (record { temp_buf = []; closed = false; sent = [] }) (omega arith) refl
