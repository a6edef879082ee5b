-- ===== src/Frame/Last.antt =====
-- The end of dohand (stnet/session.go), when the session's closer is closed.
use gotools.Common.{ℕ, ◌+◌, ◌<◌, ◌≡◌, ap, ◌∙◌, arith, List, [], ◌∷◌, ◌++◌, length, ltb, true}
use gotools.Frame.{message, Hand, unmarshal, max_msg_size, first_of, last_message}
use gotools.Frame.Bytes.{frame}
use gotools.Frame.Cut.{unmarshal-frame}

-- When the closer is chosen and the kept bytes with the first chunk that waits start with a whole
-- frame, below the limit of 2 MB, its body is handed on and nothing else: neither what follows it
-- there, nor the chunks behind.
pub last_message-one :
    {M : Type 0} (body : List ℕ → M) (d rest : List ℕ) (bufs : List (List ℕ)) (h : Hand M)
    → length d + 4 < max_msg_size
    → h.temp_buf ++ first_of bufs ≡ frame d ++ rest
    → last_message body bufs h ≡ record h { sent = h.sent ++ message (body d) ∷ [] }
unfolding last_message
last_message-one body d rest bufs h small e =
    let cut = ap (λ b. unmarshal body b) e ∙ unmarshal-frame body d rest small in
    let long : ltb 0 (length (h.temp_buf ++ first_of bufs)) ≡ true =
      ap (λ (b : List ℕ). ltb 0 (length b)) e ∙ ground arith in
    ground (arith, cut, long)
