-- ===== src/Frame/Stream.antt =====
-- A stream of frames, cut into chunks in any way, through dohand (stnet/session.go).
use gotools.Common.{
  ℕ, suc, ◌+◌, ◌^◌, ◌<◌, ◌≡◌, refl, sym, ap, ◌∙◌, arith, List, [], ◌∷◌, ◌++◌, length, length-append,
  append_assoc, append-nil, map, Bool, false, some,
}
use gotools.Frame.{encode_protocol, Message, message, Hand, receive, receive_all}
use gotools.Frame.Bytes.{frame, encode_protocol-frame}
use gotools.Frame.Cut.{stream, together, Small, messages, Waits, Cut, hand_loop-Cut, Waits-nil}

module _ {M : Type 0} (body : List ℕ → M) where
  Small-after : (before after : List (List ℕ)) → Small (before ++ after) → Small after
  Small-after [] after h = h
  Small-after (d ∷ before) after h = Small-after before after h.1

  messages-append :
      (before after : List (List ℕ))
      → messages body (before ++ after) ≡ messages body before ++ messages body after
  messages-append [] after = refl
  messages-append (d ∷ before) after = ap (λ l. message (body d) ∷ l) (messages-append before after)

  receive-Cut :
      (buf rest : List ℕ) (h : Hand M) (ds : List (List ℕ))
      → Small ds
      → h.temp_buf ++ (buf ++ rest) ≡ stream ds
      → Cut body (receive body false buf h) h ds rest
  unfolding receive
  receive-Cut buf rest h ds small e =
      let bytes = h.temp_buf ++ buf in
      hand_loop-Cut body (suc (length bytes)) bytes h ds rest (omega arith) small
        (append_assoc h.temp_buf buf rest ∙ e)

  receive_all-nil : (h : Hand M) → receive_all body false [] h ≡ some h
  unfolding receive_all
  receive_all-nil h = refl

  receive_all-step :
      (buf : List ℕ) (bufs : List (List ℕ)) (h h' : Hand M)
      → receive body false buf h ≡ some h'
      → receive_all body false (buf ∷ bufs) h ≡ receive_all body false bufs h'
  unfolding receive_all
  receive_all-step buf bufs h h' e = ground (arith, e)

  receive_all-Waits :
      (bufs : List (List ℕ)) (h : Hand M) (ds : List (List ℕ))
      → Small ds
      → h.temp_buf ++ together bufs ≡ stream ds
      → Waits body h.temp_buf ds
      → receive_all body false bufs h
        ≡ some (record { temp_buf = []; closed = h.closed; sent = h.sent ++ messages body ds })
  receive_all-Waits [] h [] small e waits =
      receive_all-nil h ∙ rw (append-nil h.sent) (ap (λ t. some (record h { temp_buf = t })) waits)
  receive_all-Waits [] h (d ∷ ds) small e waits =
      let l =
        sym (length-append h.temp_buf []) ∙ ap length e ∙ length-append (frame d) (stream ds) in
      absurd (omega arith)
  receive_all-Waits (buf ∷ bufs) h ds small e waits =
      let c = receive-Cut buf (together bufs) h ds small e in
      let rest =
        receive_all-Waits bufs c.next c.after
          (Small-after c.before c.after (rw (sym c.split) at small)) c.left c.waits in
      let all : (h.sent ++ messages body c.before) ++ messages body c.after
          ≡ h.sent ++ messages body ds =
        append_assoc h.sent (messages body c.before) (messages body c.after)
        ∙ ap (λ l. h.sent ++ l)
            (sym (messages-append c.before c.after) ∙ ap (messages body) c.split) in
      receive_all-step buf bufs h c.next c.runs
      ∙ rest
      ∙ ap
          (λ (cl : Bool).
            some
              (record { temp_buf = []; closed = cl; sent = c.next.sent ++ messages body c.after }))
          c.same
      ∙ ap (λ l. some (record { temp_buf = []; closed = h.closed; sent = l }))
          (ap (λ l. l ++ messages body c.after) c.handed ∙ all)

  -- Every chunking of a stream of frames, each below the limit of 2 MB, is handed on as the bodies of
  -- the frames in their order, each once; nothing is left over, and the socket stays as it was. The
  -- loop at `anthorMsg` ends for each chunk.
  pub receive_all-stream :
      (bufs : List (List ℕ)) (ds : List (List ℕ)) (closed : Bool) (sent : List (Message M))
      → Small ds
      → together bufs ≡ stream ds
      → receive_all body false bufs (record { temp_buf = []; closed = closed; sent = sent })
        ≡ some (record { temp_buf = []; closed = closed; sent = sent ++ messages body ds })
  receive_all-stream bufs ds closed sent small e =
      receive_all-Waits bufs (record { temp_buf = []; closed = closed; sent = sent }) ds small e
        (Waits-nil body ds)

  -- The bodies whose frames EncodeProtocol gets right.
  abbrev pub Short : List (List ℕ) → Type 0
  Short [] = Unit
  Short (d ∷ ds) = (length d + 4 < 2 ^ 16) × Short ds

  Short-Small : (ds : List (List ℕ)) → Short ds → Small ds
  Short-Small [] h = tt
  Short-Small (d ∷ ds) h = (omega arith, Short-Small ds h.1)

  stream-encode_protocol :
      (ds : List (List ℕ)) → Short ds → together (map encode_protocol ds) ≡ stream ds
  stream-encode_protocol [] h = refl
  stream-encode_protocol (d ∷ ds) h =
      rw (encode_protocol-frame d h.0, stream-encode_protocol ds h.1) refl

  -- What EncodeProtocol sends, for bodies whose frames are shorter than 2 ^ 16 bytes, arrives: however
  -- the bytes are cut into chunks, the receiver hands on the bodies in their order, each once, with
  -- nothing left over and the socket as it was.
  pub receive_all-encode_protocol :
      (bufs : List (List ℕ)) (ds : List (List ℕ)) (closed : Bool) (sent : List (Message M))
      → Short ds
      → together bufs ≡ together (map encode_protocol ds)
      → receive_all body false bufs (record { temp_buf = []; closed = closed; sent = sent })
        ≡ some (record { temp_buf = []; closed = closed; sent = sent ++ messages body ds })
  receive_all-encode_protocol bufs ds closed sent h e =
      receive_all-stream bufs ds closed sent (Short-Small ds h) (e ∙ stream-encode_protocol ds h)
