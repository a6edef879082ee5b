-- ===== src/Transport/EndToEnd.antt =====
-- From Send on one side to the service of the other (stnet/session.go, stnet/encode.go).
use gotools.Common.{
  ℕ, ◌≡◌, sym, ap, ◌∙◌, List, [], ◌++◌, append-nil, map, false, Option, none, some,
}
use mathlib.Core.Path.{subst}
use gotools.Frame.{encode_protocol, receive_all}
use gotools.Frame.Cut.{together, messages}
use gotools.Frame.Stream.{Short, receive_all-encode_protocol}
use gotools.Transport.{Session, Accepts, Read, msg_buff_size, dorecv}
use gotools.Transport.Written.{Writes}
use gotools.Transport.Sent.{Event, Log, InOrder, start, run, bytes_of}
use gotools.Transport.Order.{run-order}
use gotools.Transport.Received.{dorecv-stream}

abbrev log_of : Log → Option Log → Log
log_of d none = d
log_of d (some l) = l

same_log : (r : Option Log) (l m : Log) → r ≡ some l → r ≡ some m → l ≡ m
same_log r l m h k = ap (log_of l) (sym h ∙ k)

-- What the socket has taken when the queue is empty and no Write has failed.
out-sent :
    (l : Log)
    → InOrder l
    → l.pipe.failed ≡ false
    → l.pipe.session.writer ≡ []
    → l.pipe.out ≡ together l.sent
out-sent l h ok e =
    sym (append-nil l.pipe.out)
    ∙ ap (λ t. l.pipe.out ++ t) (sym (h.whole ok))
    ∙ sym (append-nil (l.pipe.out ++ h.lost))
    ∙ ap (λ q. (l.pipe.out ++ h.lost) ++ together (bytes_of q)) (sym e)
    ∙ h.order

-- If Send has taken just what EncodeProtocol makes of some bodies, each frame below 2 ^ 16 bytes, if no
-- Write has failed and the queue is empty, and if the other side has read all of it: then however Send
-- and dosend took turns, however much each Write took and each Read gave, the other side's dohand hands
-- on the bodies in their order, each once, and has nothing left over.
pub delivers :
    {M : Type 0} (body : List ℕ → M) (accepts : Accepts) (s : Session) (es : List Event) (l : Log)
    (reads : List Read) (ds : List (List ℕ))
    → Writes accepts
    → s.is_udp ≡ false
    → run accepts es (start s) ≡ some l
    → l.sent ≡ map encode_protocol ds
    → Short body ds
    → l.pipe.failed ≡ false
    → l.pipe.session.writer ≡ []
    → (dorecv reads msg_buff_size l.pipe.out).rest ≡ []
    → receive_all body false
        (dorecv reads msg_buff_size l.pipe.out).chunks
        (record { temp_buf = []; closed = false; sent = [] })
      ≡ some (record { temp_buf = []; closed = false; sent = messages body ds })
delivers body accepts s es l reads ds w tcp runs sent short ok empty read =
    let (m, runs', order') = run-order accepts s es w tcp in
    let order : InOrder l =
      subst (λ n. InOrder n) (same_log (run accepts es (start s)) m l runs' runs) order' in
    let r = dorecv-stream reads l.pipe.out in
    let chunks = (dorecv reads msg_buff_size l.pipe.out).chunks in
    let all : together chunks ≡ together (map encode_protocol ds) =
      sym (append-nil (together chunks))
      ∙ ap (λ t. together chunks ++ t) (sym read)
      ∙ r.all
      ∙ out-sent l order ok empty
      ∙ ap together sent in
    receive_all-encode_protocol body chunks ds false [] short all
