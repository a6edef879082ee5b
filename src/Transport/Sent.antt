-- ===== src/Transport/Sent.antt =====
-- What a session sends, through any calls of Send, rounds of dosend and the end of the session
-- (stnet/session.go).
use gotools.Common.{
  ℕ, ◌≡◌, refl, sym, ap, ◌∙◌, List, [], ◌∷◌, ◌++◌, append_assoc, append-nil, map, Bool, true, false,
  ◌&&◌, not, if◌then◌else◌, Option, none, some,
}
use gotools.Frame.Cut.{together}
use gotools.Transport.{RsData, Session, NetError, Accepts, Pipe, send, finish, dosend}

-- A call of Send, with the choice that Go makes; a message that dosend writes; the end of dorecv, and
-- dosend's own end, when it finds the closer closed.
pub data Event : Type 0 where
  sends : Bool → List ℕ → Option ℕ → Event
  writes ends stops : Event

-- A pipe, with the messages that Send has taken, which it answers with nil.
pub record Log : Type 0 where
  pub pipe : Pipe
  pub sent : List (List ℕ)

abbrev pub note : List ℕ → Option NetError → List (List ℕ) → List (List ℕ)
note bytes none log = log ++ bytes ∷ []
note bytes (some e) log = log

abbrev pub bytes_of : List RsData → List (List ℕ)
bytes_of l = map (λ r. r.bytes) l

module _ (accepts : Accepts) where
  -- Without a result for a message there is none for the run.
  unfoldable pub step : Event → Log → Option Log
  unfolding send dosend finish
  step (sends pick bytes peer) l =
      let r = send pick bytes peer l.pipe.session in
      some (record { pipe = record l.pipe { session = r.0 }; sent = note bytes r.1 l.sent })
  step writes l =
      let next = dosend accepts l.pipe.session.writer l.pipe in
      if l.pipe.sends
      then elim next [ none ↦ none | some p ↦ some (record l { pipe = p }) ]
      else some l
  step ends l = some (record l { pipe = record l.pipe { session = finish l.pipe.session } })
  step stops l =
      some (record l { pipe = record l.pipe { sends = l.pipe.sends && not l.pipe.session.closer } })

  unfoldable pub run : List Event → Log → Option Log
  unfolding step
  run [] l = some l
  run (e ∷ es) l = elim (step e l) [ none ↦ none | some m ↦ run es m ]

-- What the socket has taken is the messages sent, in order, but for those in the queue and, when a
-- Write has failed, a part that is lost.
pub record InOrder (l : Log) : Type 0 where
  pub is_tcp : l.pipe.session.is_udp ≡ false
  pub lost : List ℕ
  pub order : l.pipe.out ++ lost ++ together (bytes_of l.pipe.session.writer) ≡ together l.sent
  pub whole : l.pipe.failed ≡ false → lost ≡ []
  pub over : l.pipe.failed ≡ true → l.pipe.sends ≡ false

pub together-append : (a b : List (List ℕ)) → together (a ++ b) ≡ together a ++ together b
together-append [] b = refl
together-append (x ∷ a) b =
    ap (λ l. x ++ l) (together-append a b) ∙ sym (append_assoc x (together a) (together b))

pub bytes_of-snoc :
    (l : List RsData) (r : RsData) → bytes_of (l ++ r ∷ []) ≡ bytes_of l ++ r.bytes ∷ []
bytes_of-snoc [] r = refl
bytes_of-snoc (x ∷ l) r = ap (λ t. x.bytes ∷ t) (bytes_of-snoc l r)

pub together-last : (a : List (List ℕ)) (b : List ℕ) → together (a ++ b ∷ []) ≡ together a ++ b
together-last a b = together-append a (b ∷ []) ∙ ap (λ t. together a ++ t) (append-nil b)

pub together-snoc :
    (l : List RsData) (r : RsData)
    → together (bytes_of (l ++ r ∷ [])) ≡ together (bytes_of l) ++ r.bytes
together-snoc l r = ap together (bytes_of-snoc l r) ∙ together-last (bytes_of l) r.bytes

pub order-snoc : (o l q b s : List ℕ) → o ++ l ++ q ≡ s → o ++ l ++ (q ++ b) ≡ s ++ b
order-snoc o l q b s e = sym (append_assoc (o ++ l) q b) ∙ ap (λ t. t ++ b) e

abbrev pub new_pipe : Session → Pipe
new_pipe s = record { session = s; out = []; datagrams = []; sends = true; failed = false }

-- A session over TCP that starts on a new socket; what waits in its queue counts as sent.
abbrev pub start : Session → Log
start s = record { pipe = new_pipe s; sent = bytes_of s.writer }
