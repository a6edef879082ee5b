-- ===== src/Service/Bounds.antt =====
-- The bounds of a service of stnet/service.go: each queue within its channel's length, and each message
-- for a thread that there is.
use gotools.Common.{
  ℕ, zero, suc, ◌+◌, ◌≤◌, ◌<◌, ◌≡◌, refl, ap, ◌∙◌, arith, List, [], ◌∷◌, ◌++◌, length, length-set,
  length-append, get_or, All, Bool, true, Option, none, some, dec_lt,
}
use gotools.Common.Places.{All-set, All-get_or}
use gotools.Service.{
  Session, SessionMessage, Service, ServiceImp, queue_cap, message_loop, message_thread, offer,
  offer_to, get_processor, request_message, push_request, stop_from, destroy, serve, system_message,
}

module _ {M E : Type 0} where
  -- A service of a server with so many threads.
  pub record IsValid (threads : ℕ) (s : Service M E) : Type 0 where
    pub count : length s.message_q ≡ threads
    pub own : s.thread_id < threads
    pub bounded : All (λ q. length q ≤ queue_cap) s.message_q

  -- The thread that is chosen for a message is one of the server's.
  pub get_processor-lt :
      (imp : ServiceImp M E) (threads : ℕ) (s : Service M E) (sess : Option Session) (msg_id : ℕ)
      (msg : Option M)
      → s.thread_id < threads
      → get_processor imp threads s sess msg_id msg < threads
  unfolding get_processor
  get_processor-lt imp threads s none msg_id msg own = ground arith
  get_processor-lt imp threads s (some ss) msg_id msg own = ground arith

  length-offer :
      (m : SessionMessage M E) (q : List (SessionMessage M E))
      → length q ≤ queue_cap
      → length (offer m q).0 ≤ queue_cap
  unfolding offer
  length-offer m q h = ground (arith, length-append q (m ∷ []))

  pub offer_to-IsValid :
      (threads th : ℕ) (m : SessionMessage M E) (s : Service M E)
      → IsValid threads s
      → IsValid threads (offer_to th m s).0
  unfolding offer_to
  offer_to-IsValid threads th m s v =
      let q = get_or s.message_q th [] in
      let fits = All-get_or (λ q. length q ≤ queue_cap) s.message_q th [] v.bounded (omega arith) in
      record {
        count = length-set s.message_q th (offer m q).0 ∙ v.count;
        own = v.own;
        bounded =
            All-set (λ q. length q ≤ queue_cap) s.message_q th (offer m q).0 v.bounded
              (length-offer m q fits);
      }

  message_loop-queue :
      (panics : SessionMessage M E → Bool) (rounds n : ℕ) (q : List (SessionMessage M E))
      → (message_loop panics rounds n q).taken ++ (message_loop panics rounds n q).queue ≡ q
  unfolding message_loop
  message_loop-queue panics zero n q = refl
  message_loop-queue panics (suc rounds) n [] = refl
  message_loop-queue panics (suc rounds) n (m ∷ q) =
      ground (arith, message_loop-queue panics rounds (n + 1) q)

  -- What a batch takes is the front of the queue, whether a call panics or not.
  pub message_thread-queue :
      (panics : SessionMessage M E → Bool) (q : List (SessionMessage M E))
      → (message_thread panics q).taken ++ (message_thread panics q).queue ≡ q
  unfolding message_thread
  message_thread-queue panics q = message_loop-queue panics 1024 0 q

  pub serve-IsValid :
      (panics : SessionMessage M E → Bool) (threads th : ℕ) (s : Service M E)
      → IsValid threads s
      → IsValid threads (serve panics th s).0
  unfolding serve
  serve-IsValid panics threads th s v =
      let q = get_or s.message_q th [] in
      let b = message_thread panics q in
      let fits = All-get_or (λ q. length q ≤ queue_cap) s.message_q th [] v.bounded (omega arith) in
      let less : length b.queue ≤ queue_cap = omega (
        arith,
        length-append b.taken b.queue,
        ap (λ (l : List (SessionMessage M E)). length l) (message_thread-queue panics q),
      ) in
      record {
        count = length-set s.message_q th b.queue ∙ v.count;
        own = v.own;
        bounded = All-set (λ q. length q ≤ queue_cap) s.message_q th b.queue v.bounded less;
      }

  pub push_request-offer_to :
      (imp : ServiceImp M E) (threads : ℕ) (sess : Option Session) (msg_id : ℕ) (msg : Option M)
      (s : Service M E) (signals : List Bool)
      → let th = get_processor imp threads s sess msg_id msg in
        let r = push_request imp threads sess msg_id msg (s, signals) in
        (r.0.0 ≡ (offer_to th (request_message sess msg_id msg) s).0)
        × (length r.0.1 ≡ length signals)
  unfolding push_request offer_to offer
  push_request-offer_to imp threads sess msg_id msg s signals =
      let th = get_processor imp threads s sess msg_id msg in
      elim (dec_lt (length (get_or s.message_q th [])) queue_cap) [
        | yes room ↦ (ground arith, ground (arith, length-set signals th true))
        | no full ↦ (ground arith, ground arith)
      ]

  stop_from-IsValid :
      (threads left th : ℕ) (s : Service M E)
      → IsValid threads s
      → IsValid threads (stop_from left th s)
  unfolding stop_from
  stop_from-IsValid threads zero th s v = v
  stop_from-IsValid threads (suc left) th s v =
      stop_from-IsValid threads left (th + 1) (offer_to th system_message s).0
        (offer_to-IsValid threads th system_message s v)

  pub destroy-IsValid :
      (threads n : ℕ) (s : Service M E) → IsValid threads s → IsValid threads (destroy n s)
  unfolding destroy
  destroy-IsValid threads n s v = stop_from-IsValid threads n 0 s v
