-- ===== src/Transport/Order.antt =====
-- The order of what a session sends (stnet/session.go).
use gotools.Common.{
  ℕ, ◌≡◌, ◌⊎◌, refl, sym, ap, ◌∙◌, arith, List, [], ◌∷◌, ◌++◌, append_assoc, append-nil, ltb,
  length, Bool, true, false, ◌&&◌, ◌||◌, not, Option, none, some, Bool-cases, inl, inr,
}
use gotools.Frame.Cut.{together}
use gotools.Transport.{
  RsData, Session, NetError, err_socket_closed, err_send_buff_is_full, Accepts, Pipe, send, finish,
  dosend,
}
use gotools.Transport.Written.{Writes, write_from-ends}
use gotools.Transport.Sent.{
  Event, sends, writes, ends, stops, Log, note, bytes_of, step, run, InOrder, together-last,
  together-snoc, order-snoc, start,
}

-- Send refuses a message, and changes nothing, or puts it at the end of the queue.
send-takes :
    (pick : Bool) (bytes : List ℕ) (peer : Option ℕ) (s : Session)
    → ((e : NetError) × (send pick bytes peer s ≡ (s, some e)))
      ⊎ (send pick bytes peer s
          ≡ (record s { writer = s.writer ++ record { bytes = bytes; peer = peer } ∷ [] }, none))
unfolding send
send-takes pick bytes peer s =
    elim (Bool-cases (s.closer && (pick || not (ltb (length s.writer) s.writer_cap)))) [
      | inl closed ↦ inl (err_socket_closed, ground (arith, closed))
      | inr goes ↦ elim (Bool-cases (ltb (length s.writer) s.writer_cap)) [
        | inl room ↦ inr (ground (arith, goes, room))
        | inr full ↦ inl (err_send_buff_is_full, ground (arith, goes, full))
      ]
    ]

record Goes (result : Option Log) : Type 0 where
  next : Log
  runs : result ≡ some next
  order : InOrder next

module _ (accepts : Accepts) (w : Writes accepts) where
  sends-Goes :
      (pick : Bool) (bytes : List ℕ) (peer : Option ℕ) (l : Log)
      → InOrder l
      → Goes (step accepts (sends pick bytes peer) l)
  unfolding step
  sends-Goes pick bytes peer l h = elim (send-takes pick bytes peer l.pipe.session) [
    | inl (e, refused) ↦ record {
      next = l;
      runs =
          ap
            (λ (r : Session × Option NetError).
              some
                (record { pipe = record l.pipe { session = r.0 }; sent = note bytes r.1 l.sent }))
            refused;
      order = h;
    }
    | inr taken ↦
        let r : RsData = record { bytes = bytes; peer = peer } in
        record {
          next = record {
            pipe = record l.pipe {
              session = record l.pipe.session { writer = l.pipe.session.writer ++ r ∷ [] };
            };
            sent = l.sent ++ bytes ∷ [];
          };
          runs =
              ap
                (λ (r : Session × Option NetError).
                  some (record {
                    pipe = record l.pipe { session = r.0 };
                    sent = note bytes r.1 l.sent;
                  }))
                taken;
          order = record {
            is_tcp = h.is_tcp;
            lost = h.lost;
            whole = h.whole;
            over = h.over;
            order =
                ap (λ t. l.pipe.out ++ h.lost ++ t) (together-snoc l.pipe.session.writer r)
                ∙ order-snoc l.pipe.out h.lost (together (bytes_of l.pipe.session.writer)) bytes
                    (together l.sent) h.order
                ∙ sym (together-last l.sent bytes);
          };
        }
  ]

  -- A round of dosend on a running pipe.
  dosend-order :
      (q : List RsData) (p : Pipe) (sent : List (List ℕ))
      → p.session.writer ≡ q
      → p.session.is_udp ≡ false
      → p.failed ≡ false
      → p.out ++ together (bytes_of q) ≡ together sent
      → (n : Pipe) × (dosend accepts q p ≡ some n) × InOrder (record { pipe = n; sent = sent })
  unfolding dosend
  dosend-order [] p sent e tcp ok h = (
    p,
    refl,
    record {
      is_tcp = tcp;
      lost = [];
      whole = λ e. refl;
      over = λ b. absurd (ground (arith, ok, b));
      order = rw (e) (append-nil (p.out ++ []) ∙ h);
    },
  )
  dosend-order (buf ∷ q) p sent e tcp ok h =
      let wrote = write_from-ends accepts w buf.bytes p.out in
      (
        record p {
          session = record p.session { writer = q };
          out = p.out ++ wrote.written;
          sends = not wrote.failed;
          failed = wrote.failed;
        },
        ground (arith, tcp, wrote.ends),
        record {
          is_tcp = tcp;
          lost = wrote.lost;
          whole = wrote.whole;
          over = λ b. rw (b) refl;
          order =
              ap (λ t. t ++ together (bytes_of q))
                (append_assoc p.out wrote.written wrote.lost ∙ ap (λ t. p.out ++ t) wrote.parts)
              ∙ append_assoc p.out buf.bytes (together (bytes_of q))
              ∙ h;
        },
      )

  not_failed : (l : Log) → InOrder l → l.pipe.sends ≡ true → l.pipe.failed ≡ false
  not_failed l h on = elim (Bool-cases l.pipe.failed) [
    | inl bad ↦ absurd (ground (arith, h.over bad, on))
    | inr ok ↦ ok
  ]

  writes-Goes : (l : Log) → InOrder l → Goes (step accepts writes l)
  unfolding step
  writes-Goes l h = elim (Bool-cases l.pipe.sends) [
    | inr off ↦ record { next = l; runs = ground (arith, off); order = h }
    | inl on ↦
        let ok : l.pipe.failed ≡ false = not_failed l h on in
        let e =
          ap (λ t. t ++ together (bytes_of l.pipe.session.writer))
            (sym (append-nil l.pipe.out) ∙ ap (λ t. l.pipe.out ++ t) (sym (h.whole ok))) in
        let (n, runs, order) =
          dosend-order l.pipe.session.writer l.pipe l.sent refl h.is_tcp ok (e ∙ h.order) in
        record { next = record l { pipe = n }; runs = ground (arith, on, runs); order = order }
  ]

  step-Goes : (e : Event) (l : Log) → InOrder l → Goes (step accepts e l)
  unfolding step finish
  step-Goes (sends pick bytes peer) l h = sends-Goes pick bytes peer l h
  step-Goes writes l h = writes-Goes l h
  step-Goes ends l h = record {
    next = _;
    runs = refl;
    order = record {
      is_tcp = h.is_tcp;
      lost = h.lost;
      order = h.order;
      whole = h.whole;
      over = h.over;
    };
  }
  step-Goes stops l h = record {
    next = _;
    runs = refl;
    order = record {
      is_tcp = h.is_tcp;
      lost = h.lost;
      order = h.order;
      whole = h.whole;
      over = λ b. rw (h.over b) refl;
    };
  }

  run-Goes : (es : List Event) (l : Log) → InOrder l → Goes (run accepts es l)
  unfolding run
  run-Goes [] l h = record { next = l; runs = refl; order = h }
  run-Goes (e ∷ es) l h =
      let g = step-Goes e l h in
      let rest = run-Goes es g.next g.order in
      record { next = rest.next; runs = ground (arith, g.runs, rest.runs); order = rest.order }

-- Through any calls of Send, rounds of dosend and the end of a session over TCP, with a socket that
-- keeps what a Write promises: no loop of dosend hangs, and what the socket has taken, then what is
-- lost, then what is in the queue is what Send has taken, in order. Nothing is lost unless a Write
-- has failed, and then dosend is over.
pub run-order :
    (accepts : Accepts) (s : Session) (es : List Event)
    → Writes accepts
    → s.is_udp ≡ false
    → (l : Log) × (run accepts es (start s) ≡ some l) × InOrder l
run-order accepts s es w tcp =
    let new : InOrder (start s) = record {
      is_tcp = tcp;
      lost = [];
      order = refl;
      whole = λ e. refl;
      over = λ b. absurd (ground (arith, b));
    } in
    let g = run-Goes accepts w es (start s) new in (g.next, g.runs, g.order)
