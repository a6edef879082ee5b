-- ===== src/Service/Tests.antt =====
-- Runs of a service of stnet/service.go and of a thread of stnet/server.go, and the theorems at
-- concrete inputs.
use gotools.Common.{
  ℕ, zero, suc, ◌+◌, ◌*◌, ◌≡◌, refl, arith, List, [], ◌∷◌, length, Bool, true, false, none, some,
}
use gotools.Service.{
  Session, closed, SessionMessage, ServiceImp, message_loop, message_thread, offer, offer_to,
  get_processor, push_request, parse_msg, event_thread, offer_in_time, session_event, serve,
  request_message, handle_msg, handle_message,
}
use gotools.Service.Fifo.{
  Event, Flow, pushed, parsed, noticed, stopped, turn, step, run, new_flow, InOrder,
}
use gotools.Service.Runs.{run-InOrder}
use gotools.Service.Wake.{
  head, waits, quit, Worker, new_worker, go_on, advance, work, worked, queued, closes, signals,
  Steps, none_yet, then_step,
}
use gotools.Service.Wake.NoneLost.{EmptyBelow, waits-EmptyBelow}
use gotools.Service.Wake.Stops.{work-stops}
use gotools.Service.Wake.Moves.{total}
use gotools.Service.Wake.Drains.{work-EmptyBelow}

program : Unit {0}
unfolding message_loop message_thread offer offer_to get_processor push_request parse_msg
    event_thread offer_in_time session_event serve handle_msg step run go_on advance work
program = tt

-- A message of a number goes to the thread of its number; a message is one byte.
abbrev imp : ServiceImp ℕ ℕ
imp = record {
  hash_processor = λ sess msg_id msg. msg_id;
  unmarshal =
      λ sess bytes. record { len_parsed = length bytes; msg_id = 0; msg = some 9; err = none };
}

abbrev sess : Session
sess = record { id = 3; peer = 4 }

abbrev first_message : SessionMessage ℕ ℕ
first_message = request_message (some sess) 5 (some 7)

abbrev panics : SessionMessage ℕ ℕ → Bool
panics m = false

handled : handle_msg first_message ≡ some (handle_message (some sess) (some 4) 5 (some 7))
unfolding program
handled = refl

abbrev events : List (Event ℕ)
events =
    pushed (some sess) 5 (some 7)
    ∷ parsed sess (1 ∷ [])
    ∷ noticed false sess closed
    ∷ turn 1
    ∷ stopped 1
    ∷ []

abbrev after : Flow ℕ ℕ
after = run imp 2 panics events (new_flow [] 0 2)

after_queues :
    (length after.service.message_q ≡ 2) × (length after.sent ≡ 4) × (length after.taken ≡ 1)
unfolding program
after_queues = (refl, refl, refl)

run-InOrder_example : InOrder 1 after
run-InOrder_example =
    run-InOrder imp 2 panics [] 0 1 events (omega arith)
      (tt, (tt, (tt, (omega arith, (omega arith, tt)))))

abbrev at_work : Worker ℕ ℕ
at_work = record {
  queues = (first_message ∷ []) ∷ [] ∷ [];
  net_signal = true;
  in_flight = 0;
  is_close = false;
  place = head;
}

abbrev empty_queues : List (List (SessionMessage ℕ ℕ))
empty_queues = [] ∷ [] ∷ []

work_steps : (n : ℕ) (u v : Worker ℕ ℕ) → Steps panics u v → Steps panics u (work panics n v)
unfolding work
work_steps zero u v run = run
work_steps (suc n) u v run =
    work_steps n u (advance panics v) (then_step u v (advance panics v) run (worked v))

-- A message comes in and is signalled.
to_work : Steps panics (new_worker empty_queues) at_work
to_work =
    let queue = record (new_worker empty_queues) {
      queues = (first_message ∷ []) ∷ [] ∷ [];
      in_flight = 1;
    } in
    let new = new_worker empty_queues in
    then_step new queue at_work
      (then_step new new queue (none_yet new) (queued 0 first_message new)) (signals 0 queue refl)

abbrev asleep : Worker ℕ ℕ
asleep = record {
  queues = empty_queues;
  net_signal = false;
  in_flight = 0;
  is_close = false;
  place = waits;
}

falls_asleep : work panics 13 at_work ≡ asleep
unfolding program
falls_asleep = refl

to_sleep : Steps panics (new_worker empty_queues) asleep
to_sleep = rw⁻¹ (falls_asleep) (work_steps 13 (new_worker empty_queues) at_work to_work)

waits-EmptyBelow_example : (asleep.is_close ≡ false) × EmptyBelow 2 asleep.queues
waits-EmptyBelow_example =
    waits-EmptyBelow panics (λ m. refl) empty_queues asleep to_sleep refl refl

work-EmptyBelow_example :
    let v = work panics ((total at_work.queues + 3) * suc (length at_work.queues + 3)) at_work in
    (v.place ≡ waits) × (v.net_signal ≡ false) × EmptyBelow 2 v.queues
work-EmptyBelow_example = work-EmptyBelow panics (λ m. refl) empty_queues at_work to_work refl refl

abbrev told : Worker ℕ ℕ
told = record asleep { net_signal = true; is_close = true }

to_stop : Steps panics (new_worker empty_queues) told
to_stop =
    let owed = record asleep { in_flight = 1; is_close = true } in
    then_step (new_worker empty_queues) owed told
      (then_step (new_worker empty_queues) asleep owed to_sleep (closes asleep))
      (signals 0 owed refl)

work-stops_example : (work panics (length told.queues + 3) told).place ≡ quit
work-stops_example = work-stops panics empty_queues told to_stop refl refl

-- A call that panics: the thread waits, though a message is left and nobody will signal.
after_panic :
    work
      (λ m. true)
      4
      (record at_work { queues = (first_message ∷ first_message ∷ []) ∷ []; net_signal = false })
    ≡ record asleep { queues = (first_message ∷ []) ∷ [] }
unfolding program
after_panic = refl
