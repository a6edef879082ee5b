-- ===== src/Service/Wake.antt =====
-- A thread of stnet/server.go that has no services of its own: it polls its queue in every service, and
-- waits for a signal when it found no message.
use gotools.Common.{
  ℕ, zero, suc, ◌+◌, ◌≤◌, ◌<◌, ◌≡◌, refl, arith, List, [], ◌∷◌, ◌++◌, ltb, ◌==◌, length, set,
  get_or, Bool, true, false, ◌||◌, if◌then◌else◌,
}
use gotools.Service.{SessionMessage, message_thread}
pub mod NoneLost
pub mod Stops
pub mod Moves
pub mod Drains

-- Where a thread is: at the test of its loop, before a service, with the number of messages that it
-- has found since, at the wait for a signal, or over.
pub data Place : Type 0 where
  head waits quit : Place
  polls : ℕ → ℕ → Place

-- A thread with its queue in each service, and its signal; `in_flight` counts those who have put a
-- message into a queue, or closed the server, and have not yet signalled.
pub record Worker (M E : Type 0) : Type 0 where
  pub queues : List (List (SessionMessage M E))
  pub net_signal : Bool
  pub in_flight : ℕ
  pub is_close : Bool
  pub place : Place

abbrev pub new_worker : {M E : Type 0} → List (List (SessionMessage M E)) → Worker M E
new_worker queues = record {
  queues = queues;
  net_signal = false;
  in_flight = 0;
  is_close = false;
  place = head;
}

module _ {M E : Type 0} (panics : SessionMessage M E → Bool) where
  -- What the thread does next; at the wait without a signal it stays.
  unfoldable pub go_on : Place → Worker M E → Worker M E
  unfolding message_thread
  go_on head w = record w { place = if w.is_close then quit else polls 0 0 }
  go_on (polls i n) w =
      let b = message_thread panics (get_or w.queues i []) in
      if ltb i (length w.queues)
      then record w { queues = set w.queues i b.queue; place = polls (i + 1) (n + b.returned) }
      else record w { place = if n == 0 then waits else head }
  go_on waits w = if w.net_signal then record w { net_signal = false; place = head } else w
  go_on quit w = w

  unfoldable pub advance : Worker M E → Worker M E
  unfolding go_on
  advance w = go_on w.place w

  unfoldable pub work : ℕ → Worker M E → Worker M E
  unfolding advance
  work zero w = w
  work (suc n) w = work n (advance w)

  -- The steps of the thread and of the others: a message comes into its queue in a service, or
  -- is dropped as the queue is full, the server is closed, and one of those who did so signals.
  pub data Step : Worker M E → Worker M E → Type 0 where
    worked : (w : Worker M E) → Step w (advance w)
    queued :
        (i : ℕ) (m : SessionMessage M E) (w : Worker M E)
        → Step w (record w {
          queues = set w.queues i (get_or w.queues i [] ++ m ∷ []);
          in_flight = suc w.in_flight;
        })
    full : (w : Worker M E) → Step w (record w { in_flight = suc w.in_flight })
    closes : (w : Worker M E) → Step w (record w { is_close = true; in_flight = suc w.in_flight })
    signals :
        (left : ℕ) (w : Worker M E)
        → w.in_flight ≡ suc left
        → Step w (record w { net_signal = true; in_flight = left })

  pub data Steps : Worker M E → Worker M E → Type 0 where
    none_yet : (w : Worker M E) → Steps w w
    then_step : (u v w : Worker M E) → Steps u v → Step v w → Steps u w
