-- ===== src/Service/Wake/NoneLost.antt =====
-- No signal is lost (stnet/server.go, the loop of a thread that has no services of its own).
use gotools.Common.{
  ℕ, zero, suc, ◌+◌, ◌≤◌, ◌<◌, ◌≡◌, ◌≢◌, refl, sym, ◌∙◌, arith, List, [], ◌∷◌, ltb, ◌==◌, length,
  set, get_or, Bool, true, false, ◌||◌, Bool-cases, inl, inr, dec_lt, ℕ_discrete,
}
use mathlib.Core.Path.{subst}
use gotools.Common.Places.{get_or-set, get_or-set_ne}
use gotools.Service.{SessionMessage, message_loop, message_thread}
use gotools.Service.Wake.{
  Place, head, waits, quit, polls, Worker, new_worker, go_on, advance, Step, worked, queued, full,
  closes, signals, Steps, none_yet, then_step,
}

module _ {M E : Type 0} where
  -- A signal is there, or on its way.
  abbrev pub pending : Worker M E → Bool
  pending w = w.net_signal || ltb 0 w.in_flight

  abbrev pub EmptyBelow : ℕ → List (List (SessionMessage M E)) → Type 0
  EmptyBelow n queues = (i : ℕ) → i < n → get_or queues i [] ≡ []

  -- What holds without a signal at a place.
  abbrev pub Quiet : Place → Worker M E → Type 0
  Quiet head w = Unit
  Quiet quit w = Unit
  Quiet waits w = (w.is_close ≡ false) × EmptyBelow (length w.queues) w.queues
  Quiet (polls i n) w = (w.is_close ≡ false) × (n ≡ 0 → EmptyBelow i w.queues)

  abbrev pub Safe : Worker M E → Type 0
  Safe w = pending w ≡ false → Quiet w.place w

module _ {M E : Type 0} (panics : SessionMessage M E → Bool)
    (calm : (m : SessionMessage M E) → panics m ≡ false) where
  message_loop-returned :
      (rounds n : ℕ) (q : List (SessionMessage M E)) → n ≤ (message_loop panics rounds n q).returned
  unfolding message_loop
  message_loop-returned zero n q = omega arith
  message_loop-returned (suc rounds) n [] = omega arith
  message_loop-returned (suc rounds) n (m ∷ q) =
      ground (arith, calm m, message_loop-returned rounds (n + 1) q)

  message_loop-nil : (rounds n : ℕ) → (message_loop panics (suc rounds) n []).queue ≡ []
  unfolding message_loop
  message_loop-nil rounds n = refl

  message_loop-some :
      (rounds : ℕ) (m : SessionMessage M E) (q : List (SessionMessage M E))
      → 0 < (message_loop panics (suc rounds) 0 (m ∷ q)).returned
  unfolding message_loop
  message_loop-some rounds m q = ground (arith, calm m, message_loop-returned rounds 1 q)

  -- A batch of no message has found none.
  message_thread-none :
      (q : List (SessionMessage M E))
      → (message_thread panics q).returned ≡ 0
      → (message_thread panics q).queue ≡ []
  unfolding message_thread
  message_thread-none [] h = message_loop-nil 1023 0
  message_thread-none (m ∷ q) h = absurd (omega (arith, message_loop-some 1023 m q))

  EmptyBelow-set :
      (i : ℕ) (queues : List (List (SessionMessage M E)))
      → i < length queues
      → EmptyBelow i queues
      → EmptyBelow (i + 1) (set queues i [])
  EmptyBelow-set i queues lt h j less = elim (ℕ_discrete i j) [
    | yes same ↦ rw (sym same) (get_or-set queues i [] [] lt)
    | no other ↦ get_or-set_ne queues i j [] [] other ∙ h j (omega arith)
  ]

  polls-Safe :
      (i n : ℕ) (w : Worker M E)
      → i < length w.queues
      → (pending w ≡ false → Quiet (polls i n) w)
      → Safe (go_on panics (polls i n) w)
  unfolding go_on
  polls-Safe i n w lt h =
      let b = message_thread panics (get_or w.queues i []) in
      let here : ltb i (length w.queues) ≡ true = ground arith in
      rw (here) (λ q. (
        (h q).0,
        λ e.
            let left = message_thread-none (get_or w.queues i []) (omega arith) in
            rw (left) (EmptyBelow-set i w.queues lt ((h q).1 (omega arith))),
      ))

  polled-Safe :
      (i n : ℕ) (w : Worker M E)
      → length w.queues ≤ i
      → (pending w ≡ false → Quiet (polls i n) w)
      → Safe (go_on panics (polls i n) w)
  unfolding go_on
  polled-Safe i zero w ge h =
      let over : ltb i (length w.queues) ≡ false = ground arith in
      rw (over) (λ q. ((h q).0, λ j less. (h q).1 refl j (omega arith)))
  polled-Safe i (suc n) w ge h =
      let over : ltb i (length w.queues) ≡ false = ground arith in
      let found : (suc n == 0) ≡ false = ground arith in rw (over, found) (λ q. tt)

  pub go_on-Safe : (p : Place) (w : Worker M E) → w.place ≡ p → Safe w → Safe (go_on panics p w)
  unfolding go_on
  go_on-Safe head w e h = elim (Bool-cases w.is_close) [
    | inl closed ↦ rw (closed) (λ q. tt)
    | inr still ↦ rw (still) (λ q. (refl, λ n i lt. absurd (omega arith)))
  ]
  go_on-Safe (polls i n) w e h =
      let quiet : pending w ≡ false → Quiet (polls i n) w =
        subst (λ p. pending w ≡ false → Quiet p w) e h in
      elim (dec_lt i (length w.queues)) [
        | yes lt ↦ polls-Safe i n w lt quiet
        | no ge ↦ polled-Safe i n w (omega arith) quiet
      ]
  go_on-Safe waits w e h = elim (Bool-cases w.net_signal) [
    | inl signalled ↦ rw (signalled) (λ q. tt)
    | inr unsignalled ↦
        let stays : go_on panics waits w ≡ w = ground (arith, unsignalled) in
        subst (λ v. Safe v) (sym stays) h
  ]
  go_on-Safe quit w e h = h

  pending-in_flight : (b : Bool) (n : ℕ) → b || ltb 0 (suc n) ≢ false
  pending-in_flight true n e = absurd (ground (arith, e))
  pending-in_flight false n e = absurd (ground (arith, e))

  Step-Safe : (v w : Worker M E) → Step panics v w → Safe v → Safe w
  unfolding advance
  Step-Safe _ _ (worked w) h q = go_on-Safe w.place w refl h q
  Step-Safe _ _ (queued i m w) h q = absurd (pending-in_flight w.net_signal w.in_flight q)
  Step-Safe _ _ (full w) h q = absurd (pending-in_flight w.net_signal w.in_flight q)
  Step-Safe _ _ (closes w) h q = absurd (pending-in_flight w.net_signal w.in_flight q)
  Step-Safe _ _ (signals left w e) h q = absurd (ground (arith, q))

  pub Steps-Safe : (v w : Worker M E) → Steps panics v w → Safe v → Safe w
  Steps-Safe _ _ (none_yet w) h = h
  Steps-Safe _ _ (then_step u v w run step) h = Step-Safe v w step (Steps-Safe u v run h)

  -- If no call panics: in each run of a thread, its producers and the stop, a thread that waits
  -- while no signal is there and none is on its way has an empty queue in every service, and the
  -- server is not closed.
  pub waits-EmptyBelow :
      (queues : List (List (SessionMessage M E))) (w : Worker M E)
      → Steps panics (new_worker queues) w
      → w.place ≡ waits
      → pending w ≡ false
      → (w.is_close ≡ false) × EmptyBelow (length w.queues) w.queues
  waits-EmptyBelow queues w run e q =
      subst (λ p. Quiet p w) e (Steps-Safe (new_worker queues) w run (λ u. tt) q)
