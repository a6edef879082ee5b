-- ===== src/Service/Wake/Stops.antt =====
-- The stop of the server (stnet/server.go, Stop and the loop of a thread that has no services).
use gotools.Common.{
  ℕ, zero, suc, ◌+◌, ◌-◌, ◌≤◌, ◌≡◌, ◌≢◌, ◌⊎◌, refl, sym, ap, ◌∙◌, arith, List, [], ltb, ◌==◌,
  length, length-set, get_or, Bool, true, false, ◌||◌, Bool-cases, inl, inr, dec_lt,
}
use mathlib.Core.Path.{subst}
use gotools.Service.{SessionMessage, message_thread}
use gotools.Service.Wake.{
  Place, head, waits, quit, polls, Worker, new_worker, go_on, advance, work, Step, worked, queued,
  full, closes, signals, Steps, none_yet, then_step,
}
use gotools.Service.Wake.NoneLost.{pending}

module _ {M E : Type 0} where
  -- A thread that is past the test of its loop in a closed server has a signal, or one on its way.
  abbrev Woken : Place → Worker M E → Type 0
  Woken head w = Unit
  Woken quit w = Unit
  Woken waits w = w.is_close ≡ true → pending w ≡ true
  Woken (polls i n) w = w.is_close ≡ true → pending w ≡ true

module _ {M E : Type 0} (panics : SessionMessage M E → Bool) where
  go_on-Woken :
      (p : Place) (w : Worker M E)
      → w.place ≡ p
      → Woken p w
      → Woken (go_on panics p w).place (go_on panics p w)
  unfolding go_on
  go_on-Woken head w e h = elim (Bool-cases w.is_close) [
    | inl closed ↦ rw (closed) tt
    | inr still ↦ rw (still) (λ c. absurd (ground (arith, c)))
  ]
  go_on-Woken (polls i n) w e h = elim (dec_lt i (length w.queues)) [
    | yes lt ↦ let here : ltb i (length w.queues) ≡ true = ground arith in rw (here) h
    | no ge ↦
        let over : ltb i (length w.queues) ≡ false = ground arith in
        elim (Bool-cases (n == 0)) [
          | inl none ↦ rw (over, none) h
          | inr found ↦ rw (over, found) tt
        ]
  ]
  go_on-Woken waits w e h = elim (Bool-cases w.net_signal) [
    | inl signalled ↦ rw (signalled) tt
    | inr unsignalled ↦
        let stays : go_on panics waits w ≡ w = ground (arith, unsignalled) in
        subst (λ v. Woken v.place v) (sym stays) (subst (λ p. Woken p w) (sym e) h)
  ]
  go_on-Woken quit w e h = subst (λ p. Woken p w) (sym e) tt

  pending-true : (b : Bool) (n : ℕ) → b || ltb 0 (suc n) ≡ true
  pending-true true n = refl
  pending-true false n = ground arith

  Woken-any : (p : Place) (w : Worker M E) → pending w ≡ true → Woken p w
  Woken-any head w h = tt
  Woken-any quit w h = tt
  Woken-any waits w h = λ c. h
  Woken-any (polls i n) w h = λ c. h

  Step-Woken : (v w : Worker M E) → Step panics v w → Woken v.place v → Woken w.place w
  unfolding advance
  Step-Woken _ _ (worked w) h = go_on-Woken w.place w refl h
  Step-Woken _ _ (queued i m w) h = Woken-any w.place _ (pending-true w.net_signal w.in_flight)
  Step-Woken _ _ (full w) h = Woken-any w.place _ (pending-true w.net_signal w.in_flight)
  Step-Woken _ _ (closes w) h = Woken-any w.place _ (pending-true w.net_signal w.in_flight)
  Step-Woken _ _ (signals left w e) h = Woken-any w.place _ refl

  Steps-Woken : (v w : Worker M E) → Steps panics v w → Woken v.place v → Woken w.place w
  Steps-Woken _ _ (none_yet w) h = h
  Steps-Woken _ _ (then_step u v w run step) h = Step-Woken v w step (Steps-Woken u v run h)

  pub go_on-place : (p : Place) (w : Worker M E) → w.place ≡ p → advance panics w ≡ go_on panics p w
  unfolding advance
  go_on-place p w e = ap (λ q. go_on panics q w) e

  work-quit : (n : ℕ) (w : Worker M E) → w.place ≡ quit → (work panics n w).place ≡ quit
  unfolding work go_on
  work-quit zero w e = e
  work-quit (suc n) w e =
      work-quit n (advance panics w) (ap (λ v. v.place) (go_on-place quit w e) ∙ e)

  -- How many moves a thread of a closed server has left.
  abbrev left : Place → ℕ → ℕ
  left quit n = 0
  left head n = 1
  left waits n = 2
  left (polls i k) n = (n - i) + 3

  record Closer (p : Place) (w v : Worker M E) : Type 0 where
    closed : v.is_close ≡ true
    none_left : v.in_flight ≡ 0
    fewer : suc (left v.place (length v.queues)) ≤ left p (length w.queues)

  go_on-Closer :
      (p : Place) (w : Worker M E)
      → p ≢ quit
      → w.is_close ≡ true
      → w.in_flight ≡ 0
      → Woken p w
      → Closer p w (go_on panics p w)
  unfolding go_on
  go_on-Closer head w on c f h = record { closed = c; none_left = f; fewer = rw (c) (omega arith) }
  go_on-Closer (polls i n) w on c f h = elim (dec_lt i (length w.queues)) [
    | yes lt ↦
        let here : ltb i (length w.queues) ≡ true = ground arith in
        let same = length-set w.queues i (message_thread panics (get_or w.queues i [])).queue in
        rw (here) record { closed = c; none_left = f; fewer = omega (arith, same) }
    | no ge ↦
        let over : ltb i (length w.queues) ≡ false = ground arith in
        elim (Bool-cases (n == 0)) [
          | inl none ↦ rw (over, none) record { closed = c; none_left = f; fewer = omega arith }
          | inr found ↦ rw (over, found) record { closed = c; none_left = f; fewer = omega arith }
        ]
  ]
  go_on-Closer waits w on c f h =
      let signalled : w.net_signal ≡ true = ground (arith, h c, f) in
      rw (signalled) record { closed = c; none_left = f; fewer = omega arith }
  go_on-Closer quit w on c f h = absurd (on refl)

  is_quit : (p : Place) → (p ≡ quit) ⊎ (p ≢ quit)
  is_quit quit = inl refl
  is_quit head = inr (λ e. absurd (ground (arith, e)))
  is_quit waits = inr (λ e. absurd (ground (arith, e)))
  is_quit (polls i n) = inr (λ e. absurd (ground (arith, e)))

  left-quit : (p : Place) (n : ℕ) → left p n ≤ 0 → p ≡ quit
  left-quit quit n h = refl
  left-quit head n h = absurd (omega arith)
  left-quit waits n h = absurd (omega arith)
  left-quit (polls i k) n h = absurd (omega arith)

  work-left :
      (n : ℕ) (w : Worker M E)
      → w.is_close ≡ true
      → w.in_flight ≡ 0
      → Woken w.place w
      → left w.place (length w.queues) ≤ n
      → (work panics n w).place ≡ quit
  unfolding work advance
  work-left zero w c f h le = left-quit w.place (length w.queues) le
  work-left (suc n) w c f h le = elim (is_quit w.place) [
    | inl over ↦ work-quit (suc n) w over
    | inr on ↦
        let next = go_on-Closer w.place w on c f h in
        work-left n (advance panics w) next.closed next.none_left (go_on-Woken w.place w refl h)
          (omega (arith, next.fewer))
  ]

  left-most : (p : Place) (n : ℕ) → left p n ≤ n + 3
  left-most quit n = omega arith
  left-most head n = omega arith
  left-most waits n = omega arith
  left-most (polls i k) n = omega arith

  -- When the server is closed and everyone who owed a signal has given it, the thread's loop is over
  -- after as many moves of its own as there are services, and three more: a thread that waits is woken,
  -- wherever it was and whether calls panicked or not.
  pub work-stops :
      (queues : List (List (SessionMessage M E))) (w : Worker M E)
      → Steps panics (new_worker queues) w
      → w.is_close ≡ true
      → w.in_flight ≡ 0
      → (work panics (length w.queues + 3) w).place ≡ quit
  work-stops queues w run c f =
      let woken = Steps-Woken (new_worker queues) w run tt in
      work-left (length w.queues + 3) w c f woken (left-most w.place (length w.queues))
