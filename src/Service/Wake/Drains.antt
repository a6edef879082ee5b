-- ===== src/Service/Wake/Drains.antt =====
-- The messages of a thread are handed on (stnet/server.go, the loop of a thread that has no services).
use gotools.Common.{
  ℕ, zero, suc, ◌+◌, ◌*◌, ◌≤◌, ◌≡◌, refl, sym, ap, ◌∙◌, arith, List, ◌==◌, length, Bool, true,
  false, Bool-cases, inl, inr, dec_lt,
}
use mathlib.Core.Path.{subst}
use gotools.Service.{SessionMessage}
use gotools.Service.Wake.{
  Place, head, waits, quit, polls, Worker, new_worker, go_on, advance, work, worked, queued, full,
  closes, signals, Steps, none_yet, then_step,
}
use gotools.Service.Wake.NoneLost.{Safe, Quiet, EmptyBelow, go_on-Safe, Steps-Safe}
use gotools.Service.Wake.Stops.{go_on-place}
use gotools.Service.Wake.Moves.{is_quit, total, moves, signal_moves, found-most, go_on-Nearer}

module _ {M E : Type 0} (panics : SessionMessage M E → Bool)
    (calm : (m : SessionMessage M E) → panics m ≡ false) where
  work-still :
      (n : ℕ) (w : Worker M E) → w.place ≡ waits → w.net_signal ≡ false → work panics n w ≡ w
  unfolding work go_on
  work-still zero w e s = refl
  work-still (suc n) w e s =
      let next : advance panics w ≡ w = go_on-place panics waits w e ∙ ground (arith, s) in
      ap (λ v. work panics n v) next ∙ work-still n w e s

  -- A wait without a signal, with nothing left.
  record Rests (l : ℕ) (v : Worker M E) : Type 0 where
    there : v.place ≡ waits
    unsignalled : v.net_signal ≡ false
    empty : EmptyBelow l v.queues

  Rests-now :
      (l : ℕ) (w : Worker M E)
      → length w.queues ≡ l
      → w.in_flight ≡ 0
      → Safe w
      → w.place ≡ waits
      → w.net_signal ≡ false
      → Rests l w
  Rests-now l w s f h e off =
      let quiet : Quiet waits w = subst (λ p. Quiet p w) e (h (ground (arith, off, f))) in
      record { there = e; unsignalled = off; empty = λ i lt. quiet.1 i (omega arith) }

  work-Rests :
      (n l : ℕ) (w : Worker M E)
      → length w.queues ≡ l
      → is_quit w.place ≡ false
      → w.is_close ≡ false
      → w.in_flight ≡ 0
      → Safe w
      → moves w.place l w ≤ n
      → Rests l (work panics n w)
  unfolding work advance
  work-Rests zero l w s on c f h le = elim (go_on-Nearer panics calm w.place l w s on c f) [
    | inl (e, off) ↦ Rests-now l w s f h e off
    | inr near ↦ absurd (omega (arith, near.fewer))
  ]
  work-Rests (suc n) l w s on c f h le = elim (go_on-Nearer panics calm w.place l w s on c f) [
    | inl (e, off) ↦
        subst (λ v. Rests l v) (sym (work-still (suc n) w e off)) (Rests-now l w s f h e off)
    | inr near ↦
        work-Rests n l (advance panics w) near.services near.goes near.still near.none_left
          (go_on-Safe panics calm w.place w refl h) (omega (arith, near.fewer))
  ]

  signal-most : (b : Bool) (n : ℕ) → signal_moves b n ≤ n
  signal-most true n = omega arith
  signal-most false n = omega arith

  moves-most :
      (p : Place) (l : ℕ) (w : Worker M E) → moves p l w ≤ (total w.queues + 3) * suc (l + 3)
  moves-most head l w = omega (arith, signal-most w.net_signal (l + 3))
  moves-most (polls i n) l w = omega (arith, signal-most w.net_signal (l + 3), found-most n (l + 3))
  moves-most waits l w = omega (arith, signal-most w.net_signal (l + 3))
  moves-most quit l w = omega (arith, signal-most w.net_signal (l + 3))

  go_on-quit :
      (p : Place) (w : Worker M E)
      → w.place ≡ p
      → w.is_close ≡ false
      → is_quit p ≡ false
      → is_quit (go_on panics p w).place ≡ false
  unfolding go_on
  go_on-quit head w e c on = rw (c) refl
  go_on-quit (polls i n) w e c on = elim (dec_lt i (length w.queues)) [
    | yes lt ↦ ground arith
    | no ge ↦ elim (Bool-cases (n == 0)) [ inl none ↦ ground arith | inr found ↦ ground arith ]
  ]
  go_on-quit waits w e c on = elim (Bool-cases w.net_signal) [
    | inl there ↦ ground arith
    | inr gone ↦ ground (arith, e)
  ]
  go_on-quit quit w e c on = absurd (ground (arith, on))

  go_on-is_close : (p : Place) (w : Worker M E) → (go_on panics p w).is_close ≡ w.is_close
  unfolding go_on
  go_on-is_close head w = refl
  go_on-is_close (polls i n) w = ground arith
  go_on-is_close waits w = ground arith
  go_on-is_close quit w = refl

  Steps-quit :
      (u w : Worker M E)
      → Steps panics u w
      → is_quit u.place ≡ false
      → w.is_close ≡ false
      → is_quit w.place ≡ false
  unfolding advance
  Steps-quit _ _ (none_yet w) on c = on
  Steps-quit _ _ (then_step u _ _ run (worked v)) on c =
      let c0 = sym (go_on-is_close v.place v) ∙ c in
      go_on-quit v.place v refl c0 (Steps-quit u v run on c0)
  Steps-quit _ _ (then_step u _ _ run (queued i m v)) on c = Steps-quit u v run on c
  Steps-quit _ _ (then_step u _ _ run (full v)) on c = Steps-quit u v run on c
  Steps-quit _ _ (then_step u _ _ run (closes v)) on c = absurd (ground (arith, c))
  Steps-quit _ _ (then_step u _ _ run (signals left v e)) on c = Steps-quit u v run on c

  -- If no call panics: as long as the server is not closed and nobody owes a signal, the thread's own
  -- moves, for each queued message and three times more at most as many as there are services and four,
  -- bring it to a wait without a signal with every one of its queues empty.
  pub work-EmptyBelow :
      (queues : List (List (SessionMessage M E))) (w : Worker M E)
      → Steps panics (new_worker queues) w
      → w.is_close ≡ false
      → w.in_flight ≡ 0
      → let v = work panics ((total w.queues + 3) * suc (length w.queues + 3)) w in
        (v.place ≡ waits) × (v.net_signal ≡ false) × EmptyBelow (length w.queues) v.queues
  work-EmptyBelow queues w run c f =
      let l = length w.queues in
      let on = Steps-quit (new_worker queues) w run refl c in
      let safe = Steps-Safe panics calm (new_worker queues) w run (λ u. tt) in
      let rests =
        work-Rests ((total w.queues + 3) * suc (l + 3)) l w refl on c f safe
          (moves-most w.place l w) in
      (rests.there, rests.unsignalled, rests.empty)
