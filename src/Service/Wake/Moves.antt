-- ===== src/Service/Wake/Moves.antt =====
-- How many moves a thread has left before a wait without a signal (stnet/server.go, the loop of a
-- thread that has no services).
use gotools.Common.{
  ℕ, zero, suc, ◌+◌, ◌-◌, ◌*◌, ◌≤◌, ◌<◌, ◌≡◌, ◌⊎◌, refl, sym, ◌∙◌, arith, List, [], ◌∷◌, ltb, ◌==◌,
  length, length-set, set, get_or, Bool, true, false, Bool-cases, inl, inr, dec_lt,
}
use gotools.Service.{SessionMessage, message_loop, message_thread}
use gotools.Service.Wake.{Place, head, waits, quit, polls, Worker, go_on}

abbrev pub signal_moves : Bool → ℕ → ℕ
signal_moves true n = n
signal_moves false n = 0

abbrev pub found_moves : ℕ → ℕ → ℕ
found_moves zero n = 0
found_moves (suc k) n = n

abbrev pub place_moves : Place → ℕ → ℕ
place_moves head n = n + 2
place_moves (polls i k) n = (n - i) + 1 + found_moves k (n + 3)
place_moves waits n = 0
place_moves quit n = 0

abbrev pub is_quit : Place → Bool
is_quit head = false
is_quit waits = false
is_quit (polls i n) = false
is_quit quit = true

module _ {M E : Type 0} where
  abbrev pub total : List (List (SessionMessage M E)) → ℕ
  total [] = 0
  total (q ∷ qs) = length q + total qs

  total-set :
      (qs : List (List (SessionMessage M E))) (i : ℕ) (q : List (SessionMessage M E))
      → i < length qs
      → total (set qs i q) + length (get_or qs i []) ≡ total qs + length q
  total-set [] i q lt = absurd (omega arith)
  total-set (p ∷ qs) zero q lt = omega arith
  total-set (p ∷ qs) (suc i) q lt = omega (arith, total-set qs i q (omega arith))

  -- A bound on the moves up to a wait without a signal.
  abbrev pub moves : Place → ℕ → Worker M E → ℕ
  moves p n w = total w.queues * suc (n + 3) + signal_moves w.net_signal (n + 3) + place_moves p n

  -- What a move does before the wait without a signal.
  pub record Nearer (n m : ℕ) (v : Worker M E) : Type 0 where
    pub still : v.is_close ≡ false
    pub none_left : v.in_flight ≡ 0
    pub goes : is_quit v.place ≡ false
    pub services : length v.queues ≡ n
    pub fewer : moves v.place n v < m

module _ {M E : Type 0} (panics : SessionMessage M E → Bool)
    (calm : (m : SessionMessage M E) → panics m ≡ false) where
  message_loop-count :
      (rounds n : ℕ) (q : List (SessionMessage M E))
      → (message_loop panics rounds n q).returned + length (message_loop panics rounds n q).queue
        ≡ n + length q
  unfolding message_loop
  message_loop-count zero n q = refl
  message_loop-count (suc rounds) n [] = refl
  message_loop-count (suc rounds) n (m ∷ q) =
      ground (arith, calm m, message_loop-count rounds (n + 1) q)

  message_loop-all :
      (rounds : ℕ) (q : List (SessionMessage M E))
      → (message_loop panics rounds 0 q).returned + length (message_loop panics rounds 0 q).queue
        ≡ length q
  message_loop-all rounds q = omega (arith, message_loop-count rounds 0 q)

  message_thread-count :
      (q : List (SessionMessage M E))
      → (message_thread panics q).returned + length (message_thread panics q).queue ≡ length q
  unfolding message_thread
  message_thread-count q = message_loop-all 1024 q

-- The moves that `k` messages are worth.
worth : (k t u l : ℕ) → u + k ≡ t → u * l + k * l ≡ t * l
worth k t u l e = rw (sym e) (omega arith)

pub found-most : (k n : ℕ) → found_moves k n ≤ n
found-most zero n = omega arith
found-most (suc k) n = omega arith

polls-moves :
    (n k u t l : ℕ) → u + k ≡ t → u * suc l + found_moves (n + k) l ≤ t * suc l + found_moves n l
polls-moves zero zero u t l e = rw (sym e) (omega arith)
polls-moves zero (suc k) u t l e =
    omega (arith, worth (suc k) t u (suc l) e, found-most (zero + suc k) l)
polls-moves (suc n) k u t l e = omega (arith, worth k t u (suc l) e, found-most (suc n + k) l)

module _ {M E : Type 0} (panics : SessionMessage M E → Bool)
    (calm : (m : SessionMessage M E) → panics m ≡ false) where
  polled-Nearer :
      (i n l : ℕ) (w : Worker M E)
      → length w.queues ≡ l
      → i < l
      → w.is_close ≡ false
      → w.in_flight ≡ 0
      → Nearer l (moves (polls i n) l w) (go_on panics (polls i n) w)
  unfolding go_on
  polled-Nearer i n l w s lt c f =
      let here : ltb i (length w.queues) ≡ true = ground (arith, s) in
      let q = get_or w.queues i [] in
      let b = message_thread panics q in
      let same = length-set w.queues i b.queue in
      let fewer = total-set w.queues i b.queue (omega arith) in
      let count = message_thread-count panics calm q in
      let bound =
        polls-moves n b.returned (total (set w.queues i b.queue)) (total w.queues) (l + 3)
          (omega arith) in
      rw (here)
        record { still = c; none_left = f; goes = refl; services = same ∙ s; fewer = omega arith }

  round-Nearer :
      (i n l : ℕ) (w : Worker M E)
      → length w.queues ≡ l
      → l ≤ i
      → w.is_close ≡ false
      → w.in_flight ≡ 0
      → Nearer l (moves (polls i n) l w) (go_on panics (polls i n) w)
  unfolding go_on
  round-Nearer i zero l w s ge c f =
      let over : ltb i (length w.queues) ≡ false = ground (arith, s) in
      rw (over) record { still = c; none_left = f; goes = refl; services = s; fewer = omega arith }
  round-Nearer i (suc n) l w s ge c f =
      let over : ltb i (length w.queues) ≡ false = ground (arith, s) in
      let found : (suc n == 0) ≡ false = ground arith in
      rw (over, found)
        record { still = c; none_left = f; goes = refl; services = s; fewer = omega arith }

  pub go_on-Nearer :
      (p : Place) (l : ℕ) (w : Worker M E)
      → length w.queues ≡ l
      → is_quit p ≡ false
      → w.is_close ≡ false
      → w.in_flight ≡ 0
      → ((p ≡ waits) × (w.net_signal ≡ false)) ⊎ Nearer l (moves p l w) (go_on panics p w)
  unfolding go_on
  go_on-Nearer head l w s on c f = inr (
      rw (c) record { still = refl; none_left = f; goes = refl; services = s; fewer = omega arith })
  go_on-Nearer (polls i n) l w s on c f = elim (dec_lt i l) [
    | yes lt ↦ inr (polled-Nearer i n l w s lt c f)
    | no ge ↦ inr (round-Nearer i n l w s (omega arith) c f)
  ]
  go_on-Nearer waits l w s on c f = elim (Bool-cases w.net_signal) [
    | inl there ↦ inr (
        rw (there)
          record { still = c; none_left = f; goes = refl; services = s; fewer = omega arith })
    | inr gone ↦ inl (refl, gone)
  ]
  go_on-Nearer quit l w s on c f = absurd (ground (arith, on))
