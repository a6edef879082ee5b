-- ===== src/Transport/Reconnect.antt =====
-- How often and how late a connector tries again (stnet/connector.go).
use gotools.Common.{
  ℕ, zero, suc, ◌+◌, ◌-◌, ◌*◌, ◌%◌, ◌≤◌, ◌≡◌, refl, sym, ap, ◌∙◌, arith, List, [], ◌∷◌, ◌++◌,
  append_assoc, append-nil, ltb, true, false, if◌then◌else◌, Bool-cases, inl, inr, dec_lt,
}
use gotools.Common.{All, replicate}
use mathlib.Core.Path.{subst}
use gotools.Common.Places.{All-snoc}
use gotools.Transport.Connect.{
  Connector, new_connector, Round, closed_in_wait, closed_in_dial, refused, connected, waited,
  next_count, try_once, connect,
}

-- The count and the waits of a connector are in their bounds.
pub record IsValid (c : Connector) : Type 0 where
  pub count : c.reconn_count ≤ 30
  pub msec : c.reconnect_msec ≡ 100
  pub delays : All (λ d. d ≤ 90000) c.delays

squares : (n k m : ℕ) → n + k ≡ m → n * n + n * k ≡ n * m
squares n k m e = rw (sym e) (omega arith)

square : (n : ℕ) → n ≤ 30 → n * n * 100 ≤ 90000
square n h = omega (arith, squares n (30 - n) 30 (omega arith))

waited-bounds : (c : Connector) → IsValid c → All (λ d. d ≤ 90000) (waited c)
waited-bounds c v = elim (dec_lt 0 c.reconn_count) [
  | yes lt ↦
      let some_wait : ltb 0 c.reconn_count ≡ true = ground arith in
      let bound : c.reconn_count * c.reconn_count * c.reconnect_msec ≤ 90000 =
        rw (v.msec) (square c.reconn_count v.count) in
      rw (some_wait) (
        All-snoc (λ d. d ≤ 90000) c.delays (c.reconn_count * c.reconn_count * c.reconnect_msec)
          v.delays bound)
  | no ge ↦ let no_wait : ltb 0 c.reconn_count ≡ false = ground arith in rw (no_wait) v.delays
]

next_count-bound : (n : ℕ) → n ≤ 30 → next_count n ≤ 30
unfolding next_count
next_count-bound n h = ground arith

try_once-IsValid : (r : Round) (c : Connector) → IsValid c → IsValid (try_once r c)
unfolding try_once
try_once-IsValid closed_in_wait c v = elim (dec_lt 0 c.reconn_count) [
  | yes lt ↦
      let some_wait : ltb 0 c.reconn_count ≡ true = ground arith in
      let next : try_once closed_in_wait c
          ≡ record c { delays = waited c; closed = true; over = true } =
        ground (arith, some_wait) in
      subst (λ d. IsValid d) (sym next)
        record { count = v.count; msec = v.msec; delays = waited-bounds c v }
  | no ge ↦ let no_wait : ltb 0 c.reconn_count ≡ false = ground arith in rw (no_wait) v
]
try_once-IsValid closed_in_dial c v = record {
  count = next_count-bound c.reconn_count v.count;
  msec = v.msec;
  delays = waited-bounds c v;
}
try_once-IsValid (refused close) c v = record {
  count = next_count-bound c.reconn_count v.count;
  msec = v.msec;
  delays = waited-bounds c v;
}
try_once-IsValid (connected close) c v = record {
  count = omega arith;
  msec = v.msec;
  delays = waited-bounds c v;
}

connect-step :
    (r : Round) (rs : List Round) (c : Connector)
    → c.over ≡ false
    → c.closed ≡ false
    → connect (r ∷ rs) c ≡ connect rs (try_once r c)
unfolding connect
connect-step r rs c goes still = ground (arith, goes, still)

connect-keeps : (rs : List Round) (c : Connector) → IsValid c → IsValid (connect rs c)
unfolding connect
connect-keeps [] c v = v
connect-keeps (r ∷ rs) c v =
    let next = connect-keeps rs (try_once r c) (try_once-IsValid r c v) in
    elim (Bool-cases c.over) [
      | inl over ↦ rw (over) record { count = v.count; msec = v.msec; delays = v.delays }
      | inr goes ↦ elim (Bool-cases c.closed) [
        | inl closed ↦
            rw (goes, closed) record { count = v.count; msec = v.msec; delays = v.delays }
        | inr still ↦ subst (λ d. IsValid d) (sym (connect-step r rs c goes still)) next
      ]
    ]

-- Through any rounds of refused, late and successful dials and of a close, the count of a connector
-- stays at most 30, and each wait that it asks for is at most 90 seconds.
pub connect-IsValid : (rs : List Round) → IsValid (connect rs new_connector)
connect-IsValid rs =
    connect-keeps rs new_connector (record { count = omega arith; msec = refl; delays = tt })

-- The count after `n` refusals, and the waits of `k` rounds from there.
abbrev pub tries : ℕ → ℕ
tries n = if ltb n 31 then n else 10 + (n - 31) % 21

abbrev pub wait_before : ℕ → List ℕ
wait_before zero = []
wait_before (suc n) = (suc n * suc n * 100) ∷ []

abbrev pub waits_from : ℕ → ℕ → List ℕ
waits_from n zero = []
waits_from n (suc k) = wait_before (tries n) ++ waits_from (suc n) k

abbrev pub refusals : ℕ → List Round
refusals k = replicate k (refused false)

next_count-tries : (n : ℕ) → next_count (tries n) ≡ tries (suc n)
unfolding next_count
next_count-tries n = ground arith

waited-before :
    (m : ℕ) (c : Connector)
    → c.reconn_count ≡ m
    → c.reconnect_msec ≡ 100
    → waited c ≡ c.delays ++ wait_before m
waited-before zero c e h = ground (arith, e, append-nil c.delays)
waited-before (suc m) c e h =
    let some_wait : ltb 0 c.reconn_count ≡ true = ground (arith, e) in
    let msec : c.reconn_count * c.reconn_count * c.reconnect_msec ≡ suc m * suc m * 100 =
      rw (e, h) refl in
    rw (some_wait) (ap (λ d. c.delays ++ d ∷ []) msec)

record Refused (n : ℕ) (ds : List ℕ) (c : Connector) : Type 0 where
  count : c.reconn_count ≡ tries n
  msec : c.reconnect_msec ≡ 100
  delays : c.delays ≡ ds
  still : c.closed ≡ false
  goes : c.over ≡ false

try_once-Refused :
    (n : ℕ) (ds : List ℕ) (c : Connector)
    → Refused n ds c
    → Refused (suc n) (ds ++ wait_before (tries n)) (try_once (refused false) c)
unfolding try_once
try_once-Refused n ds c h = record {
  count = ap next_count h.count ∙ next_count-tries n;
  msec = h.msec;
  delays = waited-before (tries n) c h.count h.msec ∙ ap (λ l. l ++ wait_before (tries n)) h.delays;
  still = refl;
  goes = ground (arith, h.msec);
}

connect-Refused :
    (k n : ℕ) (ds : List ℕ) (c : Connector)
    → Refused n ds c
    → Refused (n + k) (ds ++ waits_from n k) (connect (refusals k) c)
unfolding connect
connect-Refused zero n ds c h = let here : n + zero ≡ n = omega arith in rw (append-nil ds, here) h
connect-Refused (suc k) n ds c h =
    let next =
      connect-Refused k (suc n) (ds ++ wait_before (tries n)) (try_once (refused false) c)
        (try_once-Refused n ds c h) in
    let moved : suc n + k ≡ n + suc k = omega arith in
    rw
      (
        connect-step (refused false) (refusals k) c h.goes h.still,
        sym moved,
        sym (append_assoc ds (wait_before (tries n)) (waits_from (suc n) k)),
      )
      next

-- A new connector that is refused `k` times tries on; its count is `k` up to 30, and from there on runs
-- through 10 to 30 again and again; each wait before it is a tenth of a second times the square of the
-- count then, and the first try waits for nothing.
pub connect-tries :
    (k : ℕ)
    → let c = connect (refusals k) new_connector in
      (c.reconn_count ≡ tries k) × (c.delays ≡ waits_from 0 k) × (c.over ≡ false)
connect-tries k =
    let start : Refused 0 [] new_connector = record {
      count = refl;
      msec = refl;
      delays = refl;
      still = refl;
      goes = refl;
    } in
    let h = connect-Refused k 0 [] new_connector start in
    let here : zero + k ≡ k = omega arith in (h.count ∙ ap tries here, h.delays, h.goes)
