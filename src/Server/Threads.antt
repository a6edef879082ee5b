-- ===== src/Server/Threads.antt =====
-- The threads that a server starts (stnet/server.go, Start).
use gotools.Common.{
  ℕ, zero, suc, ◌+◌, ◌≤◌, ◌<◌, ◌≡◌, ◌≢◌, refl, ap, arith, List, [], ◌∷◌, ◌++◌, ltb, ◌==◌, true,
  false, Bool, ◌⊎◌, if◌then◌else◌, Bool-cases, inl, inr, dec_lt, ℕ_discrete,
}
use gotools.Common.{All}
use gotools.Service.Bounds
use gotools.Server.{
  Entry, Server, add_key, keys, has_services, others, started, all_init, start, init_failed,
}
use gotools.Server.Names.{IsValid}

-- How often a number stands in a list.
abbrev pub count : ℕ → List ℕ → ℕ
count j [] = 0
count j (k ∷ ks) = if k == j then suc (count j ks) else count j ks

abbrev once : ℕ → ℕ
once n = if n == 0 then 1 else n

count-append : (j : ℕ) (a b : List ℕ) → count j (a ++ b) ≡ count j a + count j b
count-append j [] b = omega arith
count-append j (k ∷ a) b = ground (arith, count-append j a b)

count-add_key :
    (j k : ℕ) (ks : List ℕ)
    → count j (add_key k ks) ≡ (if k == j then once (count j ks) else count j ks)
count-add_key j k [] = ground arith
count-add_key j k (i ∷ ks) = ground (arith, count-add_key j k ks)

module _ {M E : Type 0} where
  count-keys :
      (j : ℕ) (es : List (Entry M E)) (ks : List ℕ)
      → count j (keys es ks) ≡ (if has_services j es then once (count j ks) else count j ks)
  count-keys j [] ks = refl
  count-keys j (e ∷ es) ks = ground (
    arith,
    count-keys j es (add_key e.service.thread_id ks),
    count-add_key j e.service.thread_id ks,
  )

  others-own :
      (j : ℕ) (es : List (Entry M E)) (th left : ℕ)
      → has_services j es ≡ true
      → count j (others es th left) ≡ 0
  others-own j es th zero own = refl
  others-own j es th (suc left) own = elim (ℕ_discrete th j) [
    | yes here ↦
        ground (arith, others-own j es (th + 1) left own, ap (λ i. has_services i es) here, own)
    | no other ↦ ground (arith, others-own j es (th + 1) left own, other)
  ]

  others-below :
      (j : ℕ) (es : List (Entry M E)) (th left : ℕ) → j < th → count j (others es th left) ≡ 0
  others-below j es th zero lt = refl
  others-below j es th (suc left) lt =
      let other : th ≢ j = λ e. absurd (omega (arith, e)) in
      ground (arith, others-below j es (th + 1) left (omega arith), other)

  others-once :
      (j : ℕ) (es : List (Entry M E)) (th left : ℕ)
      → has_services j es ≡ false
      → th ≤ j
      → j < th + left
      → count j (others es th left) ≡ 1
  others-once j es th zero free le lt = absurd (omega arith)
  others-once j es th (suc left) free le lt = elim (ℕ_discrete th j) [
    | yes here ↦ ground (
      arith,
      others-below j es (th + 1) left (omega arith),
      ap (λ i. has_services i es) here,
      free,
      here,
    )
    | no other ↦
        ground (arith, others-once j es (th + 1) left free (omega arith) (omega arith), other)
  ]

  others-above :
      (j : ℕ) (es : List (Entry M E)) (th left : ℕ)
      → th + left ≤ j
      → count j (others es th left) ≡ 0
  others-above j es th zero le = refl
  others-above j es th (suc left) le =
      let other : th ≢ j = λ e. absurd (omega (arith, e)) in
      ground (arith, others-above j es (th + 1) left (omega arith), other)

  has_services-above :
      (n j : ℕ) (es : List (Entry M E))
      → All (λ e. Bounds.IsValid n e.service) es
      → n ≤ j
      → has_services j es ≡ false
  has_services-above n j [] h le = refl
  has_services-above n j (e ∷ es) h le =
      let own = h.0.own in
      let other : e.service.thread_id ≢ j = λ d. absurd (omega (arith, d, own)) in
      ground (arith, has_services-above n j es h.1 le, other)

  started_once :
      (svr : Server M E) (th : ℕ)
      → IsValid svr
      → count th (started svr) ≡ (if ltb th svr.processor_threads_num then 1 else 0)
  started_once svr th v =
      let n = svr.processor_threads_num in
      let parts = count-append th (keys svr.services []) (others svr.services 0 n) in
      let own = count-keys th svr.services [] in
      elim (dec_lt th n) [
        | yes lt ↦ elim (Bool-cases (has_services th svr.services)) [
          | inl has ↦ ground (arith, parts, own, has, others-own th svr.services 0 n has)
          | inr free ↦ ground (
            arith,
            parts,
            own,
            free,
            others-once th svr.services 0 n free (omega arith) (omega arith),
          )
        ]
        | no ge ↦
            let free = has_services-above n th svr.services v.bounds (omega arith) in
            ground (arith, parts, own, free, others-above th svr.services 0 n (omega arith))
      ]

  -- Init of a service fails.
  abbrev pub Fails : (Entry M E → Bool) → List (Entry M E) → Type 0
  Fails inits [] = ⊥
  Fails inits (e ∷ es) = (inits e ≡ false) ⊎ Fails inits es

  init-cases :
      (inits : Entry M E → Bool) (es : List (Entry M E))
      → ((all_init inits es ≡ true) × All (λ e. inits e ≡ true) es)
        ⊎ ((all_init inits es ≡ false) × Fails inits es)
  init-cases inits [] = inl (refl, tt)
  init-cases inits (e ∷ es) = elim (Bool-cases (inits e)) [
    | inr bad ↦ inr (ground (arith, bad), inl bad)
    | inl good ↦ elim (init-cases inits es) [
      | inl (all, h) ↦ inl (ground (arith, good, all), (good, h))
      | inr (some_bad, h) ↦ inr (ground (arith, good, some_bad), inr h)
    ]
  ]

  -- Start of a server within its bounds has one of two ends. If Init of every service succeeds, it
  -- starts one thread for each number below the number of threads and none for another, so that each
  -- queue of a service has one reader. If Init of some service fails, it returns the error and starts
  -- no thread.
  pub start-once :
      (inits : Entry M E → Bool) (svr : Server M E)
      → IsValid svr
      → (All (λ e. inits e ≡ true) svr.services
          × ((threads : List ℕ) × (start inits svr ≡ inr threads)
              × ((th : ℕ)
                  → count th threads ≡ (if ltb th svr.processor_threads_num then 1 else 0))))
        ⊎ (Fails inits svr.services × (start inits svr ≡ inl init_failed))
  unfolding start
  start-once inits svr v = elim (init-cases inits svr.services) [
    | inl (e, h) ↦ inl (h, (started svr, ground (arith, e), λ th. started_once svr th v))
    | inr (e, h) ↦ inr (h, ground (arith, e))
  ]
