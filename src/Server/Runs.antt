-- ===== src/Server/Runs.antt =====
-- What holds in every run of a server (stnet/server.go): services that are added, pushes by name, the
-- stop.
use gotools.Common.{
  ℕ, ◌%◌, ◌<◌, ◌≡◌, ◌⊎◌, refl, sym, ◌∙◌, arith, List, [], ◌∷◌, ◌++◌, length, map, Bool, true, false,
  Option, none, some, Bool-cases, inl, inr, Option-cases,
}
use mathlib.Core.Path.{subst}
use gotools.Common.{All, set-append, set, get_or, replicate, length-map}
use gotools.Common.Assoc.{get, get-insert}
use gotools.Common.Places.{get_elem?-last, get_or-replicate}
use gotools.Config.Text.{Str, str_discrete, is_nil}
use gotools.Service.{
  Session, Service, ServiceImp, SessionMessage, accepted, wake, offer, get_processor,
  request_message, push_request, offer_to,
}
use gotools.Service.Bounds
use gotools.Service.Bounds.{
  offer_to-IsValid, push_request-offer_to, get_processor-lt, destroy-IsValid,
}
use gotools.Server.Names.{
  IsValid, new_server-IsValid, added, new_entry, add_service-added, added-IsValid, push_at-IsValid,
}
use gotools.Server.{
  stop, destroy_entry, Entry, Server, ServerError, new_server, add_service, push_at, push_by_name,
}

module _ {M E : Type 0} where
  push_by_name-IsValid :
      (name : Str) (sess : Option Session) (msg_id : ℕ) (msg : Option M) (svr : Server M E)
      → IsValid svr
      → IsValid (push_by_name name sess msg_id msg svr).1
  unfolding push_by_name
  push_by_name-IsValid name sess msg_id msg svr v = elim (Bool-cases (is_nil name)) [
    | inl unnamed ↦
        let same : (push_by_name name sess msg_id msg svr).1 ≡ svr = ground (arith, unnamed) in
        subst (λ s. IsValid s) (sym same) v
    | inr named ↦ elim (Option-cases (get str_discrete name svr.name_services)) [
      | inl gone ↦
          let same : (push_by_name name sess msg_id msg svr).1 ≡ svr =
            ground (arith, named, gone) in
          subst (λ s. IsValid s) (sym same) v
      | inr (i, there) ↦
          let next : (push_by_name name sess msg_id msg svr).1 ≡ (push_at i sess msg_id msg svr).1 =
            ground (arith, named, there) in
          subst (λ s. IsValid s) (sym next) (push_at-IsValid i sess msg_id msg svr v)
    ]
  ]

  All-destroy :
      (threads : ℕ) (l : List (Entry M E))
      → All (λ e. Bounds.IsValid threads e.service) l
      → All (λ e. Bounds.IsValid threads e.service) (map (destroy_entry threads) l)
  All-destroy threads [] h = tt
  All-destroy threads (e ∷ l) h =
      (destroy-IsValid threads threads e.service h.0, All-destroy threads l h.1)

  stop-IsValid : (svr : Server M E) → IsValid svr → IsValid (stop svr)
  unfolding stop
  stop-IsValid svr v = record {
    threads = v.threads;
    signals = length-map svr.net_signal (λ b. true) ∙ v.signals;
    bounds = All-destroy svr.processor_threads_num svr.services v.bounds;
    places = λ name i e. omega (
      arith,
      v.places name i e,
      length-map svr.services (destroy_entry svr.processor_threads_num),
    );
  }

-- What is done with a server. An AddService that is refused changes nothing.
pub data Op (M E : Type 0) : Type 0 where
  adds : Str → Str → ServiceImp M E → ℕ → Op M E
  pushes : Str → Option Session → ℕ → Option M → Op M E
  stops : Op M E

module _ {M E : Type 0} (listens : Bool × Str → Bool) where
  unfoldable pub apply : Op M E → Server M E → Server M E
  unfolding add_service push_by_name stop
  apply (adds name address imp thread_id) svr =
      elim (add_service listens name address (some imp) thread_id svr) [
        | inl e ↦ svr
        | inr svr' ↦ svr'
      ]
  apply (pushes name sess msg_id msg) svr = (push_by_name name sess msg_id msg svr).1
  apply stops svr = stop svr

  unfoldable pub apply_all : List (Op M E) → Server M E → Server M E
  unfolding apply
  apply_all [] svr = svr
  apply_all (o ∷ os) svr = apply_all os (apply o svr)

  cases_of :
      (r : ServerError ⊎ Server M E)
      → ((e : ServerError) × (r ≡ inl e)) ⊎ ((s : Server M E) × (r ≡ inr s))
  cases_of (inl e) = inl (e, refl)
  cases_of (inr s) = inr (s, refl)

  apply-IsValid : (o : Op M E) (svr : Server M E) → IsValid svr → IsValid (apply o svr)
  unfolding apply
  apply-IsValid (adds name address imp thread_id) svr v =
      elim (cases_of (add_service listens name address (some imp) thread_id svr)) [
        | inl (e, refused) ↦
            let same : apply (adds name address imp thread_id) svr ≡ svr =
              ground (arith, refused) in
            subst (λ s. IsValid s) (sym same) v
        | inr (s, made) ↦
            let is = add_service-added listens name address imp thread_id svr s made in
            let next : apply (adds name address imp thread_id) svr
                ≡ added name address imp thread_id svr =
              ground (arith, made, is) in
            subst (λ s. IsValid s) (sym next) (added-IsValid name address imp thread_id svr v)
      ]
  apply-IsValid (pushes name sess msg_id msg) svr v =
      push_by_name-IsValid name sess msg_id msg svr v
  apply-IsValid stops svr v = stop-IsValid svr v

  apply_all-keeps :
      (os : List (Op M E)) (svr : Server M E) → IsValid svr → IsValid (apply_all os svr)
  unfolding apply_all
  apply_all-keeps [] svr v = v
  apply_all-keeps (o ∷ os) svr v = apply_all-keeps os (apply o svr) (apply-IsValid o svr v)

  -- Whatever services are added to a new server, pushed to by name or told to stop: it has a thread
  -- at least and a signal for each; each service has a queue for each thread, of at most 10240
  -- messages, and a thread of its own that there is; each name leads to a service.
  pub apply_all-IsValid :
      (loopmsec threadnum : ℕ) (os : List (Op M E))
      → IsValid (apply_all os (new_server loopmsec threadnum))
  apply_all-IsValid loopmsec threadnum os =
      apply_all-keeps os (new_server loopmsec threadnum) (new_server-IsValid loopmsec threadnum)

  push_request-fresh :
      (name : Str) (imp : ServiceImp M E) (threads thread_id : ℕ) (signals : List Bool)
      (sess : Option Session) (msg_id : ℕ) (msg : Option M)
      → let s : Service M E = record {
        name = name;
        thread_id = thread_id;
        message_q = replicate threads [];
      } in
        let th = get_processor imp threads s sess msg_id msg in
        push_request imp threads sess msg_id msg (s, signals) ≡ (
          (
            record s { message_q = set s.message_q th (request_message sess msg_id msg ∷ []) },
            wake th signals,
          ),
          accepted,
        )
  unfolding push_request offer_to offer
  push_request-fresh name imp threads thread_id signals sess msg_id msg =
      let s : Service M E = record {
        name = name;
        thread_id = thread_id;
        message_q = replicate threads [];
      } in
      let th = get_processor imp threads s sess msg_id msg in
      let empty : get_or {A = List (SessionMessage M E)} (replicate threads []) th [] ≡ [] =
        get_or-replicate threads th [] in
      ground (arith, empty)

  push_by_name-added :
      (name address : Str) (imp : ServiceImp M E) (thread_id : ℕ) (sess : Option Session)
      (msg_id : ℕ) (msg : Option M) (svr : Server M E)
      → is_nil name ≡ false
      → let r = push_by_name name sess msg_id msg (added name address imp thread_id svr) in
        let e =
          new_entry name address imp svr.processor_threads_num
            (thread_id % svr.processor_threads_num) in
        let th = get_processor imp svr.processor_threads_num e.service sess msg_id msg in
        let m = request_message sess msg_id msg ∷ [] in
        (r.0 ≡ none)
        × (r.1.services
            ≡ svr.services
              ++ record e {
                service = record e.service { message_q = set e.service.message_q th m };
              }
                ∷ [])
  unfolding push_by_name push_at
  push_by_name-added name address imp thread_id sess msg_id msg svr named =
      let threads = svr.processor_threads_num in
      let e = new_entry name address imp threads (thread_id % threads) in
      let th = get_processor imp threads e.service sess msg_id msg in
      let m : List (SessionMessage M E) = request_message sess msg_id msg ∷ [] in
      let e' : Entry M E = record e {
        service = record e.service { message_q = set e.service.message_q th m };
      } in
      let ins = get-insert str_discrete name name (length svr.services) svr.name_services in
      let found : get str_discrete name (added name address imp thread_id svr).name_services
          ≡ some (length svr.services) =
        ground (arith, named, ins) in
      let there = get_elem?-last svr.services e in
      let fresh =
        push_request-fresh name imp threads (thread_id % threads) svr.net_signal sess msg_id msg in
      let new = set-append svr.services e e' [] in
      (ground (arith, named, found, there, fresh), ground (arith, named, found, there, fresh, new))

  -- When AddService has added a service under a name to a server within its bounds, a push by that name
  -- succeeds and puts the message, alone, into the new service's queue for the thread that is chosen;
  -- the services before it stay as they are.
  pub push_by_name-add_service :
      (name address : Str) (imp : ServiceImp M E) (thread_id : ℕ) (sess : Option Session)
      (msg_id : ℕ) (msg : Option M) (svr svr' : Server M E)
      → IsValid svr
      → is_nil name ≡ false
      → add_service listens name address (some imp) thread_id svr ≡ inr svr'
      → let r = push_by_name name sess msg_id msg svr' in
        let e =
          new_entry name address imp svr.processor_threads_num
            (thread_id % svr.processor_threads_num) in
        let th = get_processor imp svr.processor_threads_num e.service sess msg_id msg in
        let m = request_message sess msg_id msg ∷ [] in
        (th < svr.processor_threads_num)
        × (r.0 ≡ none)
        × (r.1.services
            ≡ svr.services
              ++ record e {
                service = record e.service { message_q = set e.service.message_q th m };
              }
                ∷ [])
  push_by_name-add_service name address imp thread_id sess msg_id msg svr svr' v named made =
      let is = add_service-added listens name address imp thread_id svr svr' made in
      let (none_wrong, there) =
        push_by_name-added name address imp thread_id sess msg_id msg svr named in
      let e =
        new_entry name address imp svr.processor_threads_num
          (thread_id % svr.processor_threads_num) in
      (
        get_processor-lt imp svr.processor_threads_num e.service sess msg_id msg
            (omega (arith, v.threads)),
        rw (is) none_wrong,
        rw (is) there,
      )
