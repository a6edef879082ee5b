-- ===== src/Server/Names.antt =====
-- The bounds of a server, and its services by their names (stnet/server.go).
use gotools.Common.{
  ℕ, ◌%◌, ◌≤◌, ◌<◌, ◌≡◌, sym, ◌∙◌, arith, List, [], ◌∷◌, ◌++◌, ltb, length, length-append, Bool,
  false, ◌&&◌, ◌||◌, not, if◌then◌else◌, Option, none, some, Bool-cases, inl, inr, Option-cases,
}
use mathlib.Core.Path.{subst}
use gotools.Common.{All, set, get_elem?, replicate, length-set, length-replicate}
use gotools.Common.Assoc.{get, insert, get-insert}
use gotools.Common.Places.{All-set, All-get_elem?, All-snoc, All-replicate}
use gotools.Config.Text.{Str, str_discrete, is_nil}
use gotools.Service.{
  Session, ServiceImp, SessionMessage, queue_cap, is_negative, get_processor, request_message,
  push_request,
}
use gotools.Service.Bounds
use gotools.Service.Bounds.{offer_to-IsValid, push_request-offer_to, get_processor-lt}
use gotools.Server.{Entry, Server, new_server, parse_address, new_service, add_service, push_at}

module _ {M E : Type 0} where
  -- Each service within its bounds, a signal for each thread, and each name's place there.
  pub record IsValid (svr : Server M E) : Type 0 where
    pub threads : 0 < svr.processor_threads_num
    pub signals : length svr.net_signal ≡ svr.processor_threads_num
    pub bounds :
        All (λ (e : Entry M E). Bounds.IsValid svr.processor_threads_num e.service) svr.services
    pub places :
        (name : Str) (i : ℕ)
        → get str_discrete name svr.name_services ≡ some i
        → i < length svr.services

  pub new_server-IsValid :
      (loopmsec threadnum : ℕ) → IsValid (new_server {M = M} {E = E} loopmsec threadnum)
  unfolding new_server get
  new_server-IsValid loopmsec threadnum = record {
    threads = ground arith;
    signals = length-replicate _ false;
    bounds = tt;
    places = λ name i e. absurd (ground (arith, e));
  }

  -- The server with a service more.
  abbrev pub new_entry : Str → Str → ServiceImp M E → ℕ → ℕ → Entry M E
  new_entry name address imp threads thread_id = record {
    service = record { name = name; thread_id = thread_id; message_q = replicate threads [] };
    imp = imp;
    address = address;
  }

  abbrev pub added : Str → Str → ServiceImp M E → ℕ → Server M E → Server M E
  added name address imp thread_id svr =
      let threads = svr.processor_threads_num in
      record svr {
        services = svr.services ++ new_entry name address imp threads (thread_id % threads) ∷ [];
        name_services =
            if is_nil name
            then svr.name_services
            else insert str_discrete name (length svr.services) svr.name_services;
      }

  pub add_service-added :
      (listens : Bool × Str → Bool) (name address : Str) (imp : ServiceImp M E) (thread_id : ℕ)
      (svr svr' : Server M E)
      → add_service listens name address (some imp) thread_id svr ≡ inr svr'
      → svr' ≡ added name address imp thread_id svr
  unfolding add_service new_service
  add_service-added listens name address imp thread_id svr svr' e =
      let threads = svr.processor_threads_num in
      elim (Bool-cases (is_negative thread_id || ltb threads thread_id)) [
        | inl bad ↦ absurd (ground (arith, e, bad))
        | inr good ↦
            elim (Bool-cases (not (is_nil address) && not (listens (parse_address address)))) [
              | inl deaf ↦ absurd (ground (arith, e, good, deaf))
              | inr fine ↦ ground (arith, e, good, fine)
            ]
      ]

  added-places :
      (name address : Str) (imp : ServiceImp M E) (thread_id : ℕ) (svr : Server M E) (name' : Str)
      (i : ℕ)
      → IsValid svr
      → get str_discrete name' (added name address imp thread_id svr).name_services ≡ some i
      → i < length (added name address imp thread_id svr).services
  added-places name address imp thread_id svr name' i v e =
      let l = length svr.services in
      let len = length-append svr.services (
        new_entry name address imp svr.processor_threads_num (thread_id % svr.processor_threads_num)
        ∷ []) in
      let ins = get-insert str_discrete name name' l svr.name_services in
      elim (Bool-cases (is_nil name)) [
        | inl unnamed ↦ omega (arith, len, v.places name' i (rw (unnamed) at e))
        | inr named ↦ elim (str_discrete name name') [
          | yes same ↦
              let here : i ≡ l = ground (arith, e, named, ins, same) in omega (arith, len, here)
          | no other ↦
              let before : get str_discrete name' svr.name_services ≡ some i =
                ground (arith, e, named, ins, other) in
              omega (arith, len, v.places name' i before)
        ]
      ]

  pub added-IsValid :
      (name address : Str) (imp : ServiceImp M E) (thread_id : ℕ) (svr : Server M E)
      → IsValid svr
      → IsValid (added name address imp thread_id svr)
  added-IsValid name address imp thread_id svr v = record {
    threads = v.threads;
    signals = v.signals;
    bounds =
        All-snoc (λ e. Bounds.IsValid svr.processor_threads_num e.service) svr.services _ v.bounds
          (record {
            count = length-replicate svr.processor_threads_num [];
            own = omega (arith, v.threads);
            bounded =
                All-replicate (λ (q : List (SessionMessage M E)). length q ≤ queue_cap)
                  svr.processor_threads_num [] (omega arith);
          });
    places = λ name' i e. added-places name address imp thread_id svr name' i v e;
  }

  -- The server with a push to the service `e` at place `i`.
  abbrev pub pushed : ℕ → Entry M E → Option Session → ℕ → Option M → Server M E → Server M E
  pushed i e sess msg_id msg svr =
      let r =
        push_request e.imp svr.processor_threads_num sess msg_id msg (e.service, svr.net_signal) in
      record svr {
        services = set svr.services i (record e { service = r.0.0 });
        net_signal = r.0.1;
      }

  pub push_at-there :
      (i : ℕ) (e : Entry M E) (sess : Option Session) (msg_id : ℕ) (msg : Option M)
      (svr : Server M E)
      → get_elem? svr.services i ≡ some e
      → (push_at i sess msg_id msg svr).1 ≡ pushed i e sess msg_id msg svr
  unfolding push_at
  push_at-there i e sess msg_id msg svr there = ground (arith, there)

  push_at-gone :
      (i : ℕ) (sess : Option Session) (msg_id : ℕ) (msg : Option M) (svr : Server M E)
      → get_elem? svr.services i ≡ none
      → (push_at i sess msg_id msg svr).1 ≡ svr
  unfolding push_at
  push_at-gone i sess msg_id msg svr gone = ground (arith, gone)

  pushed-IsValid :
      (i : ℕ) (e : Entry M E) (sess : Option Session) (msg_id : ℕ) (msg : Option M)
      (svr : Server M E)
      → get_elem? svr.services i ≡ some e
      → IsValid svr
      → IsValid (pushed i e sess msg_id msg svr)
  pushed-IsValid i e sess msg_id msg svr there v =
      let threads = svr.processor_threads_num in
      let r = push_request e.imp threads sess msg_id msg (e.service, svr.net_signal) in
      let th = get_processor e.imp threads e.service sess msg_id msg in
      let (service, signals) =
        push_request-offer_to e.imp threads sess msg_id msg e.service svr.net_signal in
      let was =
        All-get_elem? (λ e. Bounds.IsValid threads e.service) svr.services i e v.bounds there in
      let is = offer_to-IsValid threads th (request_message sess msg_id msg) e.service was in
      record {
        threads = v.threads;
        signals = signals ∙ v.signals;
        bounds =
            All-set (λ e. Bounds.IsValid threads e.service) svr.services i
              (record e { service = r.0.0 }) v.bounds
              (subst (λ s. Bounds.IsValid threads s) (sym service) is);
        places = λ name j h.
            omega
              (arith, v.places name j h, length-set svr.services i (record e { service = r.0.0 }));
      }

  pub push_at-IsValid :
      (i : ℕ) (sess : Option Session) (msg_id : ℕ) (msg : Option M) (svr : Server M E)
      → IsValid svr
      → IsValid (push_at i sess msg_id msg svr).1
  push_at-IsValid i sess msg_id msg svr v = elim (Option-cases (get_elem? svr.services i)) [
    | inl gone ↦ subst (λ s. IsValid s) (sym (push_at-gone i sess msg_id msg svr gone)) v
    | inr (e, there) ↦
        subst (λ s. IsValid s) (sym (push_at-there i e sess msg_id msg svr there))
          (pushed-IsValid i e sess msg_id msg svr there v)
  ]
