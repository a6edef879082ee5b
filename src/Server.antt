-- ===== src/Server.antt =====
-- stnet/server.go, stnet/close.go, parseAddress of stnet/service.go, and of stnet/simpleimp.go the
-- choice of a proxy's address: the server with its services, its threads and their signals.
use gotools.Common.{
  ℕ, zero, suc, ◌+◌, ◌-◌, ◌*◌, ◌%◌, ◌^◌, List, [], ◌∷◌, ◌++◌, ltb, leb, ◌==◌, length, set, get_or,
  get_elem?, replicate, map, Bool, true, false, ◌&&◌, ◌||◌, not, if◌then◌else◌, Option, none, some,
  ◌⊎◌, inl, inr,
}
use gotools.Common.Assoc.{get, insert}
use gotools.Config.Text.{Str, str_discrete, is_nil}
use gotools.Service.{
  Session, Service, ServiceImp, SessionMessage, Offered, accepted, dropped, is_negative, offer_to,
  wake, get_processor, push_request, destroy,
}
pub mod Names
pub mod Runs
pub mod Threads
pub mod Weights
mod Tests

-- Closer, an atomic flag.
abbrev pub Closer : Type 0
Closer = Bool

abbrev pub space : ℕ
space = 32

abbrev pub udp_prefix : Str
udp_prefix = 117 ∷ 100 ∷ 112 ∷ 58 ∷ []

abbrev pub starts_with : Str → Str → Bool
starts_with [] s = true
starts_with (w ∷ word) [] = false
starts_with (w ∷ word) (c ∷ s) = w == c && starts_with word s

abbrev pub contains : Str → Str → Bool
contains word [] = is_nil word
contains word (c ∷ s) = starts_with word (c ∷ s) || contains word s

-- strings.Replace of a word of a letter at least by nothing, with the letters of it that are left.
abbrev pub remove : Str → ℕ → Str → Str
remove word skip [] = []
remove word (suc skip) (c ∷ s) = remove word skip s
remove word zero (c ∷ s) =
    let taken = remove word (length word - 1) s in
    let kept = c ∷ remove word 0 s in if starts_with word (c ∷ s) then taken else kept

-- parseAddress; true for udp.
unfoldable pub parse_address : Str → Bool × Str
parse_address address =
    let ipport = remove (space ∷ []) 0 address in
    if contains udp_prefix address then (true, remove udp_prefix 0 ipport) else (false, ipport)

-- A service with its implementation.
pub record Entry (M E : Type 0) : Type 0 where
  pub service : Service M E
  pub imp : ServiceImp M E
  pub address : Str

-- The server: its services in the order in which they came, and for a name the place of its service
-- there, which stands for the pointer. The services of a thread are those with its number.
pub record Server (M E : Type 0) : Type 0 where
  pub loopmsec : ℕ
  pub processor_threads_num : ℕ
  pub services : List (Entry M E)
  pub name_services : List (Str × ℕ)
  pub net_signal : List Bool
  pub is_close : Closer

pub data ServerError : Type 0 where
  bad_thread_id nil_service_imp listen_failed null_name no_service queue_is_full bad_proxy_param
        init_failed :
      ServerError

-- A key of a map, which stands once.
abbrev pub add_key : ℕ → List ℕ → List ℕ
add_key k [] = k ∷ []
add_key k (j ∷ ks) = if j == k then j ∷ ks else j ∷ add_key k ks

module _ {M E : Type 0} where
  -- NewServer; the number of threads is signed.
  unfoldable pub new_server : ℕ → ℕ → Server M E
  new_server loopmsec threadnum =
      let threads = if threadnum == 0 || is_negative threadnum then 1 else threadnum in
      record {
        loopmsec = if loopmsec == 0 then 1 else loopmsec;
        processor_threads_num = threads;
        services = [];
        name_services = [];
        net_signal = replicate threads false;
        is_close = false;
      }

  -- newService. `listens` stands for NewListener and NewUdpListener: whether an address can be
  -- listened to.
  unfoldable pub new_service :
      (Bool × Str → Bool) → Str → Str → Option (ServiceImp M E) → ℕ → ℕ → ServerError ⊎ Entry M E
  unfolding parse_address
  new_service listens name address none threads thread_id = inl nil_service_imp
  new_service listens name address (some imp) threads thread_id =
      let sve : Service M E = record {
        name = name;
        thread_id = thread_id;
        message_q = replicate threads [];
      } in
      if not (is_nil address) && not (listens (parse_address address))
      then inl listen_failed
      else inr (record { service = sve; imp = imp; address = address })

  -- AddService; the number of the thread is signed.
  unfoldable pub add_service :
      (Bool × Str → Bool)
      → Str
      → Str
      → Option (ServiceImp M E)
      → ℕ
      → Server M E
      → ServerError ⊎ Server M E
  unfolding new_service
  add_service listens name address imp thread_id svr =
      let threads = svr.processor_threads_num in
      let made = new_service listens name address imp threads (thread_id % threads) in
      if is_negative thread_id || ltb threads thread_id then inl bad_thread_id else elim made [
        | inl e ↦ inl e
        | inr s ↦ inr (record svr {
          services = svr.services ++ s ∷ [];
          name_services =
              if is_nil name
              then svr.name_services
              else insert str_discrete name (length svr.services) svr.name_services;
        })
      ]

  -- PushRequest of the service at a place.
  unfoldable pub push_at :
      ℕ → Option Session → ℕ → Option M → Server M E → Option ServerError × Server M E
  unfolding push_request
  push_at i sess msg_id msg svr = elim (get_elem? svr.services i) [
    | none ↦ (some no_service, svr)
    | some e ↦
        let r =
          push_request e.imp svr.processor_threads_num sess msg_id msg
            (e.service, svr.net_signal) in
        let svr' = record svr {
          services = set svr.services i (record e { service = r.0.0 });
          net_signal = r.0.1;
        } in
        elim r.1 [ accepted ↦ (none, svr') | other ↦ (some queue_is_full, svr') ]
  ]

  -- PushRequest of the server.
  unfoldable pub push_by_name :
      Str → Option Session → ℕ → Option M → Server M E → Option ServerError × Server M E
  unfolding push_at get
  push_by_name name sess msg_id msg svr =
      if is_nil name
      then (some null_name, svr)
      else elim (get str_discrete name svr.name_services) [
        | none ↦ (some no_service, svr)
        | some i ↦ push_at i sess msg_id msg svr
      ]

  -- The threads that Start starts: one for each number that has services, which runs their loops too,
  -- and one for each that has none. `Range` visits the map in the order of its keys here.
  abbrev pub has_services : ℕ → List (Entry M E) → Bool
  has_services th [] = false
  has_services th (e ∷ es) = e.service.thread_id == th || has_services th es

  abbrev pub keys : List (Entry M E) → List ℕ → List ℕ
  keys [] ks = ks
  keys (e ∷ es) ks = keys es (add_key e.service.thread_id ks)

  abbrev pub others : List (Entry M E) → ℕ → ℕ → List ℕ
  others es th zero = []
  others es th (suc left) =
      let rest = others es (th + 1) left in if has_services th es then rest else th ∷ rest

  abbrev pub started : Server M E → List ℕ
  started svr = keys svr.services [] ++ others svr.services 0 svr.processor_threads_num

  -- The loop over the services that calls their Init, up to the first that fails.
  abbrev pub all_init : (Entry M E → Bool) → List (Entry M E) → Bool
  all_init inits [] = true
  all_init inits (e ∷ es) = let rest = all_init inits es in if inits e then rest else false

  -- Start: the error, or the threads. `inits` is what Init of each service's implementation returns; an
  -- order of the services does not matter for it.
  unfoldable pub start : (Entry M E → Bool) → Server M E → ServerError ⊎ List ℕ
  start inits svr = if all_init inits svr.services then inr (started svr) else inl init_failed

  abbrev pub destroy_entry : ℕ → Entry M E → Entry M E
  destroy_entry threads e = record e { service = destroy threads e.service }

  -- Stop: each service is told, the server is closed, and all threads are woken.
  unfoldable pub stop : Server M E → Server M E
  unfolding destroy
  stop svr = record svr {
    services = map (destroy_entry svr.processor_threads_num) svr.services;
    is_close = true;
    net_signal = map (λ b. true) svr.net_signal;
  }

-- The weights of AddTcpProxyService, each with those before it.
abbrev pub add_up : ℕ → List ℕ → List ℕ
add_up sum [] = []
add_up sum (w ∷ ws) = ((sum + w) % 2 ^ 64) ∷ add_up ((sum + w) % 2 ^ 64) ws

-- What AddTcpProxyService makes of its addresses and weights.
unfoldable pub proxy_param : List Str → List ℕ → ServerError ⊎ (List Str × List ℕ)
proxy_param proxyaddr proxyweight =
    if ltb 1 (length proxyaddr) && not (length proxyaddr == length proxyweight)
    then inl bad_proxy_param
    else inr (proxyaddr, if ltb 1 (length proxyaddr) then add_up 0 proxyweight else [])

-- The loop of SessionOpen of ServiceProxyS, from place `i` on, and where it breaks.
unfoldable pub find_weight : ℕ → ℕ → List ℕ → Option ℕ
find_weight r i [] = none
find_weight r i (w ∷ ws) = let later = find_weight r (i + 1) ws in if ltb r w then some i else later

abbrev pub last : List ℕ → ℕ
last [] = 0
last (w ∷ []) = w
last (w ∷ v ∷ ws) = last (v ∷ ws)

-- The place of the address that SessionOpen connects to, where `r` is rand.Int().
unfoldable pub session_open_at : List ℕ → ℕ → ℕ
unfolding find_weight
session_open_at weight r =
    if ltb 1 (length weight)
    then elim (find_weight (r % last weight) 0 weight) [ none ↦ 0 | some i ↦ i ]
    else 0
