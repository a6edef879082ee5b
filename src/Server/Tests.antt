-- ===== src/Server/Tests.antt =====
-- Runs of stnet/server.go and of the proxy's choice in stnet/simpleimp.go, and the theorems at concrete
-- inputs.
use gotools.Common.{
  ℕ, suc, ◌%◌, ◌≤◌, ◌<◌, ◌≡◌, refl, arith, List, [], ◌∷◌, length, set, ltb, Bool, true, false,
  if◌then◌else◌, none, some, inl, inr, ◌⊎◌, All,
}
use gotools.Common.Assoc.{get, insert}
use gotools.Config.Text.{Str, str_discrete, is_nil}
use gotools.Service.{
  ServiceImp, offer, offer_to, get_processor, push_request, request_message, stop_from, destroy,
}
use gotools.Server.{
  Entry, Server, parse_address, new_server, new_service, add_service, push_at, push_by_name, start,
  init_failed, stop, proxy_param, find_weight, session_open_at,
}
use gotools.Server.Names
use gotools.Server.Names.{new_entry}
use gotools.Server.Runs.{
  Op, adds, pushes, stops, apply, apply_all, apply_all-IsValid, push_by_name-add_service,
}
use gotools.Server.Threads.{count, Fails, start-once}
use gotools.Server.Weights.{before, session_open_at-share}

program : Unit {0}
unfolding offer offer_to get_processor push_request stop_from destroy parse_address new_server
    new_service add_service push_at push_by_name start stop proxy_param find_weight session_open_at
    apply apply_all get insert str_discrete
program = tt

abbrev imp : ServiceImp ℕ ℕ
imp = record {
  hash_processor = λ sess msg_id msg. msg_id;
  unmarshal =
      λ sess bytes. record { len_parsed = length bytes; msg_id = 0; msg = some 9; err = none };
}

abbrev listens : Bool × Str → Bool
listens address = true

abbrev game : Str
game = 103 ∷ []

abbrev ops : List (Op ℕ ℕ)
ops = adds game [] imp 1 ∷ adds [] game imp 4 ∷ pushes game none 5 (some 7) ∷ stops ∷ []

abbrev server : Server ℕ ℕ
server = apply_all listens ops (new_server 0 3)

server_shape :
    (length server.services ≡ 1) × (length server.net_signal ≡ 3) × (server.is_close ≡ true)
unfolding program
server_shape = (refl, refl, refl)

udp_address : parse_address (117 ∷ 100 ∷ 112 ∷ 58 ∷ 32 ∷ 49 ∷ []) ≡ (true, 49 ∷ [])
unfolding program
udp_address = refl

apply_all-IsValid_example : Names.IsValid server
apply_all-IsValid_example = apply_all-IsValid listens 0 3 ops

abbrev inits : Entry ℕ ℕ → Bool
inits e = true

threads_of_server : start inits server ≡ inr (1 ∷ 0 ∷ 2 ∷ [])
unfolding program
threads_of_server = refl

no_init : start (λ e. false) server ≡ inl init_failed
unfolding program
no_init = refl

start-once_example :
    (All (λ e. inits e ≡ true) server.services
      × ((threads : List ℕ) × (start inits server ≡ inr threads)
          × ((th : ℕ) → count th threads ≡ (if ltb th server.processor_threads_num then 1 else 0))))
    ⊎ (Fails inits server.services × (start inits server ≡ inl init_failed))
start-once_example = start-once inits server (apply_all-IsValid listens 0 3 ops)

abbrev empty_server : Server ℕ ℕ
empty_server = record {
  loopmsec = 1;
  processor_threads_num = 3;
  services = [];
  name_services = [];
  net_signal = false ∷ false ∷ false ∷ [];
  is_close = false;
}

empty_server-IsValid : Names.IsValid empty_server
unfolding program
empty_server-IsValid = record {
  threads = omega arith;
  signals = refl;
  bounds = tt;
  places = λ name i e. absurd (ground (arith, e));
}

abbrev one_service : Server ℕ ℕ
one_service = record empty_server {
  services = new_entry game [] imp 3 1 ∷ [];
  name_services = (game, 0) ∷ [];
}

adds_one : add_service listens game [] (some imp) 1 empty_server ≡ inr one_service
unfolding program
adds_one = refl

game_named : is_nil game ≡ false
unfolding program
game_named = refl

push_by_name-add_service_example :
    let r = push_by_name game none 5 (some 7) one_service in
    let e = new_entry game [] imp 3 1 in
    let th = get_processor imp 3 e.service none 5 (some 7) in
    (th < 3)
    × (r.0 ≡ none)
    × (r.1.services
        ≡ record e {
          service = record e.service {
            message_q = set e.service.message_q th (request_message none 5 (some 7) ∷ []);
          };
        }
          ∷ [])
push_by_name-add_service_example =
    push_by_name-add_service listens game [] imp 1 none 5 (some 7) empty_server one_service
      empty_server-IsValid game_named adds_one

abbrev addresses : List Str
addresses = (1 ∷ []) ∷ (2 ∷ []) ∷ (3 ∷ []) ∷ []

two_sums : proxy_param addresses (2 ∷ 0 ∷ 5 ∷ []) ≡ inr (addresses, 2 ∷ 2 ∷ 7 ∷ [])
unfolding program
two_sums = refl

session_open_at-share_example :
    let i = session_open_at (2 ∷ 2 ∷ 7 ∷ []) 10 in
    (i < length addresses)
    × (before i (2 ∷ 0 ∷ 5 ∷ []) ≤ 10 % 7)
    × (10 % 7 < before (suc i) (2 ∷ 0 ∷ 5 ∷ []))
session_open_at-share_example =
    session_open_at-share addresses 2 0 (5 ∷ []) 10 addresses (2 ∷ 2 ∷ 7 ∷ []) two_sums refl
      (omega arith) (omega arith)

third : session_open_at (2 ∷ 2 ∷ 7 ∷ []) 10 ≡ 2
unfolding program
third = refl
