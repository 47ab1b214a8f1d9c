-- ===== src/Server/Safety/Tests.antt =====
-- Runs of a proxy that has just been made.
mod Accepted
use spx.Prelude.{zero, suc, ℕ, ◌≡◌, ◌≢◌, refl, [], ◌∷◌, List, some, true, false, arith}
use spx.Outcome.{returns, fault, dangling_iterator, out_of_fuel}
use spx.Outcome.Ends.{Harmless, Returned}
use spx.Cache.Methods
use spx.Net.Sys.{Sys, Host, Pollfd}
use spx.Net.TcpSocket
use spx.Net.ActiveSocket
use spx.Net.ActiveSocket.{ActiveSocket}
use spx.Net.PassiveSocket
use spx.Clients.Client.{Client}
use spx.Clients.ClientsList
use spx.Clients.ClientsList.{slot, find_client, no_clients}
use spx.Server.State.{Server}
use spx.Server.Events
use spx.Server.Events.{server_pollfds, handle_event}
use spx.Server.Safety.Polling.{Answers, PollContract}
use spx.Server.Safety.Accepting.{Fresh}
use spx.Outcome.Kept.{Kept}
use spx.Cache.Sound.{IsSound}
use spx.Server.Stopping.{run-stops, Stopped}
use spx.Server.Stable.Runs.{start-IsSound, start-iterators, start-fuel}
use spx.Server.Tests.{no_parser, bringing}

-- A system on which every descriptor is ready for what it is polled for.
abbrev ready : List Pollfd → List Pollfd
ready [] = []
ready (p ∷ l) = record p { revents = p.events } ∷ ready l

abbrev serving : Sys (Unit {0})
serving = record (bringing []) {
  getaddrinfo = λ h p w.
      (some (record { ai_family = 2; ai_socktype = 1; ai_protocol = 0; ai_addr = [] } ∷ []), w);
  accept = λ fd w. (some 5, w);
  poll = λ l t w. (some (ready l), w);
}

ready-Answers : (l : List Pollfd) → Answers l (ready l)
ready-Answers [] = tt
ready-Answers (p ∷ l) = (refl, (λ e. e), (λ e. e), ready-Answers l)

serving-PollContract : PollContract serving
serving-PollContract pfds polled timeout w e =
    let q : polled ≡ ready pfds = ground arith in rw q (ready-Answers pfds)

abbrev first_host : Host (Unit {0})
first_host = record { world = tt; next_id = 0 }

abbrev listening_server : Server no_parser (Unit {0})
listening_server = record {
  server_socket = record { socket = record { fd = some 20 }; port = 8080 };
  cache = Methods.create 16777216;
  clients = record { slots = no_clients 10; host = first_host };
  request_clients_map = [];
  is_running = false;
}

created : Events.create serving 8080 24 first_host ≡ returns listening_server first_host
unfolding Events.create PassiveSocket.create TcpSocket.create ClientsList.create
    ClientsList.calculate_maximum_clients
created = refl

start-IsSound_example :
    Kept
      (λ t. IsSound Events.max_cache_size t.cache)
      (Events.start serving (false ∷ true ∷ []) listening_server)
start-IsSound_example =
    start-IsSound serving 8080 24 (false ∷ true ∷ []) first_host first_host listening_server created

start-iterators_example :
    Events.start serving (false ∷ true ∷ []) listening_server ≢ fault dangling_iterator
start-iterators_example =
    start-iterators serving 8080 24 (false ∷ true ∷ []) first_host first_host listening_server
      created

start-fuel_example : Events.start serving (false ∷ true ∷ []) listening_server ≢ fault out_of_fuel
start-fuel_example =
    start-fuel serving 8080 24 (false ∷ true ∷ []) first_host first_host listening_server created

run-stops_example :
    (Events.run serving (false ∷ true ∷ false ∷ []) (record listening_server { is_running = true })
      ≡ Events.run serving (false ∷ true ∷ []) (record listening_server { is_running = true }))
    × Returned Stopped (
        Events.run serving
          (false ∷ true ∷ false ∷ [])
          (record listening_server { is_running = true }))
run-stops_example =
    run-stops serving (false ∷ []) (false ∷ []) (record listening_server { is_running = true })
