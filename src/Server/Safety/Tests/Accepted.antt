-- ===== src/Server/Safety/Tests/Accepted.antt =====
-- The first rounds of a proxy on a system that accepts no connection before it is told to listen: the
-- proxy is made, listens, accepts a client in its first round, and polls it in its second.
use spx.Prelude.{
  zero, suc, ℕ, ◌≡◌, ◌≢◌, refl, [], ◌∷◌, List, none, some, true, false, arith, Option,
}
use spx.Outcome.{returns}
use spx.Outcome.Ends.{Harmless}
use spx.Cache.Methods
use spx.Net.Sys.{Sys, Host, Pollfd, Fd}
use spx.Net.TcpSocket
use spx.Net.TcpSocket.{same_fd}
use spx.Net.ActiveSocket
use spx.Net.PassiveSocket
use spx.Http.HttpRequest
use spx.Clients.Client
use spx.Clients.Client.{Client, State}
use spx.Clients.ClientsList
use spx.Clients.ClientsList.{slot, no_clients}
use spx.Server.State.{Server, on_host}
use spx.Server.Discard
use spx.Server.Events
use spx.Server.Events.{server_pollfds, handle_event}
use spx.Server.Safety.Polling.{Answers, PollContract}
use spx.Server.Safety.Accepting.{Fresh}
use spx.Server.Safety.Reach.{
  Reach, starts, polls, handles, running, Reach-server_pollfds, Reach-Harmless,
}
use spx.Server.Tests.{no_parser}

abbrev ready : List Pollfd → List Pollfd
ready [] = []
ready (p ∷ l) = record p { revents = p.events } ∷ ready l

-- The world is 0 until the socket listens, and 2 from the first connection on.
abbrev accepted : ℕ → Fd × ℕ
accepted zero = (none, 0)
accepted (suc zero) = (some 5, 2)
accepted (suc (suc w)) = (none, suc (suc w))

abbrev patient : Sys ℕ
patient = record {
  socket = λ d t p w. (some 20, w);
  close = λ fd w. w;
  send = λ fd bytes w. (some 1, w);
  recv = λ fd n w. (some [], w);
  shutdown_write = λ fd w. (true, w);
  connect = λ fd a w. (true, w);
  set_reuse_addr = λ fd w. (true, w);
  set_reuse_port = λ fd w. (true, w);
  bind = λ fd a w. (true, w);
  listen = λ fd n w. (true, 1);
  accept = λ fd w. accepted w;
  getaddrinfo = λ h p w.
      (some (record { ai_family = 2; ai_socktype = 1; ai_protocol = 0; ai_addr = [] } ∷ []), w);
  poll = λ l t w. (some (ready l), w);
  stack = λ w. [];
  open_files_limit = λ w. (some 24, w);
}

ready-Answers : (l : List Pollfd) → Answers l (ready l)
ready-Answers [] = tt
ready-Answers (p ∷ l) = (refl, (λ e. e), (λ e. e), ready-Answers l)

patient-PollContract : PollContract patient
patient-PollContract pfds polled timeout w e =
    let q : polled ≡ ready pfds = ground arith in rw q (ready-Answers pfds)

abbrev silent_host : Host ℕ
silent_host = record { world = 0; next_id = 0 }

abbrev server_with : List (Option (Client no_parser)) → Host ℕ → Server no_parser ℕ
server_with slots h = record {
  server_socket = record { socket = record { fd = some 20 }; port = 8080 };
  cache = Methods.create 16777216;
  clients = record { slots = slots; host = h };
  request_clients_map = [];
  is_running = false;
}

abbrev made_server : Server no_parser ℕ
made_server = server_with (no_clients 10) silent_host

abbrev listening_server : Server no_parser ℕ
listening_server = running (server_with (no_clients 10) (record { world = 1; next_id = 0 }))

abbrev new_client : Client no_parser
new_client = record {
  id = 1;
  request_str = [];
  request = HttpRequest.empty no_parser;
  client_connection = record { id = 0; socket = record { fd = some 5 } };
  server_connection = none;
  state = State.waiting_for_request;
  sent_bytes = 0;
  chunks = [];
  should_write_to_cache = false;
  should_read_from_cache = false;
  should_write_to_all = false;
}

abbrev serving_server : Server no_parser ℕ
serving_server = running (
    server_with (none ∷ none ∷ none ∷ none ∷ none ∷ some new_client ∷ no_clients 4)
      (record { world = 2; next_id = 2 }))

abbrev listening_event : Pollfd
listening_event = record { fd = some 20; events = 1; revents = 1 }

abbrev client_event : Pollfd
client_event = record { fd = some 5; events = 1; revents = 1 }

made : Events.create patient 8080 24 silent_host ≡ returns made_server silent_host
unfolding Events.create PassiveSocket.create TcpSocket.create ClientsList.create
    ClientsList.calculate_maximum_clients
made = refl

listens :
    on_host
      (PassiveSocket.listen patient made_server.server_socket Events.pending_connections_queue_len)
      made_server
    ≡ returns tt (server_with (no_clients 10) (record { world = 1; next_id = 0 }))
unfolding PassiveSocket.listen
listens = refl

first_poll : Events.poll patient listening_server ≡ returns (listening_event ∷ []) listening_server
unfolding Events.poll server_pollfds Events.with_events ClientsList.get_pollfds
first_poll = refl

accepts : handle_event patient listening_event listening_server ≡ returns tt serving_server
unfolding handle_event Events.handle_server_socket_events Discard.accept_client PassiveSocket.accept
    ActiveSocket.create ClientsList.accept_client Client.create ClientsList.assign_slot
    ClientsList.slot ClientsList.set_slot
accepts = refl

second_poll :
    Events.poll patient serving_server
    ≡ returns (client_event ∷ listening_event ∷ []) serving_server
unfolding Events.poll server_pollfds Events.with_events ClientsList.get_pollfds
    ClientsList.client_pollfds
second_poll = refl

slot-no_clients : (k n : ℕ) (c : Client no_parser) → slot (no_clients k) n ≢ some (some c)
unfolding slot
slot-no_clients zero n c e = cc
slot-no_clients (suc k) zero c e = cc
slot-no_clients (suc k) (suc n) c e = slot-no_clients k n c e

listening_server-Fresh : Fresh patient listening_server
listening_server-Fresh conn h e n c q = slot-no_clients 10 n c

first_rounds :
    Reach patient (Fresh patient) made_server serving_server (client_event ∷ listening_event ∷ [])
first_rounds =
    polls (handles (polls (starts listens) refl first_poll) (λ e. listening_server-Fresh) accepts)
      refl second_poll

Reach-server_pollfds_example :
    (pfds : List Pollfd) × (server_pollfds patient serving_server ≡ returns pfds serving_server)
Reach-server_pollfds_example =
    Reach-server_pollfds patient 8080 24 silent_host silent_host made_server serving_server
      (client_event ∷ listening_event ∷ []) patient-PollContract made first_rounds

Reach-Harmless_example : Harmless (handle_event patient client_event serving_server)
Reach-Harmless_example =
    Reach-Harmless patient 8080 24 silent_host silent_host made_server serving_server client_event
      (listening_event ∷ []) patient-PollContract made first_rounds (λ e. cc)
