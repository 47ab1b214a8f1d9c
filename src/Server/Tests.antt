-- ===== src/Server/Tests.antt =====
-- A proxy with one client in its fourth slot, which waits for a response, and its theorems on it.
use spx.Prelude.{arith, ℕ, ◌≡◌, refl, List, [], ◌∷◌, none, some, Str, true, false, codes}
use spx.Outcome.{returns, throws, fault, invalid_argument, null_reference, out_of_bounds}
use spx.Prelude.Int.{Stoi, stoi, skip_spaces, signed, convert}
use spx.Dict.{lookup, assign}
use spx.Cache.Methods
use spx.Net.Sys.{Sys}
use spx.Net.ActiveSocket.{ActiveSocket}
use spx.Http.Parser.{Parser}
use spx.Http.HttpRequest
use spx.Clients.Client.{Client, State, same_client}
use spx.Clients.ClientsList.{
  find_client, search_fd, has_fd, slot, get_pollfds, pollin, calculate_maximum_clients,
}
use spx.Server.State.{Server}
use spx.Server.Events.{
  handle_event, handle_events, handle_server_socket_events, handle_client_socket_events,
}
use spx.Server.Discard.{discard_client}
use spx.Outcome.Ends.{Ends}
use spx.Cache.Invariant.{create-IsValid}
use spx.Server.Safety.Slots.{remove_client}
use spx.Server.Requests.{has_clients_with_request}
use spx.Server.Orphans.{handle_client_socket_events_orphan}
use spx.Server.Gone.{handle_events_gone}
use spx.Server.Errors.{
  handle_client_socket_events_malformed, handle_server_socket_events_overflow, in_world,
}
use spx.Server.Safety.Invariant.{Inv, After, After-refl, assign-After}
use spx.Server.Safety.Tame.{is_new}
use spx.Server.Safety.Discarding.{discard_client-Ends}
use spx.Server.Safety.Responding.{Handled}
use spx.Server.Safety.Rounds.{handle_event-Handled}

-- A parser that takes nothing, and a system on which every call succeeds and each `recv` brings the
-- same message.
abbrev pub no_parser : Parser
no_parser = record {
  parse_request = λ s. none;
  Url = Unit;
  no_url = tt;
  parse_url = λ s. none;
  is_valid = λ u. false;
  hostname = λ u. [];
  path = λ u. [];
  http_port = λ u. 80;
}

abbrev pub bringing : List ℕ → Sys (Unit {0})
bringing message = record {
  socket = λ d t p w. (some 20, w);
  close = λ fd w. w;
  send = λ fd bytes w. (some 1, w);
  recv = λ fd n w. (some message, w);
  shutdown_write = λ fd w. (true, w);
  connect = λ fd a w. (true, w);
  set_reuse_addr = λ fd w. (true, w);
  set_reuse_port = λ fd w. (true, w);
  bind = λ fd a w. (true, w);
  listen = λ fd n w. (true, w);
  accept = λ fd w. (none, w);
  getaddrinfo = λ h p w. (none, w);
  poll = λ l t w. (some l, w);
  stack = λ w. [];
  open_files_limit = λ w. (some 64, w);
}

abbrev pub origin : ActiveSocket
origin = record { id = 8; socket = record { fd = some 9 } }

abbrev pub page : Str
page = codes "GET"

abbrev pub waiting_client : Client no_parser
waiting_client = record {
  id = 7;
  request_str = page;
  request = HttpRequest.empty no_parser;
  client_connection = record { id = 5; socket = record { fd = some 3 } };
  server_connection = some origin;
  state = State.waiting_response_status_code;
  sent_bytes = 0;
  chunks = [];
  should_write_to_cache = false;
  should_read_from_cache = false;
  should_write_to_all = false;
}

abbrev unlisted_server : Server no_parser (Unit {0})
unlisted_server = record {
  server_socket = record { socket = record { fd = some 4 }; port = 8080 };
  cache = Methods.create 16777216;
  clients = record {
    slots = none ∷ none ∷ none ∷ some waiting_client ∷ [];
    host = record { world = tt; next_id = 30 };
  };
  request_clients_map = [];
  is_running = true;
}

abbrev one_client_server : Server no_parser (Unit {0})
one_client_server = record unlisted_server { request_clients_map = assign page (7 ∷ []) [] }

found : find_client 7 unlisted_server.clients.slots ≡ some waiting_client
unfolding find_client
found = refl

unlisted_server-Inv : Inv unlisted_server
unfolding lookup
unlisted_server-Inv = record {
  placed = (refl, tt);
  listed = λ req ids e. cc;
  joined = (λ m. refl, tt);
}

one_client_server-Inv : Inv one_client_server
unfolding is_new
one_client_server-Inv =
    (assign-After unlisted_server page (7 ∷ []) (After-refl unlisted_server unlisted_server-Inv)
      ((waiting_client, found, refl, refl), tt)).inv

no_code : stoi (codes "abc") ≡ Stoi.no_conversion
unfolding stoi skip_spaces signed convert
no_code = refl

-- The event loop sees the origin server's descriptor ready to read, and a status line with 200.
handle_event-Handled_example : Handled (
    handle_event
      (bringing (codes "HTTP/1.1 200 OK"))
      (record { fd = some 9; events = 1; revents = 1 })
      one_client_server)
handle_event-Handled_example =
    handle_event-Handled (bringing (codes "HTTP/1.1 200 OK"))
      (record { fd = some 9; events = 1; revents = 1 }) one_client_server refl (λ e. refl)
      one_client_server-Inv

discard_client-Ends_example :
    Ends (λ u t. Inv t) (After one_client_server) (discard_client (bringing []) 7 one_client_server)
discard_client-Ends_example =
    discard_client-Ends (bringing []) 7 one_client_server (waiting_client, found)
      (After-refl one_client_server one_client_server-Inv)

handle_client_socket_events_malformed_example :
    handle_client_socket_events (bringing (codes "HTTP/1.1 abc OK")) 7 1 one_client_server
    ≡ throws invalid_argument (in_world (bringing (codes "HTTP/1.1 abc OK")) tt one_client_server)
handle_client_socket_events_malformed_example =
    handle_client_socket_events_malformed (bringing (codes "HTTP/1.1 abc OK")) 7 1 b'H'
      (codes "TTP/1.1 abc OK") tt one_client_server waiting_client origin found refl refl refl refl
      no_code refl

-- The client reads the rest of the response.
abbrev receiving_client : Client no_parser
receiving_client = record waiting_client { state = State.waiting_response }

abbrev receiving_server : Server no_parser (Unit {0})
receiving_server = record unlisted_server {
  clients = record {
    slots = none ∷ none ∷ none ∷ some receiving_client ∷ [];
    host = record { world = tt; next_id = 30 };
  };
  request_clients_map = (page, 7 ∷ []) ∷ [];
}

-- The origin server's descriptor has POLLERR, and the client's own has POLLOUT.
handle_events_gone_example :
    handle_events
      (bringing [])
      (record { fd = some 9; events = 1; revents = 8 }
        ∷ record { fd = some 3; events = 4; revents = 4 }
        ∷ [])
      receiving_server
    ≡ fault null_reference
unfolding find_client search_fd has_fd lookup
handle_events_gone_example =
    handle_events_gone (bringing []) 7 3 (record { fd = some 9; events = 1; revents = 8 })
      (record { fd = some 3; events = 4; revents = 4 }) [] receiving_server receiving_client refl
      (refl, tt) (create-IsValid 16777216 (omega arith)) (ground arith) refl refl refl refl refl
      refl refl

-- A client whose request is not sent yet, and one that waits for the same response.
abbrev sending_client : Client no_parser
sending_client = record waiting_client { state = State.sending_request }

abbrev orphan_client : Client no_parser
orphan_client = record waiting_client {
  id = 8;
  client_connection = record { id = 6; socket = record { fd = some 5 } };
  server_connection = none;
  state = State.waiting_for_response_for_another_client;
}

abbrev shared_server : Server no_parser (Unit {0})
shared_server = record unlisted_server {
  clients = record {
    slots = none ∷ none ∷ none ∷ some sending_client ∷ none ∷ some orphan_client ∷ [];
    host = record { world = tt; next_id = 30 };
  };
  request_clients_map = (page, 7 ∷ 8 ∷ []) ∷ [];
}

handle_client_socket_events_orphan_example :
    (t : Server no_parser (Unit {0})) × (handle_client_socket_events
        (bringing [])
        7
        16
        shared_server
      ≡ returns tt t)
    × (slot t.clients.slots 3 ≡ some none)
    × (find_client 8 t.clients.slots ≡ some orphan_client)
    × (lookup page t.request_clients_map ≡ some (8 ∷ []))
    × (has_clients_with_request page t ≡ true)
    × (get_pollfds t.clients.slots ≡ get_pollfds (remove_client 8 t.clients.slots))
unfolding find_client lookup same_client
handle_client_socket_events_orphan_example =
    handle_client_socket_events_orphan (bringing []) 7 8 3 16 shared_server sending_client
      orphan_client refl refl refl (refl, (refl, tt)) (create-IsValid 16777216 (omega arith))
      (ground arith) refl refl refl refl refl

-- A system with twelve descriptors, which accepts the connection on the ninth.
abbrev crowded : Sys (Unit {0})
crowded = record (bringing []) { accept = λ fd w. (some 9, w) }

handle_server_socket_events_overflow_example :
    handle_server_socket_events crowded pollin unlisted_server ≡ fault out_of_bounds
unfolding calculate_maximum_clients
handle_server_socket_events_overflow_example =
    handle_server_socket_events_overflow crowded 12 9 tt unlisted_server (omega arith) (omega arith)
      refl refl (omega arith) (omega arith)
