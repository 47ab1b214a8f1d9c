-- ===== src/Server/Latecomer/Tests.antt =====
-- A response of the status 404 ends just when a second client has asked for it.
use spx.Prelude.{
  ◌≡◌, refl, [], ◌∷◌, none, some, true, false, arith, if◌then◌else◌, Str, codes, ◌++◌, str_discrete,
  ℕ_discrete,
}
use spx.Prelude.Decimal.{int_to_string, to_string, digits}
use spx.Outcome.{returns, ◌>>◌}
use spx.Dict.{lookup}
use spx.Cache.Methods
use spx.Net.Sys.{Sys}
use spx.Net.TcpSocket.{same_fd}
use spx.Net.ActiveSocket
use spx.Http.Parser.{Parser}
use spx.Http.HttpRequest
use spx.Http.HttpRequest.{HttpRequest}
use spx.Clients.Reading
use spx.Clients.Client
use spx.Clients.Client.{Client, State}
use spx.Clients.ClientsList
use spx.Clients.ClientsList.{find_client, get_pollfds}
use spx.Server.State.{Server, on_client}
use spx.Server.Response.{read_request_from_client, read_response_from_server}
use spx.Server.Safety.Slots.{remove_client}
use spx.Server.Tests.{origin, bringing}
use spx.Server.Latecomer.{read_request_from_client_latecomer}

-- Every request is the same one, without headers.
abbrev one_page : Parser
one_page = record {
  parse_request = λ s. some (record {
    version_major = 1;
    version_minor = 1;
    method = codes "GET";
    uri = [];
    headers = [];
  });
  Url = Unit;
  no_url = tt;
  parse_url = λ s. some tt;
  is_valid = λ u. true;
  hostname = λ u. [];
  path = λ u. codes "/";
  http_port = λ u. 80;
}

-- The origin server closes the connection, and the client sends the end of its headers.
abbrev ending : Sys (Unit {0})
ending = record (bringing []) {
  recv = λ fd n w. (some (if same_fd fd (some 9) then [] else (13 ∷ 10 ∷ 13 ∷ 10 ∷ [])), w);
}

abbrev new_client : Client one_page
new_client = record {
  id = 8;
  request_str = [];
  request = HttpRequest.empty one_page;
  client_connection = record { id = 6; socket = record { fd = some 5 } };
  server_connection = none;
  state = State.waiting_for_request;
  sent_bytes = 0;
  chunks = [];
  should_write_to_cache = false;
  should_read_from_cache = false;
  should_write_to_all = false;
}

-- The text of the request, which is the key of its list.
abbrev page_text : Str
page_text = codes "GET / HTTP/1.1" ++ 13 ∷ 10 ∷ 13 ∷ 10 ∷ 13 ∷ 10 ∷ []

abbrev asked_client : Client one_page
asked_client = record new_client {
  request_str = page_text;
  request = record {
    version_major = 1;
    version_minor = 1;
    method = codes "GET";
    url = tt;
    headers = [];
  };
}

abbrev private_client : Client one_page
private_client = record asked_client {
  id = 7;
  client_connection = record { id = 5; socket = record { fd = some 3 } };
  server_connection = some origin;
  state = State.waiting_response;
  sent_bytes = 1;
}

abbrev ending_server : Client one_page → Server one_page (Unit {0})
ending_server c = record {
  server_socket = record { socket = record { fd = some 4 }; port = 8080 };
  cache = Methods.create 16777216;
  clients = record {
    slots = none ∷ none ∷ none ∷ some private_client ∷ none ∷ some c ∷ [];
    host = record { world = tt; next_id = 30 };
  };
  request_clients_map = (page_text, 7 ∷ []) ∷ [];
  is_running = true;
}

requested :
    on_client 8 (Client.get_http_request ending) (ending_server new_client)
    ≡ returns tt (ending_server asked_client)
unfolding HttpRequest.create HttpRequest.parse HttpRequest.empty HttpRequest.parse_request_str
    HttpRequest.parse_url HttpRequest.add_headers HttpRequest.add_header HttpRequest.is_listed
    HttpRequest.insert_or_assign HttpRequest.str_lt str_discrete ℕ_discrete Client.get_http_request
    Reading.read_http_request Reading.read_loop ActiveSocket.receive ActiveSocket.received
    Reading.strncpy Reading.search Reading.strstr_terminator Reading.starts_with_terminator
    ClientsList.on_client ClientsList.find_client ClientsList.store_client HttpRequest.to_string
    HttpRequest.valid_url HttpRequest.headers_to_string int_to_string to_string digits
requested = refl

read_request_from_client_latecomer_example :
    (t : Server one_page (Unit {0})) × ((read_request_from_client ending 8
          >> read_response_from_server ending 7)
        (ending_server new_client)
      ≡ returns tt t)
    × (find_client 7 t.clients.slots ≡ some (record private_client { state = State.got_response }))
    × (find_client 8 t.clients.slots
        ≡ some (record asked_client { state = State.waiting_for_response_for_another_client }))
    × (lookup page_text t.request_clients_map ≡ some (7 ∷ 8 ∷ []))
    × (get_pollfds t.clients.slots ≡ get_pollfds (remove_client 8 t.clients.slots))
unfolding find_client lookup Methods.contains str_discrete ℕ_discrete Methods.create
read_request_from_client_latecomer_example =
    read_request_from_client_latecomer ending 7 8 [] tt (ending_server new_client)
      (ending_server asked_client) private_client asked_client origin requested refl refl
      (ground arith) refl refl refl refl refl refl
