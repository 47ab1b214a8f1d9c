-- ===== src/Server/Delivery/Tests.antt =====
-- A cached response of three bytes on its way to a client whose connection takes two bytes at a time.
use spx.Prelude.{ℕ, ◌≡◌, refl, [], ◌∷◌, List, none, some, true, arith}
use spx.Outcome.{returns}
use spx.Cache.Entry.{Entry}
use spx.Cache.Store.{lookup}
use spx.Cache.Nodes.{total, addr_of}
use spx.Cache.Methods.{Cache}
use spx.Cache.Spec.{find}
use spx.Cache.Holding.{Holds}
use spx.Net.Sys.{Sys, Fd}
use spx.Clients.Client.{Client, State}
use spx.Clients.ClientsList.{find_client}
use spx.Clients.Tests.{logging, logging-SendContract}
use spx.Server.State.{Server}
use spx.Server.Sending.{send_cached_response_to_client}
use spx.Server.Tests.{no_parser, page, origin, waiting_client}
use spx.Cache.Spec.{total_size}
use spx.Server.Response.{read_response_from_server}
use spx.Server.Caching.{with_bytes, read_response_from_server-Synced}
use spx.Server.Sharing.{fallback_to_client_buffer}
use spx.Server.Broadcast.{is_listed}
use spx.Server.Fallback.{Gets, fallback_to_client_buffer-Gets}
use spx.Server.Synced.{Synced, advanced}
use spx.Server.Delivery.{
  Takes, Delivered, send_cached_response_to_client-Synced, send_cached_response_to_client-Delivered,
}

abbrev pub response : Entry
response = record { buffer = 1 ∷ 2 ∷ 3 ∷ []; completed = true; in_use = 1 }

abbrev pub page_cache : Cache
page_cache = record {
  max_size = 16;
  current_size = 3;
  list = record { addr = 0; key = page; entry = response } ∷ [];
  hash_table = (page, 0) ∷ [];
  next_addr = 1;
}

pub page_cache-Holds : Holds page_cache page response
unfolding lookup total addr_of find
page_cache-Holds = record {
  valid = record {
    distinct = (tt, tt, tt);
    indexed = λ k. refl;
    sized = refl;
    bounded = omega arith;
    word = omega arith;
    fresh = omega arith;
  };
  present = ground arith;
}

abbrev pub reading_client : Client no_parser
reading_client = record waiting_client {
  server_connection = none;
  state = State.got_response;
  should_read_from_cache = true;
}

abbrev pub reading_server : Server no_parser (List ℕ)
reading_server = record {
  server_socket = record { socket = record { fd = some 4 }; port = 8080 };
  cache = page_cache;
  clients = record {
    slots = none ∷ none ∷ none ∷ some reading_client ∷ [];
    host = record { world = []; next_id = 30 };
  };
  request_clients_map = (page, 7 ∷ []) ∷ [];
  is_running = true;
}

abbrev pub log : List ℕ → Fd → List ℕ
log w fd = w

reading : Synced log 7 response reading_server reading_client
unfolding find_client
reading = record { live = refl; cached = page_cache-Holds; synced = refl; bounded = omega arith }

logging-Takes : Takes logging
logging-Takes fd [] w h = absurd (omega arith)
logging-Takes fd (x ∷ []) w h = (1, ground arith, omega arith)
logging-Takes fd (x ∷ y ∷ l) w h = (2, ground arith, omega arith)

send_cached_response_to_client-Synced_example :
    (t : Server no_parser (List ℕ)) × (send_cached_response_to_client logging 7 reading_server
      ≡ returns tt t)
    × Synced log 7 response t (advanced 2 reading_client)
send_cached_response_to_client-Synced_example =
    send_cached_response_to_client-Synced logging log logging-SendContract 7 response reading_server
      reading_client 2 reading (omega arith) refl

send_cached_response_to_client-Delivered_example :
    Delivered logging log logging-SendContract 7 response 3 reading_server reading_client
send_cached_response_to_client-Delivered_example =
    send_cached_response_to_client-Delivered logging log logging-SendContract 7 response
      reading_server reading_client logging-Takes reading

-- The client reads the rest of the response from its server into the cache.
abbrev caching_client : Client no_parser
caching_client = record reading_client {
  server_connection = some origin;
  state = State.waiting_response;
  should_write_to_cache = true;
}

abbrev caching_server : Server no_parser (List ℕ)
caching_server = record reading_server {
  clients = record {
    slots = none ∷ none ∷ none ∷ some caching_client ∷ [];
    host = record { world = []; next_id = 30 };
  };
}

abbrev answering : Sys (List ℕ)
answering = record logging { recv = λ fd n w. (some (4 ∷ 5 ∷ []), w) }

read_response_from_server-Synced_example :
    (t : Server no_parser (List ℕ)) × (read_response_from_server answering 7 caching_server
      ≡ returns tt t)
    × (t.clients.slots ≡ caching_server.clients.slots)
    × ((o : ℕ) (x : Entry) (d : Client no_parser)
        → Synced log o x caching_server d
        → Synced log o (with_bytes page (4 ∷ 5 ∷ []) d.request_str x) t d)
unfolding find_client total_size
read_response_from_server-Synced_example =
    read_response_from_server-Synced answering log 7 4 (5 ∷ []) [] caching_server caching_client
      origin response refl refl refl (λ fd. refl) refl page_cache-Holds (omega arith)

-- The cache has no room for the rest of the response.
fallback_to_client_buffer-Gets_example :
    (t : Server no_parser (List ℕ)) × (fallback_to_client_buffer 7 (4 ∷ 5 ∷ []) caching_server
      ≡ returns tt t)
    × ((j : ℕ) (d : Client no_parser)
        → is_listed j (7 ∷ []) ≡ true
        → Synced log j response caching_server d
        → d.chunks ≡ []
        → Gets log (1 ∷ 2 ∷ 3 ∷ 4 ∷ 5 ∷ []) j t)
unfolding find_client lookup
fallback_to_client_buffer-Gets_example =
    fallback_to_client_buffer-Gets log 7 (4 ∷ 5 ∷ []) (7 ∷ []) response caching_server
      caching_client refl (ground arith) (refl, tt) ((caching_client, refl, refl), tt)
      (page_cache-Holds, omega arith, omega arith)
