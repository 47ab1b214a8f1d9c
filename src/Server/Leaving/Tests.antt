-- ===== src/Server/Leaving/Tests.antt =====
-- A client that has been sent all three bytes of its cached response.
use spx.Prelude.{ℕ, ◌≡◌, ◌⊎◌, refl, [], ◌∷◌, List, none, some, false, arith}
use spx.Outcome.{returns}
use spx.Dict.{lookup}
use spx.Clients.Client.{Client}
use spx.Clients.ClientsList.{find_client}
use spx.Clients.Tests.{logging, logging-SendContract}
use spx.Server.State.{Server}
use spx.Server.Discard.{is_waiting_response}
use spx.Server.Sending.{send_cached_response_to_client}
use spx.Server.Tests.{no_parser}
use spx.Server.Delivery.Tests.{response, page_cache-Holds, reading_client, reading_server, log}
use spx.Server.Synced.{Synced}
use spx.Server.Leaving.{Left, send_cached_response_to_client-Drained}

abbrev full_client : Client no_parser
full_client = record reading_client { sent_bytes = 3 }

abbrev full_server : Server no_parser (List ℕ)
full_server = record reading_server {
  clients = record {
    slots = none ∷ none ∷ none ∷ some full_client ∷ [];
    host = record { world = 1 ∷ 2 ∷ 3 ∷ []; next_id = 30 };
  };
}

full : Synced log 7 response full_server full_client
unfolding find_client
full = record { live = refl; cached = page_cache-Holds; synced = refl; bounded = omega arith }

send_cached_response_to_client-Drained_example :
    (t : Server no_parser (List ℕ)) × (send_cached_response_to_client logging 7 full_server
      ≡ returns tt t)
    × (Left logging 7 3 response full_server full_client t
        ⊎ ((response.completed ≡ false)
            × (t ≡ record full_server { cache = t.cache })
            × Synced log 7 response t full_client))
unfolding find_client lookup is_waiting_response
send_cached_response_to_client-Drained_example =
    send_cached_response_to_client-Drained logging log logging-SendContract 7 3 response full_server
      full_client (7 ∷ []) full refl (refl, tt) refl refl (ground arith) ((full_client, refl), tt)
