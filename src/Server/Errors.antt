-- ===== src/Server/Errors.antt =====
-- Errors of an origin server that the handlers of src/server.cpp do not take.
use spx.Prelude.{
  refl, zero, suc, ◌+◌, ◌-◌, ◌/◌, ◌≤◌, ◌<◌, Option, none, [], ℕ, ◌≡◌, ◌∷◌, true, false, List, some,
  leb, length, take, drop, arith,
}
use spx.Prelude.Words.{size_mod}
use spx.Prelude.Int.{Stoi, stoi}
use spx.Outcome.{throws, returns, invalid_argument, fault, out_of_bounds}
use spx.Net.Sys.{Sys}
use spx.Net.ActiveSocket
use spx.Net.ActiveSocket.{ActiveSocket}
use spx.Http.Parser.{Parser}
use spx.Clients.Client.{Client, State}
use spx.Clients.Client
use spx.Clients.ClientsList
use spx.Clients.ClientsList.{find_client, slot, calculate_maximum_clients, pollin}
use spx.Net.PassiveSocket
use spx.Server.Discard.{accept_client}
use spx.Server.State
use spx.Server.State.{Server}
use spx.Server.Connect.{max_chunk_size, read_response_chunk}
use spx.Server.Response.{
  is_ok_status_code, read_response_status_code_from_server, status_code_offset, status_code_len,
}
use spx.Server.Events.{
  handle_client_socket_events, handle_server_socket_events, has_error, dispatch,
}

module _ {lib : Parser} {W : Type 0} (sys : Sys W) where
  -- The state once the world has moved on.
  abbrev pub in_world : W → Server lib W → Server lib W
  in_world w s = record s {
    clients = record (s.clients) { host = record (s.clients.host) { world = w } };
  }

  pub read_response_chunk_received :
      (id b : ℕ) (rest : List ℕ) (w : W) (s : Server lib W) (c : Client lib) (conn : ActiveSocket)
      → find_client id s.clients.slots ≡ some c
      → c.server_connection ≡ some conn
      → sys.recv conn.fd max_chunk_size s.clients.host.world ≡ (some (b ∷ rest), w)
      → read_response_chunk sys id s ≡ returns (b ∷ rest) (in_world w s)
  unfolding read_response_chunk State.load ActiveSocket.receive ActiveSocket.received
  read_response_chunk_received id b rest w s c conn f k r = ground arith

  is_ok_status_code_malformed :
      (chunk : List ℕ) (s : Server lib W)
      → leb (status_code_offset + status_code_len) (length chunk) ≡ true
      → stoi (take status_code_len (drop status_code_offset chunk)) ≡ Stoi.no_conversion
      → is_ok_status_code chunk s ≡ throws invalid_argument s
  unfolding is_ok_status_code
  is_ok_status_code_malformed chunk s l m = ground arith

  -- A client that waits for the status code of the response, whose server sends at least twelve bytes
  -- with no number where the code should be: the event handler throws `std::invalid_argument`, and the
  -- client is neither discarded nor changed.
  pub handle_client_socket_events_malformed :
      (id revents b : ℕ) (rest : List ℕ) (w : W) (s : Server lib W) (c : Client lib)
      (conn : ActiveSocket)
      → find_client id s.clients.slots ≡ some c
      → c.state ≡ State.waiting_response_status_code
      → c.server_connection ≡ some conn
      → sys.recv conn.fd max_chunk_size s.clients.host.world ≡ (some (b ∷ rest), w)
      → leb (status_code_offset + status_code_len) (length (b ∷ rest)) ≡ true
      → stoi (take status_code_len (drop status_code_offset (b ∷ rest))) ≡ Stoi.no_conversion
      → has_error revents ≡ false
      → handle_client_socket_events sys id revents s ≡ throws invalid_argument (in_world w s)
  unfolding handle_client_socket_events dispatch read_response_status_code_from_server State.load
  handle_client_socket_events_malformed id revents b rest w s c conn f st k r l m e = ground (
    arith,
    read_response_chunk_received id b rest w s c conn,
    is_ok_status_code_malformed (b ∷ rest) (in_world w s),
  )

slot-beyond : {A : Type 0} (l : List (Option A)) (k : ℕ) → length l ≤ k → slot l k ≡ none
unfolding slot
slot-beyond [] k h = refl
slot-beyond (x ∷ l) zero h = absurd (omega arith)
slot-beyond (x ∷ l) (suc k) h = slot-beyond l k (omega arith)

module _ {lib : Parser} {W : Type 0} (sys : Sys W) where
  -- A server with the slots that the constructor makes for `max_fds` descriptors accepts a connection
  -- whose descriptor, which may be any below `max_fds`, is at least half of `max_fds - 4`: the client
  -- is stored out of the table's bounds.
  pub handle_server_socket_events_overflow :
      (max_fds k : ℕ) (w : W) (s : Server lib W)
      → 4 ≤ max_fds
      → max_fds < size_mod
      → length s.clients.slots ≡ calculate_maximum_clients max_fds
      → sys.accept s.server_socket.socket.fd s.clients.host.world ≡ (some k, w)
      → (max_fds - 4) / 2 ≤ k
      → k < max_fds
      → handle_server_socket_events sys pollin s ≡ fault out_of_bounds
  unfolding handle_server_socket_events accept_client PassiveSocket.accept ClientsList.accept_client
      Client.create ActiveSocket.create ClientsList.assign_slot calculate_maximum_clients
  handle_server_socket_events_overflow max_fds k w s four word size got beyond below =
      let count : length s.clients.slots ≤ k = omega arith in
      let out = slot-beyond s.clients.slots k count in
      rw
        (
          handle_server_socket_events, accept_client, PassiveSocket.accept, got,
          ActiveSocket.create, ClientsList.accept_client, Client.create, ClientsList.assign_slot,
          out,
        )
        refl
